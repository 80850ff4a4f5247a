-- ===== src/Tests/Agreement.antt =====
-- Two implementations of `qsort`, and two schedulers, on three jobs that arrive one by one.
use mathlib.Core.List.{Permᴰ, reverse}
use mathlib.Core.List.Permᴰ
use os2016spring.Base.{◌≡◌, List, [], ◌∷◌, arith}
use os2016spring.Os.{completions}
use os2016spring.Os.Ends.{priority_checked, Ends}
use os2016spring.Qsort.{Qsort}
use os2016spring.Qsort.Insertion.{stable_qsort}
use os2016spring.Qsort.Unique.{Spread}
use os2016spring.Batch.{Line}
use os2016spring.Input.{ready_of}
use os2016spring.Fifo.{fifo}
use os2016spring.Rr.{rr}
use os2016spring.Agreement.{rr-fifo}
use os2016spring.Tests.Machine.{reliable}

-- One that puts equal elements in the opposite order.
abbrev backward_qsort : {A : Type 0} → Qsort A
backward_qsort = record {
  sort = λ cmp xs. stable_qsort.sort cmp (reverse xs);
  perm = λ cmp key compares xs.
      Permᴰ.trans (stable_qsort.perm cmp key compares (reverse xs)) (Permᴰ.reverse xs);
  sorted = λ cmp key compares xs. stable_qsort.sorted cmp key compares (reverse xs);
}

abbrev one_by_one : List Line
one_by_one = ("P1", 0, 400) ∷ ("P3", 300, 500) ∷ ("P2", 100, 7) ∷ []

one_by_one-Spread : Spread ready_of one_by_one
one_by_one-Spread = (
  ((λ e. omega (arith, e)), ((λ e. omega (arith, e)), tt)),
  (((λ e. omega (arith, e)), tt), (tt, tt)),
)

rr-fifo_example :
    Ends priority_checked reliable
      (λ s.
        Ends priority_checked reliable
          (λ s'. completions s.trace ≡ completions s'.trace)
          (fifo reliable backward_qsort one_by_one))
      (rr reliable stable_qsort one_by_one)
rr-fifo_example =
    rr-fifo reliable reliable stable_qsort backward_qsort one_by_one (omega arith) (omega arith)
      one_by_one-Spread
