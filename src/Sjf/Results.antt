-- ===== src/Sjf/Results.antt =====
-- prj1/sjf.c: the lines that `SJF` prints.
use mathlib.Core.List.{Permᴰ}
use mathlib.Core.List.Permᴰ
use os2016spring.Base.{
  ◌≡◌, ◌<◌, refl, sym, subst, length, if◌then◌else◌, arith, inl, inr, List, [], ◌∷◌, All,
  Bool-cases,
}
use os2016spring.Os.{Os, Trace}
use os2016spring.Os.Ends
use os2016spring.Os.Ends.{priority_checked, Ends}
use os2016spring.Os.Returns
use os2016spring.Os.Returns.{Returns, returns, Ends-Returns, loop_keeps}
use os2016spring.Qsort.{Qsort, All-perm, length-perm}
use os2016spring.Results.{IsTold}
use os2016spring.Results.Books.{Books-perm, to_start}
use os2016spring.Batch.{Data, Line, State, cmp, read_file, start, loop, is_left, wait_loop}
use os2016spring.Batch.Forking.{IsFresh, RestFresh, RestFresh-all}
use os2016spring.Batch.Results.{
  forked_entry, Recorded, IsRecorded, IsLaunched, wait_loop-Recorded, execute_fork-Recorded,
}
use os2016spring.Batch.Results.Assigning.{new-IsLaunched, old-IsLaunched, assign-Recorded}
use os2016spring.Batch.Results.Printing.{start-Recorded, print_results-IsTold}
use os2016spring.Fifo.{fuel_for}
use os2016spring.Sjf.{sjf_cmp, mark_first, choose_of, choose, round, sjf}
use os2016spring.Sjf.Choosing.{sjf_cmp-compares}
use os2016spring.Sjf.Schedule.{sjf-Shortest}

-- The fields hold what has happened once a slice is written for the job at `Index`.
abbrev IsReady : Os → State → Type 0
IsReady os s = IsLaunched os s.finished s.forked s.unforked s.trace

module _ {os : Os} where
  -- The forked jobs stand in another order.
  Recorded-perm :
      {t : Trace} (finished unforked : List Data) {f g : List Data}
      → Permᴰ g f
      → RestFresh g
      → Recorded os finished f unforked t
      → Recorded os finished g unforked t
  Recorded-perm finished unforked p rest_fresh r = record {
    books =
        Books-perm
          (Permᴰ.append_right (to_start _ unforked) (Permᴰ.map forked_entry (Permᴰ.symm p)))
          r.books;
    fresh = r.fresh;
    rest_fresh = rest_fresh;
    unprinted = r.unprinted;
  }

  mark_first-IsReady :
      (f : List Data) (s : State)
      → 0 < length f
      → All IsFresh f
      → Recorded os s.finished f s.unforked s.trace
      → IsReady os (mark_first os f s)
  unfolding mark_first
  mark_first-IsReady [] s some_job fresh r = absurd (omega arith)
  mark_first-IsReady (d ∷ rest) s some_job fresh r =
      new-IsLaunched s.finished rest s.unforked d s.trace fresh.0 r

  choose_of-IsReady :
      (q : Qsort Data) (f : List Data) (s : State)
      → s.forked ≡ f
      → Recorded os s.finished f s.unforked s.trace
      → IsReady os (choose_of os q f s)
  unfolding choose_of
  choose_of-IsReady q [] s f r = rw f tt
  choose_of-IsReady q (d ∷ rest) s f r =
      let sorted = mark_first os (q.sort sjf_cmp (d ∷ rest)) s in
      let behind = record s { forked = d ∷ q.sort sjf_cmp rest } in
      let p : (l : List Data) → Permᴰ (q.sort sjf_cmp l) l =
        q.perm sjf_cmp (λ e. e.execution_time) sjf_cmp-compares in
      elim (Bool-cases d.flag) [
        | inr old ↦
            subst (λ b. IsReady os (if b then sorted else behind)) (sym old)
              (old-IsLaunched s.finished (q.sort sjf_cmp rest) s.unforked d s.trace old (
                Recorded-perm s.finished s.unforked (Permᴰ.cons refl (p rest))
                  (All-perm IsFresh (Permᴰ.symm (p rest)) r.rest_fresh) r))
        | inl new ↦
            let fresh : All IsFresh (q.sort sjf_cmp (d ∷ rest)) =
              All-perm IsFresh (Permᴰ.symm (p (d ∷ rest))) (new, r.rest_fresh) in
            subst (λ b. IsReady os (if b then sorted else behind)) (sym new)
              (mark_first-IsReady (q.sort sjf_cmp (d ∷ rest)) s
                (omega (arith, length-perm (p (d ∷ rest)))) fresh
                (Recorded-perm s.finished s.unforked (p (d ∷ rest)) (RestFresh-all _ fresh) r))
      ]

  round-Recorded :
      (q : Qsort Data) (s : State) → IsRecorded os s → Returns (IsRecorded os) (round os q s)
  unfolding round choose
  round-Recorded q s r =
      Returns.bind (execute_fork-Recorded (wait_loop s) (wait_loop-Recorded s r))
        λ s' r'. assign-Recorded (choose os q s') (choose_of-IsReady q s'.forked s' refl r')

pub sjf-Printed :
    (os : Os) (q : Qsort Data) (input : List Line)
    → Returns (λ s. IsTold os s.trace) (sjf os q input)
unfolding sjf loop
sjf-Printed os q input =
    Returns.bind
      (loop_keeps (λ (s : State). is_left s.forked s.unforked) (round os q) (loop (round os q))
        (λ _. refl) (λ _ _. refl) (IsRecorded os) (round-Recorded q) (fuel_for input)
        (start (q.sort cmp (read_file 0 input))) (start-Recorded q input))
      λ s r. returns (print_results-IsTold os s r)

-- For any operating system and any `qsort`, and whatever the input: SJF ends, and it has printed
-- one line for each job that it has reaped, in the order in which it has reaped them: the pid of
-- the one child that was started for the job, the one time that was read for its start, directly
-- before its first slice was written to its pipe, and the one time that was read where it was
-- reaped; or else SJF exits where a `fork` or a `sched_setscheduler` fails.
pub sjf-AllReported :
    (os : Os) (q : Qsort Data) (input : List Line)
    → Ends priority_checked os (λ s. IsTold os s.trace) (sjf os q input)
sjf-AllReported os q input =
    Ends.mono (Ends-Returns (sjf-Shortest os q input) (sjf-Printed os q input)) λ _ (_, told). told
