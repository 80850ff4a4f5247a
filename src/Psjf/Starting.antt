-- ===== src/Psjf/Starting.antt =====
-- The queue of psjf.c before its main loop.
use Prim.Native.Nat.{compare}
use mathlib.Core.List.{Permᴰ}
use mathlib.Core.List.Permᴰ
use os2016spring.Base.{
  ℕ, suc, ◌+◌, ◌≤◌, ◌<◌, ◌≡◌, refl, sym, subst, ap, List, [], ◌∷◌, All, length, arith,
}
use os2016spring.Os.{Event}
use os2016spring.Qsort.{Qsort, All-perm, length-perm}
use os2016spring.Batch.{Line}
use os2016spring.Served.Apart.{Apart, Apart-perm, Numbered-Apart}
use os2016spring.Served.Accounts.{Accounts-new}
use os2016spring.Input.{as_tasks, total_time, ReadyBy, as_tasks-Numbered}
use os2016spring.Psjf.{RawInput, start, fuel_for, compare_by_ready_time, read_jobs}
use os2016spring.Psjf.Invariant.{task, tasks, total, IsValid, gap-due, work}
use os2016spring.Psjf.Dispatch.{total-perm}

compare_by_ready_time-compares :
    (a b : RawInput) → compare_by_ready_time a b ≡ compare a.ready_time b.ready_time
unfolding compare_by_ready_time
compare_by_ready_time-compares a b = ground arith

length-read_jobs : (i : ℕ) (input : List Line) → length (read_jobs i input) ≡ length input
unfolding read_jobs
length-read_jobs i [] = refl
length-read_jobs i ((n, r, e) ∷ input) = ap suc (length-read_jobs (suc i) input)

total-read_jobs : (i : ℕ) (input : List Line) → total (read_jobs i input) ≡ total_time input
unfolding read_jobs
total-read_jobs i [] = refl
total-read_jobs i ((n, r, e) ∷ input) = omega (arith, total-read_jobs (suc i) input)

latest-read_jobs :
    (last i : ℕ) (input : List Line)
    → All (ReadyBy last) input
    → All (λ (r : RawInput). r.ready_time ≤ last) (read_jobs i input)
unfolding read_jobs
latest-read_jobs last i [] h = tt
latest-read_jobs last i ((n, r, e) ∷ input) h = (h.0, latest-read_jobs last (suc i) input h.1)

pub tasks-read_jobs : (i : ℕ) (input : List Line) → tasks (read_jobs i input) ≡ as_tasks i input
unfolding read_jobs
tasks-read_jobs i [] = refl
tasks-read_jobs i ((n, r, e) ∷ input) =
    ap (◌∷◌ (record { pipe = i; ready = r; burst = e })) (tasks-read_jobs (suc i) input)

from_zero : (rs : List RawInput) → All (λ (r : RawInput). 0 ≤ r.ready_time) rs
from_zero [] = tt
from_zero (r ∷ rs) = (omega arith, from_zero rs)

module _ (q : Qsort RawInput) (input : List Line) where
  pub sorted_perm : Permᴰ (q.sort compare_by_ready_time (read_jobs 0 input)) (read_jobs 0 input)
  sorted_perm =
      q.perm compare_by_ready_time (λ r. r.ready_time) compare_by_ready_time-compares
        (read_jobs 0 input)

  -- The jobs have pipes of their own.
  pub sorted-Apart : Apart (tasks (q.sort compare_by_ready_time (read_jobs 0 input)))
  sorted-Apart =
      Apart-perm (Permᴰ.map task (Permᴰ.symm sorted_perm)) (
        subst Apart (sym (tasks-read_jobs 0 input))
          (Numbered-Apart 0 _ (as_tasks-Numbered 0 input)))

  pub start-IsValid :
      (last : ℕ)
      → All (ReadyBy last) input
      → last + total_time input < 2147483648
      → IsValid last
          (last + total_time input)
          (start (q.sort compare_by_ready_time (read_jobs 0 input)))
  start-IsValid last h small = record {
    counted = refl;
    arrived = tt;
    pending = from_zero _;
    sorted =
        q.sorted compare_by_ready_time (λ r. r.ready_time) compare_by_ready_time-compares
          (read_jobs 0 input);
    latest = All-perm _ (Permᴰ.symm sorted_perm) (latest-read_jobs last 0 input h);
    room = omega (arith, total-perm sorted_perm, total-read_jobs 0 input);
    accounts = Accounts-new (Event.set_priority 0 98 ∷ []) _ (λ _. refl) tt sorted-Apart;
    small = small;
  }

  pub start-work : work (start (q.sort compare_by_ready_time (read_jobs 0 input))) < fuel_for input
  start-work = omega (
    arith,
    length-perm sorted_perm,
    length-read_jobs 0 input,
    gap-due 0 (q.sort compare_by_ready_time (read_jobs 0 input)),
  )
