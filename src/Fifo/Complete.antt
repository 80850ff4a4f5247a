-- ===== src/Fifo/Complete.antt =====
-- First come, first served completes every job once, and in time.
use mathlib.Core.List.{Permᴰ}
use mathlib.Core.List.Permᴰ
use os2016spring.Base.{ℕ, ◌+◌, ◌≤◌, ◌≡◌, refl, sym, ap, subst, List, [], ◌∷◌, max, All, arith}
use os2016spring.Os.{Os, completions}
use os2016spring.Os.Ends
use os2016spring.Os.Ends.{priority_checked, Ends}
use os2016spring.Qsort.{Qsort, All-perm}
use os2016spring.Task.{Task}
use os2016spring.Batch.{Data, Line, cmp, read_file}
use os2016spring.Batch.Invariant.{task, tasks}
use os2016spring.Batch.Input.{sorted_perm, tasks-read_file}
use os2016spring.Input.{as_tasks, total_time, ReadyBy, pipes, demand, ready-as_tasks}
use os2016spring.Complete.{jobs, InTime, Complete, sorted-Complete}
use os2016spring.Fifo.{fifo}
use os2016spring.Fifo.Schedule.{fifo_schedule, fifo-Kept}

jobs-fifo_schedule : (c : ℕ) (ts : List Task) → jobs (fifo_schedule c ts) ≡ pipes ts
unfolding fifo_schedule
jobs-fifo_schedule c [] = refl
jobs-fifo_schedule c (t ∷ ts) = ap (◌∷◌ t.pipe) (jobs-fifo_schedule (max c t.ready + t.burst) ts)

-- Where the last arrival is by `last`, no time is lost behind it.
fifo_schedule-InTime :
    (last end c : ℕ) (ts : List Task)
    → All (λ (x : Task). x.ready ≤ last) ts
    → max c last + demand ts ≤ end
    → InTime end (fifo_schedule c ts)
unfolding fifo_schedule
fifo_schedule-InTime last end c [] h room = tt
fifo_schedule-InTime last end c (t ∷ ts) h room = (
  omega (arith, h.0, room),
  fifo_schedule-InTime last end (max c t.ready + t.burst) ts h.1 (omega (arith, h.0, room)),
)

-- For any operating system and any `qsort`, and whatever the input: FIFO completes every job of the
-- input, once, and the last of them no later than all the execution times after the last arrival,
-- which the clock does not pass either; or else it exits where a `fork` or a `sched_setscheduler`
-- fails.
pub fifo-Complete :
    (os : Os) (q : Qsort Data) (input : List Line) (last : ℕ)
    → All (ReadyBy last) input
    → Ends priority_checked os
        (λ s.
          Complete input (last + total_time input) (completions s.trace)
          × (s.clock ≤ last + total_time input))
        (fifo os q input)
fifo-Complete os q input last ready = Ends.mono (fifo-Kept os q input) λ s (r, _, latest).
    let ts = tasks (q.sort cmp (read_file 0 input)) in
    let p : Permᴰ ts (as_tasks 0 input) =
      subst (Permᴰ ts) (tasks-read_file 0 input) (Permᴰ.map task (sorted_perm q input)) in
    let by_last = All-perm _ (Permᴰ.symm p) (ready-as_tasks last 0 input ready) in
    let done : Complete input (last + total_time input) (fifo_schedule 0 ts) =
      sorted-Complete input last ts (fifo_schedule 0 ts) p
        (subst (Permᴰ (jobs (fifo_schedule 0 ts))) (jobs-fifo_schedule 0 ts) (Permᴰ.refl _))
        (fifo_schedule-InTime last (last + demand ts) 0 ts by_last (omega arith)) in
    let complete = subst (Complete input (last + total_time input)) (sym r) done in
    (complete, latest (last + total_time input) complete.in_time)
