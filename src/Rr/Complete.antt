-- ===== src/Rr/Complete.antt =====
-- Round robin completes every job once, and in time.
use mathlib.Core.List.{Permᴰ}
use mathlib.Core.List.Permᴰ
use os2016spring.Base.{
  ℕ, ◌+◌, ◌≤◌, refl, sym, ap, subst, List, [], ◌∷◌, ◌++◌, append_assoc, max, All, arith,
}
use os2016spring.Os.{Os, completions}
use os2016spring.Os.Ends
use os2016spring.Os.Ends.{priority_checked, Ends}
use os2016spring.Qsort.{Qsort, All-perm}
use os2016spring.Task.{Task}
use os2016spring.Batch.{Line}
use os2016spring.Input.{as_tasks, total_time, ReadyBy, pipes, demand, ready-as_tasks}
use os2016spring.Complete.{jobs, InTime, Complete, demand-perm, sorted-Complete}
use os2016spring.ReadyList.{PStruct}
use os2016spring.Rr.{rr, rr_cmp, read_structs}
use os2016spring.Rr.Robin.{Robin, over, arrives, idles, runs, expires, completes, shorter}
use os2016spring.Rr.Invariant.{task, tasks}
use os2016spring.Rr.Starting.{HasTime, arrivals, arrivals_perm, tasks-read_structs}
use os2016spring.Rr.Schedule.{rr-Kept}

-- The queue with its first job at its end, and an arrival at the end of the queue.
rotated :
    (x : Task) (queue later : List Task) → Permᴰ ((queue ++ x ∷ []) ++ later) (x ∷ (queue ++ later))
rotated x queue later =
    subst (λ l. Permᴰ l (x ∷ (queue ++ later))) (sym (append_assoc queue (x ∷ []) later))
      (Permᴰ.middle x queue later)

Robin-once :
    {quantum t left : ℕ} {queue later : List Task} {out : List (ℕ × ℕ)}
    → Robin quantum t left queue later out
    → Permᴰ (jobs out) (pipes (queue ++ later))
Robin-once over = Permᴰ.nil
Robin-once (arrives {queue = queue} {later = later} {out = out} x now next) =
    subst (λ l. Permᴰ (jobs out) (pipes l)) (append_assoc queue (x ∷ []) later) (Robin-once next)
Robin-once (idles x ahead next) = Robin-once next
Robin-once (runs x before more left next) = Robin-once next
Robin-once (expires {queue = queue} {later = later} x before more left next) =
    Permᴰ.trans (Robin-once next)
      (Permᴰ.map (λ (y : Task). y.pipe) (rotated (shorter x 1) queue later))
Robin-once (completes x before last left next) = Permᴰ.cons refl (Robin-once next)

-- Where the last arrival is by `last`, no time is lost behind it.
Robin-InTime :
    {quantum t left : ℕ} {queue later : List Task} {out : List (ℕ × ℕ)} (last end : ℕ)
    → Robin quantum t left queue later out
    → All (λ (x : Task). x.ready ≤ last) later
    → max t last + demand (queue ++ later) ≤ end
    → InTime end out
Robin-InTime last end over h room = tt
Robin-InTime last end (arrives {queue = queue} {later = later} x now next) h room =
    Robin-InTime last end next h.1
      (omega (arith, ap demand (append_assoc queue (x ∷ []) later), room))
Robin-InTime last end (idles x ahead next) h room =
    Robin-InTime last end next h (omega (arith, h.0, room))
Robin-InTime last end (runs x before more left next) h room =
    Robin-InTime last end next h (omega (arith, room))
Robin-InTime last end (expires {queue = queue} {later = later} x before more left next) h room =
    Robin-InTime last end next h
      (omega (arith, demand-perm (rotated (shorter x 1) queue later), room))
Robin-InTime last end (completes x before done left next) h room =
    (omega (arith, room), Robin-InTime last end next h (omega (arith, room)))

-- For any operating system and any `qsort`, and whatever jobs that each have something to do: RR
-- completes every job of the input, once, and the last of them no later than all the execution times
-- after the last arrival, which the clock does not pass either; or else it exits where a `fork` or
-- a `sched_setscheduler` fails.
pub rr-Complete :
    (os : Os) (q : Qsort PStruct) (input : List Line) (last : ℕ)
    → All HasTime input
    → All (ReadyBy last) input
    → Ends priority_checked os
        (λ s.
          Complete input (last + total_time input) (completions s.trace)
          × (s.cur_time ≤ last + total_time input))
        (rr os q input)
unfolding arrivals
rr-Complete os q input last h ready = Ends.mono (rr-Kept os q input h) λ s (r, latest).
    let ts = tasks (q.sort rr_cmp (read_structs 0 input)) in
    let p : Permᴰ ts (as_tasks 0 input) =
      subst (Permᴰ ts) (tasks-read_structs 0 input) (Permᴰ.map task (arrivals_perm q input)) in
    let by_last = All-perm _ (Permᴰ.symm p) (ready-as_tasks last 0 input ready) in
    let complete =
      sorted-Complete input last ts (completions s.trace) p (Robin-once r)
        (Robin-InTime last (last + demand ts) r by_last (omega arith)) in
    (complete, latest (last + total_time input) complete.in_time)
