-- ===== src/Sjf/Complete.antt =====
-- Shortest-job-first completes every job once, and in time.
use mathlib.Core.List.{Permᴰ}
use mathlib.Core.List.Permᴰ
use os2016spring.Base.{ℕ, ◌+◌, ◌≤◌, refl, sym, subst, List, [], ◌∷◌, max, All, arith}
use os2016spring.Os.{Os, completions}
use os2016spring.Os.Ends
use os2016spring.Os.Ends.{priority_checked, Ends}
use os2016spring.Qsort.{Qsort, All-perm}
use os2016spring.Task.{Task}
use os2016spring.Batch.{Data, Line, read_file}
use os2016spring.Batch.Invariant.{tasks}
use os2016spring.Batch.Input.{tasks-read_file}
use os2016spring.Input.{as_tasks, total_time, ReadyBy, pipes, demand, ready-as_tasks}
use os2016spring.Complete.{jobs, jobs-nil, InTime, Complete, demand-perm, sorted-Complete}
use os2016spring.Sjf.{sjf}
use os2016spring.Sjf.Shortest.{Shortest, done, dispatch, idle}
use os2016spring.Sjf.Schedule.{sjf-Kept}

Shortest-once :
    {c : ℕ} {ts : List Task} {out : List (ℕ × ℕ)} → Shortest c ts out → Permᴰ (jobs out) (pipes ts)
Shortest-once done = Permᴰ.nil
Shortest-once (dispatch t rest p arrived least next) =
    Permᴰ.trans (Permᴰ.cons refl (Shortest-once next))
      (Permᴰ.map (λ (x : Task). x.pipe) (Permᴰ.symm p))
Shortest-once (idle le none_yet next) = Shortest-once next

-- Where the last arrival is by `last`, no time is lost behind it.
Shortest-InTime :
    {c : ℕ} {ts : List Task} {out : List (ℕ × ℕ)} (last end : ℕ)
    → Shortest c ts out
    → All (λ (x : Task). x.ready ≤ last) ts
    → max c last + demand ts ≤ end
    → InTime end out
Shortest-InTime last end done h room = tt
Shortest-InTime last end (dispatch t rest p arrived least next) h room =
    let h' = All-perm _ p h in
    let same = demand-perm p in
    (omega (arith, same, room), Shortest-InTime last end next h'.1 (omega (arith, same, room)))
Shortest-InTime last end (idle {ts = []} {out = out} le none_yet next) h room =
    subst (InTime end) (sym (jobs-nil out (Shortest-once next))) tt
Shortest-InTime last end (idle {ts = _ ∷ _} le none_yet next) h room =
    Shortest-InTime last end next h (omega (arith, none_yet.0, h.0, room))

-- For any operating system and any `qsort`, and whatever the input: SJF completes every job of the
-- input, once, and the last of them no later than all the execution times after the last arrival,
-- which the clock does not pass either; or else it exits where a `fork` or a `sched_setscheduler`
-- fails.
pub sjf-Complete :
    (os : Os) (q : Qsort Data) (input : List Line) (last : ℕ)
    → All (ReadyBy last) input
    → Ends priority_checked os
        (λ s.
          Complete input (last + total_time input) (completions s.trace)
          × (s.clock ≤ last + total_time input))
        (sjf os q input)
sjf-Complete os q input last ready = Ends.mono (sjf-Kept os q input) λ s (r, _, latest).
    let p : Permᴰ (tasks (read_file 0 input)) (as_tasks 0 input) =
      subst (Permᴰ (tasks (read_file 0 input))) (tasks-read_file 0 input) (Permᴰ.refl _) in
    let by_last = All-perm _ (Permᴰ.symm p) (ready-as_tasks last 0 input ready) in
    let complete =
      sorted-Complete input last (tasks (read_file 0 input)) (completions s.trace) p
        (Shortest-once r)
        (Shortest-InTime last (last + demand (tasks (read_file 0 input))) r by_last
          (omega arith)) in
    (complete, latest (last + total_time input) complete.in_time)
