-- ===== src/Psjf/Complete.antt =====
-- Preemptive shortest-job-first completes every job once, and in time.
use mathlib.Core.List.{Permᴰ}
use mathlib.Core.List.Permᴰ
use os2016spring.Base.{ℕ, ◌+◌, ◌≤◌, ◌<◌, refl, sym, subst, List, [], ◌∷◌, max, All, arith}
use os2016spring.Os.{Os, completions}
use os2016spring.Os.Ends
use os2016spring.Os.Ends.{wait_checked, Ends}
use os2016spring.Qsort.{Qsort, All-perm}
use os2016spring.Task.{Task}
use os2016spring.Batch.{Line}
use os2016spring.Input.{as_tasks, total_time, ReadyBy, pipes, demand, ready-as_tasks}
use os2016spring.Complete.{jobs, jobs-nil, InTime, Complete, demand-perm, sorted-Complete}
use os2016spring.Psjf.{RawInput, psjf, read_jobs}
use os2016spring.Psjf.Invariant.{tasks}
use os2016spring.Psjf.Preemptive.{Preemptive, done, slice, finish, idle}
use os2016spring.Psjf.Starting.{tasks-read_jobs}
use os2016spring.Psjf.Schedule.{psjf-Kept}

Preemptive-once :
    {c : ℕ} {ts : List Task} {out : List (ℕ × ℕ)}
    → Preemptive c ts out
    → Permᴰ (jobs out) (pipes ts)
Preemptive-once done = Permᴰ.nil
Preemptive-once (slice n t rest p arrived le least none_in next) =
    Permᴰ.trans (Preemptive-once next) (Permᴰ.map (λ (x : Task). x.pipe) (Permᴰ.symm p))
Preemptive-once (finish t rest p arrived least none_in next) =
    Permᴰ.trans (Permᴰ.cons refl (Preemptive-once next))
      (Permᴰ.map (λ (x : Task). x.pipe) (Permᴰ.symm p))
Preemptive-once (idle le none_yet next) = Preemptive-once next

-- Where the last arrival is by `last`, no time is lost behind it.
Preemptive-InTime :
    {c : ℕ} {ts : List Task} {out : List (ℕ × ℕ)} (last end : ℕ)
    → Preemptive c ts out
    → All (λ (x : Task). x.ready ≤ last) ts
    → max c last + demand ts ≤ end
    → InTime end out
Preemptive-InTime last end done h room = tt
Preemptive-InTime last end (slice n t rest p arrived le least none_in next) h room =
    let h' = All-perm _ p h in
    Preemptive-InTime last end next h' (omega (arith, demand-perm p, le, room))
Preemptive-InTime last end (finish t rest p arrived least none_in next) h room =
    let h' = All-perm _ p h in
    let same = demand-perm p in
    (omega (arith, same, room), Preemptive-InTime last end next h'.1 (omega (arith, same, room)))
Preemptive-InTime last end (idle {ts = []} {out = out} le none_yet next) h room =
    subst (InTime end) (sym (jobs-nil out (Preemptive-once next))) tt
Preemptive-InTime last end (idle {ts = _ ∷ _} le none_yet next) h room =
    Preemptive-InTime last end next h (omega (arith, none_yet.0, h.0, room))

-- For any operating system and any `qsort`: if the last arrival and the sum of the execution times
-- together stay below 2^31, then PSJF completes every job of the input, once, and the last of them
-- no later than all the execution times after the last arrival, which the clock does not pass
-- either; or else it exits where a `fork` or a `waitpid` fails.
pub psjf-Complete :
    (os : Os) (q : Qsort RawInput) (input : List Line) (last : ℕ)
    → All (ReadyBy last) input
    → last + total_time input < 2147483648
    → Ends wait_checked os
        (λ m.
          Complete input (last + total_time input) (completions m.trace)
          × (m.time_counter ≤ last + total_time input))
        (psjf os q input)
psjf-Complete os q input last ready small =
    Ends.mono (psjf-Kept os q input last ready small) λ m (r, by_end).
      let p : Permᴰ (tasks (read_jobs 0 input)) (as_tasks 0 input) =
        subst (Permᴰ (tasks (read_jobs 0 input))) (tasks-read_jobs 0 input) (Permᴰ.refl _) in
      let by_last = All-perm _ (Permᴰ.symm p) (ready-as_tasks last 0 input ready) in
      (
        sorted-Complete input last (tasks (read_jobs 0 input)) (completions m.trace) p
            (Preemptive-once r)
            (Preemptive-InTime last (last + demand (tasks (read_jobs 0 input))) r by_last
              (omega arith)),
        by_end,
      )
