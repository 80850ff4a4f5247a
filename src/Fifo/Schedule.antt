-- ===== src/Fifo/Schedule.antt =====
-- First come, first served: what fifo.c does is the schedule that a queue in the order of arrival
-- gives.
use os2016spring.Base.{
  ℕ, ◌+◌, ◌-◌, ◌≤◌, ◌<◌, ◌≡◌, refl, sym, ap, ◌∙◌, true, List, [], ◌∷◌, ◌++◌, max, append_assoc,
  append-nil, All, arith,
}
use os2016spring.Os.{Os, completions}
use os2016spring.Os.Ends
use os2016spring.Os.Ends.{priority_checked, Ends, ends}
use os2016spring.Served.{Served}
use os2016spring.Batch.{Data, State, Line, cmp, read_file, is_left, wait_loop, loop}
use os2016spring.Task.{Task}
use os2016spring.Complete.{Latest}
use os2016spring.Batch.Invariant.{IsValid, ArrivedBy, EndsLast, task, tasks}
use os2016spring.Batch.Waiting.{Waited, wait_loop-Waited, target}
use os2016spring.Batch.Forking.{Forked, IsFresh, execute_fork-Forked, tasks-Forked}
use os2016spring.Batch.Assigning.{
  Assigned, completed, interrupted, assign-Assigned, Assigned-IsValid, Assigned-unforked,
  Assigned-EndsLast,
}
use os2016spring.Batch.Work.{
  work, work-Waited, work-Forked, work-Assigned, work-eq, gap-le-one, Forked-HasHead,
}
use os2016spring.Batch.Loop.{loop_rule, not-is_left}
use os2016spring.Batch.Input.{
  completions-print_results, Served-print_results, start-IsValid, IsFresh-input,
  length-sorted_input,
}
use os2016spring.Qsort.{Qsort}
use os2016spring.Fifo.{mark_started, round, fifo, fuel_for, start}
use os2016spring.Fifo.Marking.{Marked, mark_started-Marked}

-- Each job starts when it has arrived and the one before it is done, and runs to its end.
unfoldable pub fifo_schedule : ℕ → List Task → List (ℕ × ℕ)
fifo_schedule c [] = []
fifo_schedule c (t ∷ ts) =
    (t.pipe, max c t.ready + t.burst) ∷ fifo_schedule (max c t.ready + t.burst) ts

-- What has been completed, and what the schedule gives for the tasks that are left.
promise : State → List (ℕ × ℕ)
promise s = completions s.trace ++ fifo_schedule s.clock (tasks (s.forked ++ s.unforked))

fifo_schedule-target :
    (f u : List Data) (c : ℕ)
    → All (λ (d : Data). c ≤ d.ready_time) u
    → fifo_schedule (target f u c) (tasks (f ++ u)) ≡ fifo_schedule c (tasks (f ++ u))
unfolding fifo_schedule
fifo_schedule-target [] [] c h = refl
fifo_schedule-target [] (d ∷ u) c h =
    let e : max d.ready_time d.ready_time ≡ max c d.ready_time = omega arith in rw e
fifo_schedule-target (e ∷ f) u c h = refl

promise-Waited : (s s' : State) → IsValid s → Waited s s' → promise s' ≡ promise s
unfolding promise
promise-Waited s s' v w =
    rw (w.completed, w.forked, w.unforked, w.clock)
      (ap (◌++◌ (completions s.trace)) (fifo_schedule-target s.forked s.unforked s.clock v.pending))

promise-Forked : (s s' : State) → Forked s s' → promise s' ≡ promise s
unfolding promise
promise-Forked s s' h = rw (h.completed, h.clock, tasks-Forked s s' h)

-- The task of an arrived job in front: it ends after its burst.
pub fifo_schedule-arrived :
    (c : ℕ) (t : Task) (ts : List Task)
    → t.ready ≤ c
    → fifo_schedule c (t ∷ ts) ≡ (t.pipe, c + t.burst) ∷ fifo_schedule (c + t.burst) ts
unfolding fifo_schedule
fifo_schedule-arrived c t ts h = let e : max c t.ready ≡ c = omega arith in rw e

pub fifo_schedule-interrupted :
    (c t p r e : ℕ) (ts : List Task)
    → r ≤ c
    → t < e
    → fifo_schedule (c + t) (record { pipe = p; ready = r; burst = e - t } ∷ ts)
      ≡ fifo_schedule c (record { pipe = p; ready = r; burst = e } ∷ ts)
unfolding fifo_schedule
fifo_schedule-interrupted c t p r e ts arrived less =
    let same : max (c + t) r + (e - t) ≡ max c r + e = omega arith in rw same

promise-Marked :
    (s s' : State) (d : Data) (rest : List Data)
    → s.forked ≡ d ∷ rest
    → Marked s s' d rest
    → promise s' ≡ promise s
unfolding promise
promise-Marked s s' d rest f m = rw (m.completed, m.is_head, m.unforked, m.clock, f, m.same)

promise-Assigned :
    (s s' : State) (d : Data) (rest : List Data)
    → s.forked ≡ d ∷ rest
    → d.ready_time ≤ s.clock
    → Assigned s s' d rest
    → promise s' ≡ promise s
unfolding promise
promise-Assigned s s' d rest f arrived (completed f' u' c' done _) =
    rw (done, f', u', c', f)
      (append_assoc (completions s.trace) _ _
        ∙ ap (◌++◌ (completions s.trace))
            (sym (fifo_schedule-arrived s.clock (task d) (tasks (rest ++ s.unforked)) arrived)))
promise-Assigned s s' d rest f arrived
      (interrupted d' next later t f' same _ pos less u' u reach c' done _) =
    rw (done, f', u', c', f, same)
      (ap (◌++◌ (completions s.trace)) (
        fifo_schedule-interrupted s.clock t d.pipe d.ready_time d.execution_time
          (tasks (rest ++ s.unforked)) arrived less))

IsSound : State → Type 0
IsSound s = IsValid s × All IsFresh s.unforked × EndsLast s

Keeps : State → State → Type 0
Keeps s s' = promise s' ≡ promise s

-- The four phases of a round one after the other.
phases-Keep :
    (s s1 s2 s3 s4 : State) (d : Data) (rest : List Data)
    → IsValid s
    → Waited s s1
    → (h : Forked s1 s2) → s2.forked ≡ d ∷ rest
    → (m : Marked s2 s3 d rest) → Assigned s3 s4 m.head rest
    → IsSound s4 × Keeps s s4 × (work s4 < work s)
unfolding IsSound Keeps
phases-Keep s s1 s2 s3 s4 d rest v w h f m a =
    let (here, _) : All (ArrivedBy s3.clock) (m.head ∷ rest) = rw m.is_head at m.valid.arrived in
    let same = Assigned-unforked a ∙ m.unforked in
    (
      (Assigned-IsValid a, rw same h.still_fresh, Assigned-EndsLast a),
      promise-Assigned s3 s4 m.head rest m.is_head here a
          ∙ promise-Marked s2 s3 d rest f m
          ∙ promise-Forked s1 s2 h
          ∙ promise-Waited s s1 v w,
      omega (
        arith,
        work-Waited s s1 w,
        work-Forked s1 s2 h,
        work-eq s2 s3 (rw (m.is_head, f)) m.unforked m.clock,
        work-Assigned s3 s4 m.head rest m.is_head (rw (m.unforked, m.clock) h.strict) a,
      ),
    )

-- One round of the main loop keeps the promise and leaves less to do.
round-Keeps :
    (os : Os) (s : State)
    → IsSound s
    → is_left s.forked s.unforked ≡ true
    → Ends priority_checked os (λ s'. IsSound s' × Keeps s s' × (work s' < work s)) (round os s)
unfolding round IsSound Keeps
round-Keeps os s (v, fresh, _) left =
    let s1 = wait_loop s in
    let w = wait_loop-Waited s v in
    Ends.bind (execute_fork-Forked s1 (rw w.unforked fresh) w.valid) λ s2 h.
      let at = Forked-HasHead s s1 s2 left w h in
      let m = mark_started-Marked os s2 at.head at.rest h.valid at.is_head in
      Ends.mono
        (assign-Assigned os (mark_started os s2) m.head at.rest m.valid
          (rw (m.unforked, m.clock) h.strict) m.is_head)
        λ s4 a. phases-Keep s s1 s2 (mark_started os s2) s4 at.head at.rest v w h at.is_head m a

loop-promise :
    (os : Os) (fuel : ℕ) (s : State)
    → IsSound s
    → work s < fuel
    → Ends priority_checked os
        (λ s'.
          (completions s'.trace ≡ promise s)
          × Served s'.trace
          × Latest s'.clock (completions s'.trace))
        (loop (round os) fuel s)
unfolding IsSound promise Keeps fifo_schedule
loop-promise os fuel s sound enough =
    Ends.mono
      (loop_rule IsSound Keeps (λ s. refl) (λ s t u p q. q ∙ p) (round os) (round-Keeps os) fuel s
        enough sound)
      λ s' ((v, _, last), kept, over).
        let (f, u) = not-is_left s' over in
        let all : completions s'.trace ++ [] ≡ promise s = rw (f, u) at kept in
        (rw append-nil at all, v.accounts.served, last f)

start-IsSound :
    (q : Qsort Data) (input : List Line) → IsSound (start (q.sort cmp (read_file 0 input)))
unfolding IsSound
start-IsSound q input = (start-IsValid q input, IsFresh-input q input, λ _ bound h. omega arith)

start-work :
    (q : Qsort Data) (input : List Line)
    → work (start (q.sort cmp (read_file 0 input))) < fuel_for input
start-work q input =
    omega (arith, length-sorted_input q input, gap-le-one 0 (q.sort cmp (read_file 0 input)))

-- The whole run.
pub fifo-Kept :
    (os : Os) (q : Qsort Data) (input : List Line)
    → Ends priority_checked os
        (λ s.
          (completions s.trace ≡ fifo_schedule 0 (tasks (q.sort cmp (read_file 0 input))))
          × Served s.trace
          × Latest s.clock (completions s.trace))
        (fifo os q input)
unfolding fifo promise
fifo-Kept os q input =
    Ends.bind
      (loop-promise os (fuel_for input) (start (q.sort cmp (read_file 0 input)))
        (start-IsSound q input) (start-work q input))
      λ s (done, served, last). ends (
        rw completions-print_results done,
        Served-print_results s.finished s.trace served,
        rw completions-print_results last,
      )

-- For any operating system and any `qsort`, and whatever the input: FIFO ends. It has completed
-- every job, in the order in which `qsort` puts the arrivals, each as soon as it has arrived and
-- the one before it is done; or else it exits where a `fork` or a `sched_setscheduler` fails. It
-- never runs a job that it has not forked, nor sends a negative time slice.
pub fifo-schedule :
    (os : Os) (q : Qsort Data) (input : List Line)
    → Ends priority_checked os
        (λ s. completions s.trace ≡ fifo_schedule 0 (tasks (q.sort cmp (read_file 0 input))))
        (fifo os q input)
fifo-schedule os q input = Ends.mono (fifo-Kept os q input) λ _ (kept, _, _). kept

-- For any operating system and any `qsort`, and whatever the input: FIFO ends, and whenever it reaps
-- a job, the slices that it has written to the pipe of that job are such that the job, child.c on
-- these slices where it can lower its priority, has read them all and has ended, with the execution
-- time that it was started with burned to the unit; or else FIFO exits where a `fork` or a
-- `sched_setscheduler` fails.
pub fifo-Served :
    (os : Os) (q : Qsort Data) (input : List Line)
    → Ends priority_checked os (λ s. Served s.trace) (fifo os q input)
fifo-Served os q input = Ends.mono (fifo-Kept os q input) λ _ (_, served, _). served
