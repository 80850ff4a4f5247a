-- ===== src/Rr/Blocking.antt =====
-- A job with nothing to do in rr.c: its child is sent no slice, and RR waits for it without end.
use os2016spring.Base.{
  ℕ, zero, suc, ◌+◌, ◌-◌, ◌*◌, ◌≤◌, ◌<◌, ◌≡◌, refl, sym, subst, ap, ◌∙◌, ◌⊎◌, inl, inr, true, false,
  none, List, [], ◌∷◌, All, ◌==◌, ltb, length, Bool-cases, Option-cases, arith,
}
use os2016spring.Os.{
  Event, Trace, Os, Outcome, ok, exit, fault, blocked, out_of_fuel, ◌>>=◌, completions, is_sent,
}
use os2016spring.Qsort.{Qsort, IsSorted, All-ge, length-perm}
use os2016spring.Input.{total_time}
use os2016spring.Rr.Starting.{rr_cmp-compares, length-read_structs}
use os2016spring.Batch.{Line}
use os2016spring.ReadyList.{
  PStruct, malloc, set_next, set_last, load, store, write, add_list, process,
}
use os2016spring.Rr.Turning.{wait_for_job-completions}
use os2016spring.Rr.{
  State, rr_cmp, read_structs, start, run_job, run_out, run_alone, run, turn_of, turn, take_in,
  fork_child, arrive, idle, round, loop, fuel_for, rr, wait_for_job,
}

-- Nothing is completed, and no slice is written to the pipe.
abbrev Idles : (pipe : ℕ) → Trace → Type 0
Idles pipe t = (completions t ≡ []) × (is_sent pipe t ≡ false)

-- It waits for a job that waits for it, with nothing completed, and no slice written to the pipe of
-- the first job, or a call has failed.
abbrev pub Blocks : Os → (pipe : ℕ) → Outcome State → Type 0
Blocks os pipe (blocked t) = Idles pipe t
Blocks os pipe (exit c t) = (os.fork t ≡ none) ⊎ (os.sched_setscheduler t ≡ false)
Blocks os pipe _ = ⊥

wait_for_job-is_sent : (pipe k : ℕ) (t : Trace) → is_sent pipe (wait_for_job k t) ≡ is_sent pipe t
unfolding wait_for_job
wait_for_job-is_sent pipe zero t = refl
wait_for_job-is_sent pipe (suc k) t = wait_for_job-is_sent pipe k (Event.tick ∷ t)

bind-Blocks :
    (os : Os) (pipe : ℕ) (r : Outcome State) (k : State → Outcome State)
    → Blocks os pipe r
    → Blocks os pipe (r >>= k)
bind-Blocks os pipe (ok s) k h = absurd h
bind-Blocks os pipe (exit c t) k h = h
bind-Blocks os pipe fault k h = h
bind-Blocks os pipe (blocked t) k h = h
bind-Blocks os pipe out_of_fuel k h = h

module _ (os : Os) (p : PStruct) (empty : p.remain_time ≡ 0) where
  run_alone-Blocks :
      (job : ℕ) (s : State) → Idles p.pipe s.trace → Blocks os p.pipe (run_alone os job p s)
  unfolding run_alone run_out run_job
  run_alone-Blocks job s none_done =
      let no_quantum : ltb s.remain 0 ≡ false = ground arith in
      rw (empty, no_quantum, run_alone, run_out, run_job) (rw none_done.1 none_done)

  run-Blocks :
      (job : ℕ) (u : List PStruct) (s : State)
      → All (λ (next : PStruct). s.cur_time ≤ next.r_time) u
      → Idles p.pipe s.trace
      → Blocks os p.pipe (run os job p u s)
  unfolding run
  run-Blocks job [] s after none_done = run_alone-Blocks job s none_done
  run-Blocks job (next ∷ u) s after none_done =
      let not_late : ltb next.r_time s.cur_time ≡ false = ground arith in
      let no_time : ltb (next.r_time - s.cur_time) p.remain_time ≡ false = ground arith in
      elim (Bool-cases (ltb (next.r_time - s.cur_time) s.remain)) [
        | inl e ↦ rw (not_late, e, no_time, run) (run_alone-Blocks job s none_done)
        | inr e ↦ rw (not_late, e, run) (run_alone-Blocks job s none_done)
      ]

module _ (os : Os) (p : PStruct) (empty : p.remain_time ≡ 0) (later : List PStruct) where
  -- The variables before the main loop, but for the time and the trace.
  abbrev waiting : (c : ℕ) → Trace → State
  waiting c t = record (start (p ∷ later) t) { cur_time = c }

  -- The round in which the job arrives.
  arriving-Blocks :
      (c : ℕ) (t : Trace)
      → p.r_time ≡ c
      → All (λ (next : PStruct). c ≤ next.r_time) later
      → Idles p.pipe t
      → Blocks os p.pipe (round os (waiting c t))
  unfolding round arrive take_in fork_child turn turn_of add_list malloc set_next set_last load
      store write process
  arriving-Blocks c t now after none_done =
      let due : (p.r_time == c) ≡ true = ground arith in
      elim (Option-cases (os.fork t)) [
        | inl e ↦ rw (due, e, round, arrive, take_in, fork_child) (inl e)
        | inr (pid, e) ↦
            rw (due, e, round, arrive, take_in, fork_child)
              (run-Blocks os (record p { pid = pid }) empty 0 later _ after none_done)
      ]

  -- The round before it, where the job is waited for.
  waits :
      (t : Trace)
      → 0 < p.r_time
      → round os (waiting 0 t) ≡ ok (waiting p.r_time (wait_for_job p.r_time t))
  unfolding round arrive turn turn_of idle
  waits t ahead =
      let not_due : (p.r_time == 0) ≡ false = ground arith in
      let all_of_it : p.r_time - 0 ≡ p.r_time = omega arith in
      rw (not_due, all_of_it, round, arrive) refl

  module _ (n : ℕ) (some_job : 0 < n) where
    more : ltb 0 n ≡ true
    more = ground arith

    arrived-Blocks :
        (fuel c : ℕ) (t : Trace)
        → p.r_time ≡ c
        → All (λ (next : PStruct). c ≤ next.r_time) later
        → Idles p.pipe t
        → Blocks os p.pipe (loop os n (suc fuel) (waiting c t))
    unfolding loop
    arrived-Blocks fuel c t now after none_done =
        rw (more, loop)
          (bind-Blocks os p.pipe (round os (waiting c t)) (loop os n fuel)
            (arriving-Blocks c t now after none_done))

    loop-Blocks :
        (fuel : ℕ) (t : Trace)
        → All (λ (next : PStruct). p.r_time ≤ next.r_time) later
        → Idles p.pipe t
        → Blocks os p.pipe (loop os n (suc (suc fuel)) (waiting 0 t))
    unfolding loop
    loop-Blocks fuel t after none_done = elim (Bool-cases (p.r_time == 0)) [
      | inl now ↦
          arrived-Blocks (suc fuel) 0 t (ground arith)
            (All-ge (λ (next : PStruct). next.r_time) p later (omega arith) after) none_done
      | inr ahead ↦
          rw (more, loop)
            (subst (λ r. Blocks os p.pipe (r >>= loop os n (suc fuel)))
              (sym (waits t (ground arith)))
              (arrived-Blocks fuel p.r_time (wait_for_job p.r_time t) refl after (
                wait_for_job-completions p.r_time t ∙ none_done.0,
                wait_for_job-is_sent p.pipe p.r_time t ∙ none_done.1,
              )))
    ]

-- When the first job in the order of arrival has nothing to do, RR completes nothing and writes no
-- slice to the pipe of that job: it comes to wait for the job, of which the child waits for a slice,
-- without end, or it exits where a `fork` or a `sched_setscheduler` fails.
pub rr-Blocks :
    (os : Os) (q : Qsort PStruct) (input : List Line) (p : PStruct) (later : List PStruct)
    → q.sort rr_cmp (read_structs 0 input) ≡ p ∷ later
    → p.remain_time ≡ 0
    → Blocks os p.pipe (rr os q input)
unfolding rr
rr-Blocks os q input p later first empty = elim (Bool-cases (os.sched_setscheduler [])) [
  | inr e ↦ rw e (inr e)
  | inl e ↦ rw e (
      subst (λ ps. Blocks os p.pipe (loop os (length input) (fuel_for input) (start ps begins)))
        (sym first)
        (subst (λ fuel. Blocks os p.pipe (loop os (length input) fuel (start (p ∷ later) begins)))
          enough
          (loop-Blocks os p empty later (length input) some_job
            (total_time input + 2 * length input) begins after (refl, refl))))
]
  where
    begins : Trace
    begins = Event.set_priority 0 98 ∷ []

    enough : suc (suc (total_time input + 2 * length input)) ≡ fuel_for input
    enough = omega arith

    by_arrival : PStruct → ℕ
    by_arrival next = next.r_time

    after : All (λ (next : PStruct). p.r_time ≤ next.r_time) later
    after =
        (subst (IsSorted by_arrival) first
          (q.sorted rr_cmp by_arrival rr_cmp-compares (read_structs 0 input))).0

    some_job : 0 < length input
    some_job = omega (
      arith,
      length-perm (q.perm rr_cmp by_arrival rr_cmp-compares (read_structs 0 input)),
      length-read_structs 0 input,
      ap length first,
    )
