-- ===== src/Psjf/Schedule.antt =====
-- What psjf.c does is a schedule that preemptive shortest-job-first allows.
use mathlib.Core.List.Permᴰ
use os2016spring.Base.{
  ℕ, zero, suc, ◌+◌, ◌≤◌, ◌<◌, ◌≡◌, refl, sym, subst, true, false, inl, inr, List, [], ◌∷◌, ◌++◌,
  append-nil, All, Bool-cases, Option-cases, length, ◌==◌, arith,
}
use os2016spring.Os.{Os, completions}
use os2016spring.Os.Ends
use os2016spring.Os.Ends.{wait_checked, Ends, ends, fork_failed}
use os2016spring.Qsort.{Qsort}
use os2016spring.Batch.{Line}
use os2016spring.Served.{Served}
use os2016spring.Input.{ReadyBy, total_time}
use os2016spring.Psjf.{
  RawInput, Machine, fork_next, is_empty, arrivals, round, is_left, loop, start, fuel_for, psjf,
  compare_by_ready_time, read_jobs,
}
use os2016spring.Psjf.Preemptive.{Preemptive, done, Preemptive-perm}
use os2016spring.Psjf.Invariant.{task, tasks, IsValid, due, work}
use os2016spring.Psjf.Dispatch.{Continues, Narrows, Ran}
use os2016spring.Psjf.Running.{run_shortest-Ran}
use os2016spring.Psjf.Arriving.{
  Went, wait_for-waited, waited-Went, not_due, forked, forked-IsValid, forked-Narrows, forked-work,
  forked-some, pend, bounds,
}
use os2016spring.Psjf.Starting.{sorted_perm, start-IsValid, start-work}

-- Where no arrival is due, running the shortest job is a round.
Ran-Went :
    (last end : ℕ) (m m' : Machine)
    → due m.time_counter m.unready ≡ 0
    → Ran last end m m'
    → Went last end m m'
Ran-Went last end m m' none_due r = record {
  valid = r.valid;
  narrows = r.narrows;
  less = omega (arith, none_due, r.less);
}

-- Behind a fork it is a round too.
forked-Went :
    (last end : ℕ) (m : Machine) (v : IsValid last end m) (next : RawInput) (later : List RawInput)
    (un : m.unready ≡ next ∷ later) (p : ℕ) (m' : Machine)
    → (next.ready_time == m.time_counter) ≡ true
    → Ran last end (forked last end m v next later un p) m'
    → Went last end m m'
forked-Went last end m v next later un p m' hit r = record {
  valid = r.valid;
  narrows = λ out k. forked-Narrows last end m v next later un p out (r.narrows out k);
  less = omega (arith, forked-work last end m v next later un p hit, r.less);
}

is_empty-nil : (rs : List RawInput) → is_empty rs ≡ true → rs ≡ []
unfolding is_empty
is_empty-nil [] e = refl
is_empty-nil (r ∷ rs) e = absurd (cc)

not-is_empty : (rs : List RawInput) → is_empty rs ≡ false → 0 < length rs
unfolding is_empty
not-is_empty [] e = absurd (cc)
not-is_empty (r ∷ rs) e = omega arith

left-some : (rs : List RawInput) → is_left rs [] ≡ true → 0 < length rs
left-some [] e = absurd (cc)
left-some (r ∷ rs) e = omega arith

module _ (os : Os) (q : Qsort RawInput) (last end : ℕ) where
  arrivals-Went :
      (u : List RawInput) (m : Machine)
      → IsValid last end m
      → m.unready ≡ u
      → is_left m.ready u ≡ true
      → Ends wait_checked os (Went last end m) (arrivals os q u m)
  unfolding arrivals forked
  arrivals-Went [] m v un left =
      Ends.mono (run_shortest-Ran os q last end m v (left-some m.ready left))
        λ m' r. Ran-Went last end m m' (rw un refl) r
  arrivals-Went (next ∷ later) m v un left = elim (Bool-cases (next.ready_time == m.time_counter)) [
    | inl hit ↦ elim (Option-cases (os.fork m.trace)) [
      | inl e ↦ rw (hit, arrivals, e, fork_next) (fork_failed m.trace e)
      | inr (p, e) ↦
          rw (hit, arrivals, e, fork_next)
            (Ends.mono
              (run_shortest-Ran os q last end (forked last end m v next later un p)
                (forked-IsValid last end m v next later un p hit)
                (forked-some last end m v next later un p))
              λ m' r. forked-Went last end m v next later un p m' hit r)
    ]
    | inr miss ↦ elim (Bool-cases (is_empty m.ready)) [
      | inl none_ready ↦
          let (first, _) = pend last end m v next later un in
          let (bound, _) = bounds last end m v next later un in
          rw (miss, none_ready)
            (ends (
              subst (Went last end m)
                (sym (wait_for-waited next m first (omega (arith, v.room, v.small))))
                (waited-Went last end m v next later un (is_empty-nil m.ready none_ready) miss)))
      | inr some_ready ↦
          rw (miss, some_ready)
            (Ends.mono (run_shortest-Ran os q last end m v (not-is_empty m.ready some_ready))
              λ m' r. Ran-Went last end m m' (not_due last end m v next later un miss) r)
    ]
  ]

  round-Went :
      (m : Machine)
      → IsValid last end m
      → is_left m.ready m.unready ≡ true
      → Ends wait_checked os (Went last end m) (round os q m)
  unfolding round
  round-Went m v left = arrivals-Went m.unready m v refl left

  -- With more fuel than work the loop ends, and every completion was allowed at its start.
  loop-Narrows :
      (fuel : ℕ) (m : Machine)
      → work m < fuel
      → IsValid last end m
      → Ends wait_checked os
          (λ m'.
            Narrows m m'
            × (is_left m'.ready m'.unready ≡ false)
            × Served m'.trace
            × (m'.time_counter ≤ end))
          (loop os q fuel m)
  unfolding loop
  loop-Narrows zero m h v = absurd (omega arith)
  loop-Narrows (suc fuel) m h v = elim (Bool-cases (is_left m.ready m.unready)) [
    | inr over ↦ rw (over, loop) (ends (λ out k. k, over, v.accounts.served, omega (arith, v.room)))
    | inl left ↦
        rw (left, loop)
          (Ends.bind (round-Went m v left) λ m1 w.
            Ends.mono (loop-Narrows fuel m1 (omega (arith, w.less)) w.valid)
              λ m2 (n, over, served, by_end).
                (λ out k. w.narrows out (n out k), over, served, by_end))
  ]

ended_nil : (rs u : List RawInput) → is_left rs u ≡ false → (rs ≡ []) × (u ≡ [])
ended_nil [] [] e = (refl, refl)
ended_nil [] (_ ∷ _) e = absurd (cc)
ended_nil (_ ∷ _) u e = absurd (cc)

-- At the end nothing more can follow.
ended-Continues :
    (m : Machine) → is_left m.ready m.unready ≡ false → Continues m (completions m.trace)
ended-Continues m over =
    let (f, u) = ended_nil m.ready m.unready over in
    (
      [],
      sym (append-nil _),
      subst (λ rs. Preemptive m.time_counter (tasks (rs ++ m.unready)) []) (sym f)
          (subst (λ us. Preemptive m.time_counter (tasks us) []) (sym u) done),
    )

-- The whole run.
module _ (os : Os) (q : Qsort RawInput) (input : List Line) (last : ℕ)
    (h : All (ReadyBy last) input) (small : last + total_time input < 2147483648) where
  psjf-Narrows :
      Ends wait_checked os
        (λ m.
          Narrows (start (q.sort compare_by_ready_time (read_jobs 0 input))) m
          × (is_left m.ready m.unready ≡ false)
          × Served m.trace
          × (m.time_counter ≤ last + total_time input))
        (psjf os q input)
  unfolding psjf
  psjf-Narrows =
      loop-Narrows os q last (last + total_time input) (fuel_for input)
        (start (q.sort compare_by_ready_time (read_jobs 0 input))) (start-work q input)
        (start-IsValid q input last h small)

-- The completions and the time behind the last of them.
pub psjf-Kept :
    (os : Os) (q : Qsort RawInput) (input : List Line) (last : ℕ)
    → All (ReadyBy last) input
    → last + total_time input < 2147483648
    → Ends wait_checked os
        (λ m.
          Preemptive 0 (tasks (read_jobs 0 input)) (completions m.trace)
          × (m.time_counter ≤ last + total_time input))
        (psjf os q input)
psjf-Kept os q input last h small =
    Ends.mono (psjf-Narrows os q input last h small) λ m (narrows, over, _, by_end).
      let (later, e, k) = narrows (completions m.trace) (ended-Continues m over) in
      (rw e (Preemptive-perm (Permᴰ.symm (Permᴰ.map task (sorted_perm q input))) k), by_end)

-- For any operating system and any `qsort`: if the last arrival and the sum of the execution times
-- together stay below 2^31, then PSJF ends. The jobs that it has completed, and the times at which
-- it has, are a schedule that preemptive shortest-job-first allows for the jobs of the input; or
-- else it exits where a `fork` or a `waitpid` fails.
pub psjf-Preemptive :
    (os : Os) (q : Qsort RawInput) (input : List Line) (last : ℕ)
    → All (ReadyBy last) input
    → last + total_time input < 2147483648
    → Ends wait_checked os
        (λ m. Preemptive 0 (tasks (read_jobs 0 input)) (completions m.trace))
        (psjf os q input)
psjf-Preemptive os q input last h small =
    Ends.mono (psjf-Kept os q input last h small) λ m (k, _). k

-- For any operating system and any `qsort`: if the last arrival and the sum of the execution times
-- together stay below 2^31, then PSJF ends, and whenever it reaps a job, the slices that it has
-- written to the pipe of that job are such that the job, child.c on these slices where it can lower
-- its priority, has read them all and has ended, with the execution time that it was started with
-- burned to the unit; or else PSJF exits where a `fork` or a `waitpid` fails.
pub psjf-Served :
    (os : Os) (q : Qsort RawInput) (input : List Line) (last : ℕ)
    → All (ReadyBy last) input
    → last + total_time input < 2147483648
    → Ends wait_checked os (λ m. Served m.trace) (psjf os q input)
psjf-Served os q input last h small =
    Ends.mono (psjf-Narrows os q input last h small) λ _ (_, _, served, _). served
