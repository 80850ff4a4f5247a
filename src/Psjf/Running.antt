-- ===== src/Psjf/Running.antt =====
-- The two ways to run the first job of the sorted queue of psjf.c.
use Prim.Native.Nat.{compare}
use mathlib.Core.List.{Permᴰ}
use mathlib.Core.List.Permᴰ
use os2016spring.Base.{
  ℕ, ◌+◌, ◌-◌, ◌≤◌, ◌<◌, ◌≡◌, refl, sym, ap, ◌∙◌, subst, inl, inr, List, [], ◌∷◌, ◌++◌,
  append_assoc, All, Bool-cases, length, ltb, arith,
}
use os2016spring.Os.{Os, Trace, Event, Timespec, completions, elapsed}
use os2016spring.Os.Ends.{wait_checked, Ends, ends, wait_failed}
use os2016spring.Qsort.{Qsort, IsSorted, length-perm, All-le_mono, All-ge}
use os2016spring.Served.Writing.{Quiet-print_result}
use os2016spring.Served.Accounts.{Accounts, Accounts-sent, Accounts-reaped, Accounts-Quiet}
use os2016spring.Psjf.{
  RawInput, Machine, uint_add, uint_sub, compare_by_exec_time, send_to_child, run_until, run_out,
  run_first, run_shortest,
}
use os2016spring.Psjf.Preemptive.{finish}
use os2016spring.Psjf.Invariant.{
  task, tasks, IsValid, uint_add-small, uint_sub-small, gap, due, gap_mono, gap-reached,
  gap-due_pos,
}
use os2016spring.Psjf.Dispatch.{
  Sent, send_to_child-Sent, Accounts-sorted, total-perm, perm-tasks, Ran, arrived_sorted, fits,
  least, none_in, slice_of,
}

module _ (os : Os) (last end : ℕ) (m : Machine) (v : IsValid last end m) (r : RawInput)
    (rest : List RawInput) (p : Permᴰ (r ∷ rest) m.ready)
    (order : IsSorted (λ (q : RawInput). q.exec_time) (r ∷ rest)) where
  -- The state after a slice of `n` for the first job.
  abbrev sliced : (n : ℕ) → RawInput × Trace → Machine
  sliced n (r', t) = record m { ready = r' ∷ rest; time_counter = m.time_counter + n; trace = t }

  sliced-Ran :
      (next : RawInput) (later : List RawInput) (n : ℕ) (s : RawInput × Trace)
      → m.unready ≡ next ∷ later
      → next.ready_time ≡ m.time_counter + n
      → n < r.exec_time
      → Sent r n m.trace s
      → Ran last end m (sliced n s)
  sliced-Ran next later n s un reach less sent =
      let late = rw un at v.sorted in
      let pend : All (λ (q : RawInput). m.time_counter ≤ q.ready_time) (next ∷ later) =
        rw un at v.pending in
      let (bound, _) : All (λ (q : RawInput). q.ready_time ≤ last) (next ∷ later) =
        rw un at v.latest in
      let arr = arrived_sorted os last end m v r rest p order in
      let room = fits os last end m v r rest p order in
      let sub = uint_sub-small r.exec_time n (omega arith) (omega (arith, v.small)) in
      let after : All (λ (q : RawInput). m.time_counter + n ≤ q.ready_time) (next ∷ later) =
        (omega arith, All-ge (λ (q : RawInput). q.ready_time) next later (omega arith) late.0) in
      let exec : s.0.exec_time ≡ r.exec_time - n = sent.exec_time ∙ sub in
      let same : task s.0
          ≡ record { pipe = r.pipe; ready = r.ready_time; burst = r.exec_time - n } =
        ground (arith, sent.pipe, sent.ready_time) in
      let now : gap (m.time_counter + n) m.unready ≡ 0 =
        rw un (gap-reached (m.time_counter + n) next later reach) in
      let ahead : 1 ≤ gap m.time_counter m.unready + due m.time_counter m.unready =
        rw un (gap-due_pos m.time_counter next later pend.0) in
      record {
        valid = record {
          counted = omega (arith, v.counted, sent.burnt);
          arrived = (
            omega (arith, sent.ready_time, arr.0),
            All-le_mono (λ (q : RawInput). q.ready_time) rest (omega arith) arr.1,
          );
          pending = rw un after;
          sorted = v.sorted;
          latest = v.latest;
          room = omega (arith, v.room, total-perm p);
          accounts =
              subst (λ x. Accounts s.1 (x ∷ tasks rest) (tasks m.unready)) (sym same)
                (Accounts-sent (tasks rest) (tasks m.unready) (task r)
                  (Accounts-sorted m (r ∷ rest) p v.accounts) sent.sends (r.exec_time - n)
                  (omega arith) (omega arith));
          small = v.small;
        };
        narrows = λ out (l, e, k). (
          l,
          rw sent.same at e,
          slice_of os last end m v r rest p order n l (omega arith) (rw un after) (rw same at k),
        );
        less = omega (arith, length-perm p, now, ahead);
      }

  -- `run_until` is such a slice: the words do not wrap.
  pub run_until-Ran :
      (next : RawInput) (later : List RawInput)
      → m.unready ≡ next ∷ later
      → next.ready_time < m.time_counter + r.exec_time
      → Ran last end m (run_until os r rest next.ready_time m)
  unfolding run_until
  run_until-Ran next later un less =
      let n = next.ready_time - m.time_counter in
      let pend : All (λ (q : RawInput). m.time_counter ≤ q.ready_time) (next ∷ later) =
        rw un at v.pending in
      let (bound, _) : All (λ (q : RawInput). q.ready_time ≤ last) (next ∷ later) =
        rw un at v.latest in
      let sub : uint_sub next.ready_time m.time_counter ≡ n =
        uint_sub-small next.ready_time m.time_counter pend.0 (omega (arith, v.room, v.small)) in
      let add : uint_add m.time_counter n ≡ m.time_counter + n =
        uint_add-small m.time_counter n (omega (arith, v.room, v.small, pend.0)) in
      rw (sub, add)
        (sliced-Ran next later n (send_to_child os r n m.trace) un (omega (arith, pend.0))
          (omega (arith, pend.0)) (send_to_child-Sent os r n m.trace))

  -- The state after the end of the first job.
  abbrev ended : List RawInput → List Event → RawInput × Trace → Machine
  ended finished printed (r', t) = record m {
    done = finished;
    ready = rest;
    time_counter = m.time_counter + r.exec_time;
    trace = printed ++ Event.reap r'.pipe ∷ t;
  }

  ended-Ran :
      (l : List RawInput) (a b : Timespec) (pid : ℕ) (s : RawInput × Trace)
      → All (λ (q : RawInput). m.time_counter + r.exec_time ≤ q.ready_time) m.unready
      → Sent r r.exec_time m.trace s
      → Ran last end m (ended l (Event.print_result pid a b ∷ []) s)
  ended-Ran l a b pid s past sent =
      let arr = arrived_sorted os last end m v r rest p order in
      let room = fits os last end m v r rest p order in
      let time : elapsed s.1 ≡ m.time_counter + r.exec_time =
        omega (arith, v.counted, sent.burnt) in
      record {
        valid = record {
          counted = sym time;
          arrived = All-le_mono (λ (q : RawInput). q.ready_time) rest (omega arith) arr.1;
          pending = past;
          sorted = v.sorted;
          latest = v.latest;
          room = omega (arith, v.room, total-perm p);
          accounts = Accounts-Quiet (tasks rest) (tasks m.unready) (Quiet-print_result pid a b _) (
              Accounts-reaped (tasks rest) (tasks m.unready) (task r)
                (Accounts-sorted m (r ∷ rest) p v.accounts) sent.sends s.0.pipe sent.pipe refl);
          small = v.small;
        };
        narrows = λ out (later, e, k). (
          (r.pipe, m.time_counter + r.exec_time) ∷ later,
          e
              ∙ ap (λ c. (c ++ (s.0.pipe, elapsed s.1) ∷ []) ++ later) sent.same
              ∙ append_assoc (completions m.trace) _ later
              ∙ ap (λ n. completions m.trace ++ (n, elapsed s.1) ∷ later) sent.pipe
              ∙ ap (λ n. completions m.trace ++ (r.pipe, n) ∷ later) time,
          finish (task r) (tasks (rest ++ m.unready)) (perm-tasks m.unready (Permᴰ.symm p)) arr.0
              (least os last end m v r rest p order r.exec_time (λ z. z) past)
              (none_in os last end m v r rest p order r.exec_time past) k,
        );
        less = omega (
          arith,
          length-perm p,
          gap_mono m.time_counter (m.time_counter + r.exec_time) m.unready (omega arith),
        );
      }

  -- `run_out` is such an end, or `waitpid` fails.
  pub run_out-Ran :
      All (λ (q : RawInput). m.time_counter + r.exec_time ≤ q.ready_time) m.unready
      → Ends wait_checked os (Ran last end m) (run_out os r rest m)
  unfolding run_out
  run_out-Ran past =
      let s = send_to_child os r r.exec_time m.trace in
      let room = fits os last end m v r rest p order in
      let add : uint_add m.time_counter r.exec_time ≡ m.time_counter + r.exec_time =
        uint_add-small m.time_counter r.exec_time (omega (arith, v.small)) in
      elim (Bool-cases (os.waitpid s.1)) [
        | inl reaped ↦
            rw (reaped, add)
              (ends (ended-Ran _ _ _ _ s past (send_to_child-Sent os r r.exec_time m.trace)))
        | inr failed ↦ rw failed (wait_failed tt _ failed)
      ]

  -- The choice between the two.
  run_first-Ran :
      (u : List RawInput)
      → m.unready ≡ u
      → Ends wait_checked os (Ran last end m) (run_first os (r ∷ rest) u m)
  unfolding run_first
  run_first-Ran [] un = run_out-Ran (rw un tt)
  run_first-Ran (next ∷ later) un =
      let room = fits os last end m v r rest p order in
      let late = rw un at v.sorted in
      let add : uint_add m.time_counter r.exec_time ≡ m.time_counter + r.exec_time =
        uint_add-small m.time_counter r.exec_time (omega (arith, v.small)) in
      elim (Bool-cases (ltb next.ready_time (uint_add m.time_counter r.exec_time))) [
        | inl before ↦ rw before (ends (run_until-Ran next later un (ground (arith, add))))
        | inr not_before ↦ rw not_before (
            run_out-Ran (
              rw un (
                ground (arith, add),
                All-ge (λ (q : RawInput). q.ready_time) next later (ground (arith, add)) late.0,
              )))
      ]

run_first-sorted :
    (os : Os) (last end : ℕ) (m : Machine) (v : IsValid last end m) (l : List RawInput)
    → Permᴰ l m.ready
    → IsSorted (λ (q : RawInput). q.exec_time) l
    → 0 < length m.ready
    → Ends wait_checked os (Ran last end m) (run_first os l m.unready m)
run_first-sorted os last end m v [] p order some_ready = absurd (omega (arith, length-perm p))
run_first-sorted os last end m v (r ∷ rest) p order some_ready =
    run_first-Ran os last end m v r rest p order m.unready refl

pub compare_by_exec_time-compares :
    (a b : RawInput) → compare_by_exec_time a b ≡ compare a.exec_time b.exec_time
unfolding compare_by_exec_time
compare_by_exec_time-compares a b = ground arith

-- With a forked job the second half of the body runs the shortest one.
pub run_shortest-Ran :
    (os : Os) (q : Qsort RawInput) (last end : ℕ) (m : Machine)
    → IsValid last end m
    → 0 < length m.ready
    → Ends wait_checked os (Ran last end m) (run_shortest os q m)
unfolding run_shortest
run_shortest-Ran os q last end m v some_ready =
    run_first-sorted os last end m v (q.sort compare_by_exec_time m.ready)
      (q.perm compare_by_exec_time (λ r. r.exec_time) compare_by_exec_time-compares m.ready)
      (q.sorted compare_by_exec_time (λ r. r.exec_time) compare_by_exec_time-compares m.ready)
      some_ready
