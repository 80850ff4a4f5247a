-- ===== src/Psjf/Arriving.antt =====
-- The first half of the main loop's body of psjf.c: waiting for the next arrival, and forking it.
use os2016spring.Base.{
  ℕ, zero, suc, ◌+◌, ◌-◌, ◌≤◌, ◌<◌, ◌≡◌, refl, sym, ap, ◌∙◌, subst, true, false, List, [], ◌∷◌,
  ◌++◌, append_assoc, All, All-append, length, length-append, ltb, ◌==◌, arith,
}
use os2016spring.Os.{Trace, Event, completions, elapsed}
use os2016spring.Qsort.{IsSorted}
use os2016spring.Task.{Task}
use os2016spring.Served.Writing.{Quiet-tick}
use os2016spring.Served.Accounts.{Accounts, Accounts-spawn, Accounts-Quiet}
use os2016spring.Psjf.{
  RawInput, Machine, uint_add, uint_sub, idle_ticks, wait_for_next_process, wait_for,
}
use os2016spring.Psjf.Preemptive.{idle}
use os2016spring.Psjf.Invariant.{
  task, tasks, tasks-append, total, total-append, IsValid, uint_add-small, uint_sub-small, gap, due,
  gap-due, gap-reached, gap-due_pos, work,
}
use os2016spring.Psjf.Dispatch.{Narrows}

elapsed-idle_ticks : (n : ℕ) (t : Trace) → elapsed (idle_ticks n t) ≡ elapsed t + n
unfolding idle_ticks
elapsed-idle_ticks zero t = omega arith
elapsed-idle_ticks (suc n) t = omega (arith, elapsed-idle_ticks n (Event.tick ∷ t))

completions-idle_ticks : (n : ℕ) (t : Trace) → completions (idle_ticks n t) ≡ completions t
unfolding idle_ticks
completions-idle_ticks zero t = refl
completions-idle_ticks (suc n) t = completions-idle_ticks n (Event.tick ∷ t)

idle_ticks-Accounts :
    (n : ℕ) (t : Trace) (queue waiting : List Task)
    → Accounts t queue waiting
    → Accounts (idle_ticks n t) queue waiting
unfolding idle_ticks
idle_ticks-Accounts zero t queue waiting a = a
idle_ticks-Accounts (suc n) t queue waiting a =
    idle_ticks-Accounts n (Event.tick ∷ t) queue waiting
      (Accounts-Quiet queue waiting (Quiet-tick t) a)

-- A round keeps the state valid, allows no completion that was not allowed, and leaves less to do.
pub record Went (last end : ℕ) (m m' : Machine) : Type 0 where
  pub valid : IsValid last end m'
  pub narrows : Narrows m m'
  pub less : work m' < work m

-- A wait of less than 2^31 rounds.
unfoldable pub waited : RawInput → Machine → Machine
waited next m = record m {
  time_counter = next.ready_time;
  trace = idle_ticks (next.ready_time - m.time_counter) m.trace;
}

pub wait_for-waited :
    (next : RawInput) (m : Machine)
    → m.time_counter ≤ next.ready_time
    → next.ready_time < 2147483648
    → wait_for next m ≡ waited next m
unfolding wait_for wait_for_next_process waited
wait_for-waited next m le small =
    let n = next.ready_time - m.time_counter in
    let sub : uint_sub next.ready_time m.time_counter ≡ n =
      uint_sub-small next.ready_time m.time_counter le (omega arith) in
    let add : uint_add m.time_counter n ≡ next.ready_time =
      uint_add-small m.time_counter n (omega arith) ∙ omega arith in
    let short : ltb n 2147483648 ≡ true = ground arith in rw (sub, add, short)

ready_after :
    (c : ℕ) (rs : List RawInput)
    → All (λ (r : RawInput). c ≤ r.ready_time) rs
    → All (λ (t : Task). c ≤ t.ready) (tasks rs)
ready_after c [] h = tt
ready_after c (r ∷ rs) h = (h.0, ready_after c rs h.1)

module _ (last end : ℕ) (m : Machine) (v : IsValid last end m) (next : RawInput)
    (later : List RawInput) (un : m.unready ≡ next ∷ later) where
  pub pend : All (λ (q : RawInput). m.time_counter ≤ q.ready_time) (next ∷ later)
  pend = rw un at v.pending

  pub bounds : All (λ (q : RawInput). q.ready_time ≤ last) (next ∷ later)
  bounds = rw un at v.latest

  order : IsSorted (λ (q : RawInput). q.ready_time) (next ∷ later)
  order = rw un at v.sorted

  from_next : All (λ (q : RawInput). next.ready_time ≤ q.ready_time) (next ∷ later)
  from_next = (omega arith, order.0)

  pub not_due : (next.ready_time == m.time_counter) ≡ false → due m.time_counter m.unready ≡ 0
  not_due miss = rw un (ground arith)

  pub waited-Went :
      m.ready ≡ [] → (next.ready_time == m.time_counter) ≡ false → Went last end m (waited next m)
  unfolding waited
  waited-Went none_ready miss =
      let now : gap next.ready_time m.unready ≡ 0 =
        rw un (gap-reached next.ready_time next later refl) in
      let ahead : 1 ≤ gap m.time_counter m.unready + due m.time_counter m.unready =
        rw un (gap-due_pos m.time_counter next later pend.0) in
      record {
        valid = record {
          counted = omega (
            arith,
            v.counted,
            pend.0,
            elapsed-idle_ticks (next.ready_time - m.time_counter) m.trace,
          );
          arrived = rw none_ready tt;
          pending = rw un from_next;
          sorted = v.sorted;
          latest = v.latest;
          room = omega (arith, v.room, pend.0, bounds.0);
          accounts =
              idle_ticks-Accounts (next.ready_time - m.time_counter) m.trace (tasks m.ready)
                (tasks m.unready) v.accounts;
          small = v.small;
        };
        narrows = λ out (l, e, k). (
          l,
          rw (completions-idle_ticks (next.ready_time - m.time_counter) m.trace) at e,
          idle pend.0 (rw (none_ready, un) (ready_after next.ready_time (next ∷ later) from_next))
              k,
        );
        less = omega (arith, now, ahead, not_due miss);
      }

  -- The state after the fork of the next job.
  unfoldable pub forked : ℕ → Machine
  forked p = record m {
    ready = m.ready ++ record next { pid = p } ∷ [];
    unready = later;
    trace = Event.spawn p next.pipe next.name next.exec_time ∷ m.trace;
  }

  pub forked-IsValid :
      (p : ℕ) → (next.ready_time == m.time_counter) ≡ true → IsValid last end (forked p)
  unfolding forked
  forked-IsValid p hit =
      let t = Event.spawn p next.pipe next.name next.exec_time ∷ m.trace in
      let sum : next.exec_time + total later ≡ total m.unready = ap total (sym un) in
      record {
        counted = v.counted;
        arrived = All-append _ m.ready _ v.arrived (ground arith, tt);
        pending = pend.1;
        sorted = order.1;
        latest = bounds.1;
        room = omega (arith, v.room, total-append m.ready (record next { pid = p } ∷ []), sum);
        accounts =
            subst (λ q. Accounts t q (tasks later))
              (sym (tasks-append m.ready (record next { pid = p } ∷ [])))
              (Accounts-spawn m.trace (tasks m.ready) (tasks later) p next.name (task next)
                (subst (λ u. Accounts m.trace (tasks m.ready) (tasks u)) un v.accounts));
        small = v.small;
      }

  forked-tasks : (p : ℕ) → tasks ((forked p).ready ++ later) ≡ tasks (m.ready ++ m.unready)
  unfolding forked
  forked-tasks p =
      ap tasks (append_assoc m.ready _ later)
      ∙ tasks-append m.ready (record next { pid = p } ∷ later)
      ∙ sym (tasks-append m.ready (next ∷ later))
      ∙ ap (λ u. tasks (m.ready ++ u)) (sym un)

  pub forked-Narrows : (p : ℕ) → Narrows m (forked p)
  unfolding forked
  forked-Narrows p out (l, e, k) = (l, e, rw (forked-tasks p) at k)

  pub forked-work :
      (p : ℕ)
      → (next.ready_time == m.time_counter) ≡ true
      → work (forked p) + due (forked p).time_counter (forked p).unready ≤ work m
  unfolding forked
  forked-work p hit =
      let now : gap m.time_counter m.unready ≡ 0 =
        rw un (gap-reached m.time_counter next later (ground arith)) in
      let len : length m.unready ≡ suc (length later) = rw un refl in
      omega (
        arith,
        gap-due m.time_counter later,
        now,
        len,
        length-append m.ready (record next { pid = p } ∷ []),
      )

  pub forked-some : (p : ℕ) → 0 < length (forked p).ready
  unfolding forked
  forked-some p = omega (arith, length-append m.ready (record next { pid = p } ∷ []))
