-- ===== src/Batch/Assigning.antt =====
-- `assign` either ends the job at `Index` or runs it up to the next arrival.
use os2016spring.Base.{
  ℕ, ◌+◌, ◌-◌, ◌≤◌, ◌<◌, ◌≡◌, refl, sym, ap, subst, true, false, inl, inr, List, [], ◌∷◌, ◌++◌, All,
  Bool-cases, Option, some, none, ltb, ◌==◌, arith,
}
use os2016spring.Os.{Os, Event, Trace, completions, elapsed, fault}
use os2016spring.Os.Ends.{priority_checked, Ends, ends, priority_refused}
use os2016spring.Served.Writing.{Sends, Sends-slice, Quiet-refl}
use os2016spring.Served.Accounts.{Accounts, Accounts-sent, Accounts-reaped}
use os2016spring.Complete.{Latest, Latest-last}
use os2016spring.Batch.{Data, State, decide_time, charge, send_slice, assign_to, assign}
use os2016spring.Batch.Invariant.{IsValid, task, tasks, After, NotBefore, ArrivedBy, EndsLast}
use os2016spring.Qsort.{All-le_mono, All-ge}

pub data Assigned (s s' : State) (d : Data) (rest : List Data) : Type 0 where
  -- the job has run to its end
  completed :
      s'.forked ≡ rest
      → s'.unforked ≡ s.unforked
      → s'.clock ≡ s.clock + d.execution_time
      → completions s'.trace ≡ completions s.trace ++ (d.pipe, s'.clock) ∷ []
      → IsValid s'
      → Assigned s s' d rest
  -- the job has run for `t` and stands still before the next arrival
  interrupted :
      (d' next : Data) (later : List Data) (t : ℕ)
      → s'.forked ≡ d' ∷ rest
      → task d' ≡ record { pipe = d.pipe; ready = d.ready_time; burst = d.execution_time - t }
      → d'.flag ≡ d.flag
      → 0 < t
      → t < d.execution_time
      → s'.unforked ≡ s.unforked
      → s.unforked ≡ next ∷ later
      → s'.clock ≡ next.ready_time
      → s'.clock ≡ s.clock + t
      → completions s'.trace ≡ completions s.trace
      → IsValid s'
      → Assigned s s' d rest

-- What `decideTime` may answer.
data Decided (unforked : List Data) (d : Data) (clock : ℕ) : Option ℕ → Type 0 where
  whole :
      All (NotBefore (clock + d.execution_time)) unforked
      → Decided unforked d clock (some d.execution_time)
  up_to :
      (next : Data) (later : List Data) (t : ℕ)
      → unforked ≡ next ∷ later
      → next.ready_time ≡ clock + t
      → 0 < t
      → t < d.execution_time
      → Decided unforked d clock (some t)

decide_time-Decided :
    (u : List Data) (d : Data) (c : ℕ)
    → All (After c) u
    → All (NotBefore c) u
    → (order : (next : Data) (later : List Data)
        → u ≡ next ∷ later
        → All (λ (e : Data). next.ready_time ≤ e.ready_time) later)
    → Decided u d c (decide_time u d c)
unfolding decide_time
decide_time-Decided [] d c strict pend order = whole tt
decide_time-Decided (next ∷ later) d c strict pend order =
    let past : ltb next.ready_time c ≡ false = ground (arith, strict.0) in
    elim (Bool-cases (ltb (next.ready_time - c) d.execution_time)) [
      | inl cut ↦
          rw (past, cut)
            (up_to next later (next.ready_time - c) refl (omega (arith, strict.0))
              (omega (arith, strict.0)) (ground arith))
      | inr full ↦
          rw (past, full)
            (whole (
              ground (arith, strict.0),
              All-ge (λ (e : Data). e.ready_time) next later (ground (arith, strict.0))
                  (order next later refl),
            ))
    ]

-- The state after the slice `t`, with the trace `u` behind its system calls.
module _ (os : Os) (s : State) (d : Data) (rest : List Data) (v : IsValid s)
    (f : s.forked ≡ d ∷ rest) (t : ℕ) (u : Trace) (burnt : elapsed u ≡ elapsed s.trace + t)
    (same : completions u ≡ completions s.trace) (sends : Sends d.pipe (t ∷ []) s.trace u) where
  charge-IsValid :
      (s' : State)
      → s'.clock ≡ s.clock + t
      → elapsed s'.trace ≡ elapsed u
      → All (ArrivedBy (s.clock + t)) s'.forked
      → s'.unforked ≡ s.unforked
      → All (NotBefore (s.clock + t)) s.unforked
      → Accounts s'.trace (tasks s'.forked) (tasks s.unforked)
      → IsValid s'
  charge-IsValid s' c e arrived same_unforked pending accounts = record {
    counted = omega (arith, v.counted);
    arrived = rw c arrived;
    pending = rw (c, same_unforked) pending;
    sorted = rw same_unforked v.sorted;
    accounts = rw same_unforked accounts;
  }

  rest_arrived : All (ArrivedBy (s.clock + t)) (d ∷ rest)
  rest_arrived =
      let arrived : All (ArrivedBy s.clock) (d ∷ rest) = rw f at v.arrived in
      All-le_mono (λ (e : Data). e.ready_time) (d ∷ rest) (omega arith) arrived

  Accounts-head : Accounts s.trace (tasks (d ∷ rest)) (tasks s.unforked)
  Accounts-head = subst (λ l. Accounts s.trace (tasks l) (tasks s.unforked)) f v.accounts

  charge-completed :
      t ≡ d.execution_time
      → All (NotBefore (s.clock + t)) s.unforked
      → Assigned s (charge os d rest t u s) d rest
  unfolding charge
  charge-completed all pending =
      let over : (d.execution_time - t == 0) ≡ true = ground arith in
      rw over (
        completed refl refl (omega arith)
          (rw same (ap (λ c. completions s.trace ++ (d.pipe, c) ∷ []) (omega (arith, v.counted))))
          (charge-IsValid _ refl refl rest_arrived.1 refl pending (
            Accounts-reaped (tasks rest) (tasks s.unforked) (task d) Accounts-head sends d.pipe refl
              (ap (λ b. b ∷ []) all))))

  charge-interrupted :
      (next : Data) (later : List Data)
      → s.unforked ≡ next ∷ later
      → next.ready_time ≡ s.clock + t
      → 0 < t
      → t < d.execution_time
      → Assigned s (charge os d rest t u s) d rest
  unfolding charge
  charge-interrupted next later un reach pos less =
      let more : (d.execution_time - t == 0) ≡ false = ground arith in
      let order = rw un at v.sorted in
      rw more (
        interrupted _ next later t refl refl refl pos less refl un (sym reach) refl same (
          charge-IsValid _ refl refl rest_arrived refl
            (rw un
              (omega arith, All-ge (λ (e : Data). e.ready_time) next later (omega arith) order.0))
            (Accounts-sent (tasks rest) (tasks s.unforked) (task d) Accounts-head sends
              (d.execution_time - t) (omega arith) (omega arith))))

module _ (os : Os) (s : State) (d : Data) (rest : List Data) (v : IsValid s)
    (f : s.forked ≡ d ∷ rest) where
  send_slice-Assigned :
      (t : ℕ)
      → ((u : Trace)
          → elapsed u ≡ elapsed s.trace + t
          → completions u ≡ completions s.trace
          → Sends d.pipe (t ∷ []) s.trace u
          → Assigned s (charge os d rest t u s) d rest)
      → Ends priority_checked os (λ s'. Assigned s s' d rest) (send_slice os d rest t s)
  unfolding send_slice
  send_slice-Assigned t step =
      elim (Bool-cases (os.sched_setscheduler (Event.send d.pipe t ∷ s.trace))) [
        | inl granted ↦
            rw granted
              (ends (step _ refl refl (Sends-slice d.pipe t d.pid 99 (Quiet-refl s.trace))))
        | inr refused ↦ rw refused (priority_refused tt _ refused)
      ]

  -- The choice of `decideTime` decides how the job goes on.
  slice-Assigned :
      (o : Option ℕ)
      → Decided s.unforked d s.clock o
      → Ends priority_checked os
          (λ s'. Assigned s s' d rest)
          (elim o [ none ↦ fault | some t ↦ send_slice os d rest t s ])
  slice-Assigned o (whole pending) = send_slice-Assigned d.execution_time λ u burnt same sends.
      charge-completed os s d rest v f d.execution_time u burnt same sends refl pending
  slice-Assigned o (up_to next later t un reach pos less) =
      send_slice-Assigned t λ u burnt same sends.
        charge-interrupted os s d rest v f t u burnt same sends next later un reach pos less

-- With the next arrival ahead, `assign` runs the job at `Index`: it ends, or the clock stands at
-- the next arrival.
pub assign-Assigned :
    (os : Os) (s : State) (d : Data) (rest : List Data)
    → IsValid s
    → All (After s.clock) s.unforked
    → s.forked ≡ d ∷ rest
    → Ends priority_checked os (λ s'. Assigned s s' d rest) (assign os s)
unfolding assign assign_to
assign-Assigned os s d rest v strict f =
    subst (λ fs. Ends priority_checked os (λ s'. Assigned s s' d rest) (assign_to os fs s)) (sym f)
      (slice-Assigned os s d rest v f (decide_time s.unforked d s.clock) (
        decide_time-Decided s.unforked d s.clock strict v.pending
          λ next later un. let order = rw un at v.sorted in order.0))

pub Assigned-IsValid :
    {s s' : State} {d : Data} {rest : List Data} → Assigned s s' d rest → IsValid s'
Assigned-IsValid (completed _ _ _ _ v) = v
Assigned-IsValid (interrupted _ _ _ _ _ _ _ _ _ _ _ _ _ _ v) = v

pub Assigned-unforked :
    {s s' : State} {d : Data} {rest : List Data} → Assigned s s' d rest → s'.unforked ≡ s.unforked
Assigned-unforked (completed _ u _ _ _) = u
Assigned-unforked (interrupted _ _ _ _ _ _ _ _ _ u _ _ _ _ _) = u

pub Assigned-EndsLast :
    {s s' : State} {d : Data} {rest : List Data} → Assigned s s' d rest → EndsLast s'
Assigned-EndsLast {s} {s'} {d} (completed _ _ _ done _) none_left =
    subst (Latest s'.clock) (sym done) (Latest-last (completions s.trace) (d.pipe, s'.clock))
Assigned-EndsLast (interrupted _ _ _ _ f _ _ _ _ _ _ _ _ _ _) none_left = absurd (cc)
