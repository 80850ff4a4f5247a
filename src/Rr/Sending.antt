-- ===== src/Rr/Sending.antt =====
-- A slice of rr.c: what `run_job` does to the trace and to the accounts.
use os2016spring.Base.{
  ℕ, ◌+◌, ◌-◌, ◌<◌, ◌≡◌, refl, sym, ap, subst, true, false, inl, inr, List, [], ◌∷◌, ◌==◌,
  Bool-cases, if◌then◌else◌, arith,
}
use os2016spring.Os.{Event, Trace, Timespec, elapsed, completions, is_sent, Os, ok, exit}
use os2016spring.Os.Ends.{priority_checked, Ends, ends, priority_refused}
use os2016spring.Task.{Task}
use os2016spring.Child.Slices.{sum}
use os2016spring.Served.Writing.{
  self, Sends, Quiet, Quiet-refl, Quiet-start_time, Sends-none, Sends-slice, Quiet-print_result,
}
use os2016spring.Served.Accounts.{Accounts, Accounts-sent, Accounts-reaped, Accounts-Quiet}
use os2016spring.ReadyList.{PStruct}
use os2016spring.Rr.{send_job, run_job}
use os2016spring.Rr.Robin.{shorter}
use os2016spring.Rr.Invariant.{task, tasks}

-- What a slice is on the pipe: none is sent of no time.
abbrev piece : ℕ → List ℕ
piece n = if n == 0 then [] else n ∷ []

sum-piece : (n : ℕ) → sum (piece n) ≡ n
sum-piece n = elim (Bool-cases (n == 0)) [
  | inl e ↦ rw e (ground arith)
  | inr e ↦ rw e (omega arith)
]

-- A slice of `time` units has been sent.
pub record Sent (p : PStruct) (time : ℕ) (t : Trace) (r : PStruct × Trace) : Type 0 where
  pub same_task : task r.0 ≡ task p
  pub passed : elapsed r.1 ≡ elapsed t + time
  pub completed : completions r.1 ≡ completions t
  pub sends : Sends p.pipe (piece time) t r.1
  pub written : (time == 0) ≡ false → is_sent r.0.pipe r.1 ≡ true

checked :
    (os : Os) (p0 p : PStruct) (time : ℕ) (t0 t : Trace)
    → task p ≡ task p0
    → elapsed t ≡ elapsed t0
    → completions t ≡ completions t0
    → Quiet t0 t
    → (time == 0) ≡ false
    → Ends priority_checked os (Sent p0 time t0) (
        if os.sched_setscheduler (Event.send p.pipe time ∷ t)
        then ok (p, Event.set_priority p.pid 99 ∷ Event.send p.pipe time ∷ t)
        else exit 3 (Event.send p.pipe time ∷ t))
checked os p0 p time t0 t same e c quiet some_time =
    let pipes = ap (λ (x : Task). x.pipe) same in
    elim (Bool-cases (os.sched_setscheduler (Event.send p.pipe time ∷ t))) [
      | inl f ↦ rw f (
          ends (record {
            same_task = same;
            passed = omega (arith, e);
            completed = c;
            sends = rw some_time (
                subst
                  (λ q.
                    Sends q (time ∷ []) t0
                      (Event.set_priority p.pid 99 ∷ Event.send p.pipe time ∷ t))
                  pipes (Sends-slice p.pipe time p.pid 99 quiet));
            written = λ _. rw (self p.pipe) refl;
          }))
      | inr f ↦ rw f (priority_refused tt _ f)
    ]

send_job-Sent :
    (os : Os) (p : PStruct) (time : ℕ) (t : Trace)
    → (time == 0) ≡ false
    → Ends priority_checked os (Sent p time t) (send_job os p time t)
unfolding send_job
send_job-Sent os p time t some_time = elim (Bool-cases (p.remain_time == p.e_time)) [
  | inl e ↦ rw e (
      checked os p (record p { started_at = os.gettime t }) time t (Event.start_time p.pipe ∷ t)
        refl refl refl (Quiet-start_time p.pipe t) some_time)
  | inr e ↦ rw e (checked os p p time t t refl refl refl (Quiet-refl t) some_time)
]

pub run_job-Sent :
    (os : Os) (p : PStruct) (time : ℕ) (t : Trace)
    → Ends priority_checked os (Sent p time t) (run_job os p time t)
unfolding run_job
run_job-Sent os p time t = elim (Bool-cases (time == 0)) [
  | inl e ↦ rw e (
      ends (record {
        same_task = refl;
        passed = ground arith;
        completed = refl;
        sends = rw e (Sends-none p.pipe t);
        written = λ some_time. cc;
      }))
  | inr e ↦ rw e (send_job-Sent os p time t e)
]

pub completion : {a a' b b' : ℕ} → a ≡ a' → b ≡ b' → ◌≡◌ {A = ℕ × ℕ} (a, b) (a', b')
completion e f = λ i. (e i, f i)

-- The job behind a slice.
abbrev pub less_left : PStruct → ℕ → PStruct
less_left p time = record p { remain_time = p.remain_time - time }

pub task-less_left :
    (p r : PStruct) (time : ℕ) → task r ≡ task p → task (less_left r time) ≡ shorter (task p) time
task-less_left p r time e = ap (λ x. shorter x time) e

pub same_remain : (p r : PStruct) → task r ≡ task p → r.remain_time ≡ p.remain_time
same_remain p r e = ap (λ (x : Task). x.burst) e

module _ (p : PStruct) (ps u : List PStruct) (n : ℕ) (t : Trace) (r : PStruct × Trace)
    (a : Accounts t (tasks (p ∷ ps)) (tasks u)) (sent : Sent p n t r) where
  -- The job goes on.
  pub Accounts-slice : n < p.remain_time → Accounts r.1 (tasks (less_left r.0 n ∷ ps)) (tasks u)
  Accounts-slice less =
      subst (λ x. Accounts r.1 (x ∷ tasks ps) (tasks u))
        (sym (task-less_left p r.0 n sent.same_task))
        (Accounts-sent (tasks ps) (tasks u) (task p) a sent.sends (p.remain_time - n) (omega arith)
          (omega (arith, sum-piece n)))

  -- The job ends.
  pub Accounts-end :
      (from to : Timespec)
      → n ≡ p.remain_time
      → 0 < n
      → Accounts
          (Event.print_result r.0.pid from to ∷ Event.reap r.0.pipe ∷ r.1)
          (tasks ps)
          (tasks u)
  Accounts-end from to all some_time =
      let sends_some : (n == 0) ≡ false = ground arith in
      Accounts-Quiet (tasks ps) (tasks u) (Quiet-print_result r.0.pid from to _) (
        Accounts-reaped (tasks ps) (tasks u) (task p) a sent.sends r.0.pipe
          (ap (λ (x : Task). x.pipe) sent.same_task) (rw sends_some (ap (λ b. b ∷ []) all)))
