-- ===== src/Os/Ends.antt =====
-- Total correctness of a run: it meets its postcondition, or it exits because a call has failed.
use os2016spring.Base.{ℕ, ◌≡◌, false, none}
use os2016spring.Os.{Trace, Os, Outcome, ok, exit, ◌>>=◌}

-- The calls whose failure ends a scheduler: in fifo.c, sjf.c and rr.c `fork` and
-- `sched_setscheduler`, in psjf.c `fork` and `waitpid`.
pub data Checks : Type 0 where
  priority_checked : Checks
  wait_checked : Checks

abbrev LooksAtPriority : Checks → Type 0
LooksAtPriority priority_checked = Unit
LooksAtPriority wait_checked = ⊥

abbrev LooksAtWait : Checks → Type 0
LooksAtWait priority_checked = ⊥
LooksAtWait wait_checked = Unit

pub data Ends (c : Checks) (os : Os) {A : Type 0} (P : A → Type 0) : Outcome A → Type 0 where
  ends : {a : A} → P a → Ends c os P (ok a)
  fork_failed : (t : Trace) {code : ℕ} → os.fork t ≡ none → Ends c os P (exit code t)
  priority_refused :
      LooksAtPriority c
      → (t : Trace) {code : ℕ} → os.sched_setscheduler t ≡ false
      → Ends c os P (exit code t)
  wait_failed :
      LooksAtWait c → (t : Trace) {code : ℕ} → os.waitpid t ≡ false → Ends c os P (exit code t)

module _ {c : Checks} {os : Os} {A : Type 0} {P : A → Type 0} where
  pub bind :
      {B : Type 0} {Q : B → Type 0} {r : Outcome A} {k : A → Outcome B}
      → Ends c os P r
      → ((a : A) → P a → Ends c os Q (k a))
      → Ends c os Q (r >>= k)
  bind (ends p) next = next _ p
  bind (fork_failed t e) next = fork_failed t e
  bind (priority_refused l t e) next = priority_refused l t e
  bind (wait_failed l t e) next = wait_failed l t e

  pub mono :
      {Q : A → Type 0} {r : Outcome A} → Ends c os P r → ((a : A) → P a → Q a) → Ends c os Q r
  mono (ends p) weaken = ends (weaken _ p)
  mono (fork_failed t e) weaken = fork_failed t e
  mono (priority_refused l t e) weaken = priority_refused l t e
  mono (wait_failed l t e) weaken = wait_failed l t e
