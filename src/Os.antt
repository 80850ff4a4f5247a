-- ===== src/Os.antt =====
-- What the schedulers of prj1 ask of the operating system: the calls of fifo.c, sjf.c, psjf.c and
-- rr.c as events of a trace, the answers as a parameter, and how a run of a scheduler can end.
pub mod Ends
pub mod Fuel
pub mod Returns
use Prim.Native.String.{String}
use os2016spring.Base.{ℕ, ◌+◌, Bool, true, false, Option, List, [], ◌∷◌, ◌++◌, ◌==◌, if◌then◌else◌}

-- `struct timespec`
pub record Timespec : Type 0 where
  pub tv_sec : ℕ
  pub tv_nsec : ℕ

-- A call that a scheduler has made and gone on from. A job is named by the number of its pipe.
pub data Event : Type 0 where
  -- one round of the parent's own busy loop
  tick : Event
  -- `fork`, for the parent; the child comes to `execl` of ./child on the pipe, with the job's name and
  -- execution time, which is taken to succeed
  spawn : (pid pipe : ℕ) → String → (execution_time : ℕ) → Event
  -- `write` of a time slice to the pipe
  send : (pipe time : ℕ) → Event
  -- `sched_setscheduler(pid, SCHED_FIFO, priority)`
  set_priority : (pid priority : ℕ) → Event
  -- `gettime` into `time[0]` of the job
  start_time : (pipe : ℕ) → Event
  -- `wait`, which comes back once the child has ended, then `gettime` into `time[1]` of the job
  reap : (pipe : ℕ) → Event
  -- `print_result`
  print_result : (pid : ℕ) → Timespec → Timespec → Event

-- Newest first.
abbrev pub Trace : Type 0
Trace = List Event

-- The answers of the operating system, which may depend on all that happened so far.
pub record Os : Type 0 where
  -- the pid of the child, or none where `fork` is negative
  pub fork : Trace → Option ℕ
  -- whether `sched_setscheduler` returns 0
  pub sched_setscheduler : Trace → Bool
  -- whether `waitpid` returns a pid
  pub waitpid : Trace → Bool
  pub gettime : Trace → Timespec

-- The units of processor time that a trace burns, in the parent and in the children.
abbrev pub elapsed : Trace → ℕ
elapsed [] = 0
elapsed (Event.tick ∷ t) = elapsed t + 1
elapsed (Event.send p n ∷ t) = elapsed t + n
elapsed (_ ∷ t) = elapsed t

-- The jobs in the order in which they are reaped, each with the time at which it is.
abbrev pub completions : Trace → List (ℕ × ℕ)
completions [] = []
completions (Event.reap p ∷ t) = completions t ++ (p, elapsed t) ∷ []
completions (_ ∷ t) = completions t

-- Whether a slice has been written to the pipe.
abbrev pub is_sent : (pipe : ℕ) → Trace → Bool
is_sent p [] = false
is_sent p (Event.send q _ ∷ t) = if q == p then true else is_sent p t
is_sent p (_ ∷ t) = is_sent p t

pub data Outcome (A : Type 0) : Type 0 where
  ok : A → Outcome A
  -- `exit(code)`, after the trace
  exit : (code : ℕ) → Trace → Outcome A
  -- an unforked job would run, a negative time slice would be sent, or a dangling pointer be used
  fault : Outcome A
  -- after the trace it waits for a job that is waiting for it
  blocked : Trace → Outcome A
  out_of_fuel : Outcome A

infixl 5 ◌>>=◌
abbrev pub ◌>>=◌ : {A B : Type 0} → Outcome A → (A → Outcome B) → Outcome B
ok a >>= f = f a
exit c t >>= f = exit c t
fault >>= f = fault
blocked t >>= f = blocked t
out_of_fuel >>= f = out_of_fuel
