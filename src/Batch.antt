-- ===== src/Batch.antt =====
-- The static functions that prj1/fifo.c and prj1/sjf.c share: reading the jobs, waiting for the
-- next arrival, forking, choosing and sending a time slice.
-- The array `scheduler` is kept cut at `Index` and at `nextforfork`: the finished jobs, the forked
-- ones and those that are still to be forked. Times are non-negative; a difference that would be
-- negative in the program is a fault.
pub mod Waiting
pub mod Forking
pub mod Assigning
pub mod Invariant
pub mod Input
pub mod Loop
pub mod Work
pub mod Results
use Prim.Native.Nat.{compare, Ordering}
use Prim.Native.String.{String}
use os2016spring.Base.{
  ℕ, zero, suc, ◌+◌, ◌-◌, Bool, true, false, Option, none, some, List, [], ◌∷◌, ◌++◌, ltb, ◌==◌,
  if◌then◌else◌,
}
use os2016spring.Os.{Event, Timespec, Trace, Os, Outcome, ok, exit, fault, out_of_fuel, ◌>>=◌}

-- `DATA`; the two ends of the pipe are named by the pipe's number, `time` by its two entries.
pub record Data : Type 0 where
  pub pid : ℕ
  pub pipe : ℕ
  pub name : String
  pub ready_time : ℕ
  pub execution_time : ℕ
  pub started_at : Timespec
  pub finished_at : Timespec
  pub flag : Bool

-- `cmp`
unfoldable pub cmp : Data → Data → Ordering
cmp a b =
    if ltb b.ready_time a.ready_time
    then Ordering.gt
    else if ltb a.ready_time b.ready_time
    then Ordering.lt
    else Ordering.eq

-- One line of the input: name, ready time, execution time.
abbrev pub Line : Type 0
Line = String × ℕ × ℕ

abbrev pub epoch : Timespec
epoch = record { tv_sec = 0; tv_nsec = 0 }

-- `readFile`; what `malloc` leaves in `pid` and `time` is written before it is read.
unfoldable pub read_file : (i : ℕ) → List Line → List Data
read_file i [] = []
read_file i ((name, r, e) ∷ input) =
    record {
      pid = 0;
      pipe = i;
      name = name;
      ready_time = r;
      execution_time = e;
      started_at = epoch;
      finished_at = epoch;
      flag = true;
    }
    ∷ read_file (suc i) input

-- The variables of the main loop. `Index` is the number of finished jobs, `nextforfork` that of
-- finished and forked ones.
pub record State : Type 0 where
  pub finished : List Data
  pub forked : List Data
  pub unforked : List Data
  pub clock : ℕ
  pub trace : Trace

-- The rounds of `waitLoop`.
unfoldable pub wait_rounds : ℕ → State → State
wait_rounds zero s = s
wait_rounds (suc k) s =
    wait_rounds k (record s { clock = s.clock + 1; trace = Event.tick ∷ s.trace })

-- `waitLoop` looks at the next job to fork only where no forked job is left.
unfoldable pub wait_for : (forked unforked : List Data) → State → State
unfolding wait_rounds
wait_for [] (d ∷ _) s = wait_rounds (d.ready_time - s.clock) s
wait_for [] [] s = s
wait_for (_ ∷ _) _ s = s

unfoldable pub wait_loop : State → State
unfolding wait_for
wait_loop s = wait_for s.forked s.unforked s

-- One round of `executeFork`, for the next job and those behind it, in the parent. The child comes to
-- `execl` of ./child, which is taken to succeed; where it does not, the child exits.
unfoldable pub fork_one : Os → Data → List Data → State → Outcome State
fork_one os d ds s = elim (os.fork s.trace) [
  | none ↦ exit 1 s.trace
  | some pid ↦ ok (record s {
    forked = s.forked ++ record d { pid = pid } ∷ [];
    unforked = ds;
    trace = Event.spawn pid d.pipe d.name d.execution_time ∷ s.trace;
  })
]

unfoldable pub execute_forks : Os → (unforked : List Data) → State → Outcome State
unfolding fork_one
execute_forks os [] s = ok s
execute_forks os (d ∷ ds) s = elim (s.clock == d.ready_time) [
  | true ↦ fork_one os d ds s >>= execute_forks os ds
  | false ↦ ok s
]

-- `executeFork`
unfoldable pub execute_fork : Os → State → Outcome State
unfolding execute_forks
execute_fork os s = execute_forks os s.unforked s

-- `decideTime`; none where the next arrival lies in the past.
unfoldable pub decide_time : (unforked : List Data) → Data → (clock : ℕ) → Option ℕ
decide_time [] d clock = some d.execution_time
decide_time (next ∷ _) d clock =
    if ltb next.ready_time clock
    then none
    else some (
        if ltb (next.ready_time - clock) d.execution_time
        then next.ready_time - clock
        else d.execution_time)

-- The rest of `assign` behind the write: the clock, the execution time, and the end of the job.
unfoldable pub charge : Os → Data → List Data → (time : ℕ) → Trace → State → State
charge os d rest time t s =
    if d.execution_time - time == 0
    then record s {
      finished =
          s.finished
          ++ record d { execution_time = d.execution_time - time; finished_at = os.gettime t } ∷ [];
      forked = rest;
      clock = s.clock + time;
      trace = Event.reap d.pipe ∷ t;
    }
    else record s {
      forked = record d { execution_time = d.execution_time - time } ∷ rest;
      clock = s.clock + time;
      trace = t;
    }

-- `assign` for the chosen slice.
unfoldable pub send_slice : Os → Data → List Data → (time : ℕ) → State → Outcome State
unfolding charge
send_slice os d rest time s =
    if os.sched_setscheduler (Event.send d.pipe time ∷ s.trace)
    then ok
        (charge os d rest time (Event.set_priority d.pid 99 ∷ Event.send d.pipe time ∷ s.trace) s)
    else exit 3 (Event.send d.pipe time ∷ s.trace)

-- `assign` for the job at `Index`.
unfoldable pub assign_to : Os → (forked : List Data) → State → Outcome State
unfolding send_slice decide_time
assign_to os [] s = fault
assign_to os (d ∷ rest) s = elim (decide_time s.unforked d s.clock) [
  | none ↦ fault
  | some time ↦ send_slice os d rest time s
]

-- `assign`
unfoldable pub assign : Os → State → Outcome State
unfolding assign_to
assign os s = assign_to os s.forked s

-- The test `Index < N` of the main loop: a job is left.
abbrev pub is_left : (forked unforked : List Data) → Bool
is_left [] [] = false
is_left [] (_ ∷ _) = true
is_left (_ ∷ _) _ = true

-- `while (Index < N)` with its body, on fuel.
unfoldable pub loop : (round : State → Outcome State) → (fuel : ℕ) → State → Outcome State
loop round zero s = out_of_fuel
loop round (suc fuel) s = elim (is_left s.forked s.unforked) [
  | true ↦ round s >>= loop round fuel
  | false ↦ ok s
]

-- The variables before the main loop.
abbrev pub start : List Data → State
start jobs = record {
  finished = [];
  forked = [];
  unforked = jobs;
  clock = 0;
  trace = Event.set_priority 0 98 ∷ [];
}

-- The `print_result` calls behind the main loop.
unfoldable pub print_results : List Data → Trace → Trace
print_results [] t = t
print_results (d ∷ ds) t =
    print_results ds (Event.print_result d.pid d.started_at d.finished_at ∷ t)
