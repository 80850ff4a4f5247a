-- ===== src/Psjf.antt =====
-- prj1/psjf.c: preemptive shortest job first, over `unsigned int` times.
-- The array of pointers `ReadyQueue.Data` is kept cut at `Head` and at `Head + ElementCount`, each
-- pointer with the job that it points to: no two entries point to one job. `UnReadyCount` is the
-- length of the last part, `FinishedCount` that of the first one.
pub mod Preemptive
pub mod Invariant
pub mod Dispatch
pub mod Running
pub mod Arriving
pub mod Starting
pub mod Schedule
pub mod Complete
pub mod Results
use Prim.Native.Nat.{Ordering}
use Prim.Native.String.{String}
use os2016spring.Base.{
  ℕ, zero, suc, ◌+◌, ◌-◌, ◌*◌, ◌%◌, ◌^◌, Bool, true, false, Option, none, some, List, [], ◌∷◌, ◌++◌,
  length, ltb, ◌==◌, if◌then◌else◌,
}
use os2016spring.Os.{Event, Timespec, Trace, Os, Outcome, ok, exit, fault, out_of_fuel, ◌>>=◌}
use os2016spring.Qsort.{Qsort}
use os2016spring.Batch.{Line, epoch}

-- `raw_input`; the two ends of `Pipefd` are named by the pipe's number.
pub record RawInput : Type 0 where
  pub name : String
  pub ready_time : ℕ
  pub exec_time : ℕ
  pub recorded : Bool
  pub start : Timespec
  pub finish : Timespec
  pub pipe : ℕ
  pub pid : ℕ

-- `unsigned int`
abbrev pub uint_mod : ℕ
uint_mod = 2 ^ 32

unfoldable pub uint_add : ℕ → ℕ → ℕ
uint_add a b = (a + b) % uint_mod

unfoldable pub uint_sub : ℕ → ℕ → ℕ
uint_sub a b = (a + uint_mod - b) % uint_mod

-- `CompareByExecTime`
unfoldable pub compare_by_exec_time : RawInput → RawInput → Ordering
compare_by_exec_time a b =
    if ltb a.exec_time b.exec_time
    then Ordering.lt
    else if ltb b.exec_time a.exec_time
    then Ordering.gt
    else Ordering.eq

-- `CompareByReadyTime`
unfoldable pub compare_by_ready_time : RawInput → RawInput → Ordering
compare_by_ready_time a b =
    if ltb a.ready_time b.ready_time
    then Ordering.lt
    else if ltb b.ready_time a.ready_time
    then Ordering.gt
    else Ordering.eq

-- The loop that reads the jobs and makes their pipes.
unfoldable pub read_jobs : (index : ℕ) → List Line → List RawInput
read_jobs i [] = []
read_jobs i ((name, r, e) ∷ input) =
    record {
      name = name;
      ready_time = r;
      exec_time = e;
      recorded = false;
      start = epoch;
      finish = epoch;
      pipe = i;
      pid = 0;
    }
    ∷ read_jobs (suc i) input

-- `ready_queue` with the counters of the main loop.
pub record Machine : Type 0 where
  pub done : List RawInput
  pub ready : List RawInput
  pub unready : List RawInput
  pub time_counter : ℕ
  pub trace : Trace

unfoldable pub idle_ticks : ℕ → Trace → Trace
idle_ticks zero t = t
idle_ticks (suc n) t = idle_ticks n (Event.tick ∷ t)

-- `WaitForNextProcess`: its parameter is an `int`, so a wait of 2^31 or more is no wait.
unfoldable pub wait_for_next_process : ℕ → Trace → Trace
unfolding idle_ticks
wait_for_next_process n t = if ltb n (2 ^ 31) then idle_ticks n t else t

-- The branch of the main loop that waits for the next arrival.
unfoldable pub wait_for : RawInput → Machine → Machine
unfolding wait_for_next_process
wait_for next m =
    let wait_time = uint_sub next.ready_time m.time_counter in
    record m {
      time_counter = uint_add m.time_counter wait_time;
      trace = wait_for_next_process wait_time m.trace;
    }

-- The branch that forks the next job, for the parent.
unfoldable pub fork_next : Os → RawInput → List RawInput → Machine → Outcome Machine
fork_next os next later m = elim (os.fork m.trace) [
  | none ↦ exit 0 m.trace
  | some pid ↦ ok (record m {
    ready = m.ready ++ record next { pid = pid } ∷ [];
    unready = later;
    trace = Event.spawn pid next.pipe next.name next.exec_time ∷ m.trace;
  })
]

-- `ChangePriority`: the answer of the call is not looked at.
abbrev pub change_priority : (pid priority : ℕ) → Trace → Trace
change_priority pid priority t = Event.set_priority pid priority ∷ t

-- `SendToChild`: the start is recorded once.
unfoldable pub record_start : Os → RawInput → Trace → RawInput × Trace
record_start os r t =
    if r.recorded
    then (r, t)
    else (record r { start = os.gettime t; recorded = true }, Event.start_time r.pipe ∷ t)

-- `SendToChild`: the slice is written and the child raised; the running job and
-- the trace behind it. The clock is advanced by the caller.
unfoldable pub send_to_child : Os → RawInput → ℕ → Trace → RawInput × Trace
unfolding record_start
send_to_child os r this_exec_time t =
    let (r', t') = record_start os r t in
    (
      record r' { exec_time = uint_sub r'.exec_time this_exec_time },
      change_priority r'.pid 99 (Event.send r'.pipe this_exec_time ∷ t'),
    )

-- The next arrival lies before the end of the running job: it runs up to the arrival.
unfoldable pub run_until : Os → RawInput → List RawInput → (ready_time : ℕ) → Machine → Machine
unfolding send_to_child
run_until os running rest ready_time m =
    let slice = uint_sub ready_time m.time_counter in
    let (running', t) = send_to_child os running slice m.trace in
    record m { ready = running' ∷ rest; time_counter = uint_add m.time_counter slice; trace = t }

-- The running job runs to its end, and is waited for.
unfoldable pub run_out : Os → RawInput → List RawInput → Machine → Outcome Machine
unfolding send_to_child
run_out os running rest m =
    let (running', t) = send_to_child os running running.exec_time m.trace in
    let finish = os.gettime t in
    if os.waitpid t
    then ok (record m {
      done = m.done ++ record running' { finish = finish } ∷ [];
      ready = rest;
      time_counter = uint_add m.time_counter running.exec_time;
      trace = Event.print_result running'.pid running'.start finish ∷ Event.reap running'.pipe ∷ t;
    })
    else exit 0 t

-- The choice of the slice for the first job of the sorted queue.
unfoldable pub run_first : Os → (sorted unready : List RawInput) → Machine → Outcome Machine
unfolding run_until run_out
run_first os [] unready m = fault
run_first os (running ∷ rest) [] m = run_out os running rest m
run_first os (running ∷ rest) (next ∷ _) m =
    if ltb next.ready_time (uint_add m.time_counter running.exec_time)
    then ok (run_until os running rest next.ready_time m)
    else run_out os running rest m

-- The second half of the body: sort the queue and run its first job.
unfoldable pub run_shortest : Os → Qsort RawInput → Machine → Outcome Machine
unfolding run_first
run_shortest os q m = run_first os (q.sort compare_by_exec_time m.ready) m.unready m

unfoldable pub is_empty : List RawInput → Bool
is_empty [] = true
is_empty (_ ∷ _) = false

-- The first half of the body, by `UnReadyCount`.
unfoldable pub arrivals :
    Os → Qsort RawInput → (unready : List RawInput) → Machine → Outcome Machine
unfolding fork_next wait_for run_shortest is_empty
arrivals os q [] m = run_shortest os q m
arrivals os q (next ∷ later) m =
    if next.ready_time == m.time_counter
    then (fork_next os next later m >>= run_shortest os q)
    else if is_empty m.ready
    then ok (wait_for next m)
    else run_shortest os q m

-- The body of `while (FinishedCount < ProcessCount)`.
unfoldable pub round : Os → Qsort RawInput → Machine → Outcome Machine
unfolding arrivals
round os q m = arrivals os q m.unready m

-- The test `FinishedCount < ProcessCount`: a job is left.
abbrev pub is_left : (ready unready : List RawInput) → Bool
is_left [] [] = false
is_left [] (_ ∷ _) = true
is_left (_ ∷ _) _ = true

unfoldable pub loop : Os → Qsort RawInput → (fuel : ℕ) → Machine → Outcome Machine
loop os q zero m = out_of_fuel
loop os q (suc fuel) m = elim (is_left m.ready m.unready) [
  | true ↦ round os q m >>= loop os q fuel
  | false ↦ ok m
]

abbrev pub start : List RawInput → Machine
start jobs = record {
  done = [];
  ready = [];
  unready = jobs;
  time_counter = 0;
  trace = change_priority 0 98 [];
}

-- Enough fuel: a round ends a job, forks one, or brings the clock to the next arrival.
abbrev pub fuel_for : List Line → ℕ
fuel_for input = 2 * length input + 2

-- `PSJF`, with the lines behind the number of jobs as its input.
unfoldable pub psjf : Os → Qsort RawInput → List Line → Outcome Machine
unfolding round loop read_jobs compare_by_exec_time compare_by_ready_time uint_add uint_sub
psjf os q input =
    loop os q (fuel_for input) (start (q.sort compare_by_ready_time (read_jobs 0 input)))
