-- ===== src/Rr.antt =====
-- prj1/rr.c: round robin, with the circular list of ReadyList.
-- The part of `p_arr` from `next` on is `unforked`. Times are non-negative; a slice that would be
-- negative in the program is a fault.
pub mod Robin
pub mod Slices
pub mod Invariant
pub mod Sending
pub mod Slicing
pub mod Running
pub mod Turning
pub mod Arriving
pub mod Starting
pub mod Schedule
pub mod Complete
pub mod FirstCome
pub mod Blocking
pub mod Results
use Prim.Native.Nat.{Ordering}
use Prim.Native.String.{String}
use os2016spring.Base.{
  ℕ, zero, suc, ◌+◌, ◌-◌, ◌*◌, Bool, true, false, Option, none, some, List, [], ◌∷◌, length, ltb,
  ◌==◌, ◌&&◌, if◌then◌else◌,
}
use os2016spring.Os.{
  Event, Trace, is_sent, Os, Outcome, ok, exit, fault, blocked, out_of_fuel, ◌>>=◌,
}
use os2016spring.Qsort.{Qsort}
use os2016spring.Batch.{Line, epoch}
use os2016spring.Input.{total_time}
use os2016spring.ReadyList.{PStruct, Heap, add_list, remove_list, process, set_process, next_job}

abbrev pub time_quantum : ℕ
time_quantum = 500

-- `cmp`
unfoldable pub rr_cmp : PStruct → PStruct → Ordering
rr_cmp a b =
    if ltb a.r_time b.r_time
    then Ordering.lt
    else if ltb b.r_time a.r_time
    then Ordering.gt
    else Ordering.eq

-- The loop that reads the jobs.
unfoldable pub read_structs : (i : ℕ) → List Line → List PStruct
read_structs i [] = []
read_structs i ((name, r, e) ∷ input) =
    record {
      name = name;
      r_time = r;
      e_time = e;
      started_at = epoch;
      finished_at = epoch;
      pid = 0;
      remain_time = e;
      pipe = i;
    }
    ∷ read_structs (suc i) input

-- `fork_child`, for the parent.
unfoldable pub fork_child : Os → PStruct → Trace → Outcome (PStruct × Trace)
fork_child os p t = elim (os.fork t) [
  | none ↦ exit 1 t
  | some pid ↦ ok (record p { pid = pid }, Event.spawn pid p.pipe p.name p.e_time ∷ t)
]

-- `wait_for_job`
unfoldable pub wait_for_job : (time : ℕ) → Trace → Trace
wait_for_job zero t = t
wait_for_job (suc time) t = wait_for_job time (Event.tick ∷ t)

-- `run_job` behind its first test: the start of the job is recorded when it has not run yet.
unfoldable pub record_first : Os → PStruct → Trace → PStruct × Trace
record_first os p t =
    if p.remain_time == p.e_time
    then (record p { started_at = os.gettime t }, Event.start_time p.pipe ∷ t)
    else (p, t)

unfoldable pub send_job : Os → PStruct → (time : ℕ) → Trace → Outcome (PStruct × Trace)
unfolding record_first
send_job os p0 time t0 =
    let (p, t) = record_first os p0 t0 in
    if os.sched_setscheduler (Event.send p.pipe time ∷ t)
    then ok (p, Event.set_priority p.pid 99 ∷ Event.send p.pipe time ∷ t)
    else exit 3 (Event.send p.pipe time ∷ t)

-- `run_job`
unfoldable pub run_job : Os → PStruct → (time : ℕ) → Trace → Outcome (PStruct × Trace)
unfolding send_job
run_job os p time t = if time == 0 then ok (p, t) else send_job os p time t

-- The variables of `RR`.
pub record State : Type 0 where
  pub heap : Heap
  pub cur_job : Option ℕ
  pub unforked : List PStruct
  pub finish : ℕ
  pub cur_time : ℕ
  pub remain : ℕ
  pub trace : Trace

-- What a command on the heap yields; a dangling pointer is a fault.
abbrev pub heap_do : {A B : Type 0} → Option (A × Heap) → (A → Heap → Outcome B) → Outcome B
heap_do none k = fault
heap_do (some (a, h)) k = k a h

-- A job that arrives now is forked and put into the list.
unfoldable pub take_in : Os → PStruct → List PStruct → State → Outcome State
unfolding fork_child
take_in os p later s = fork_child os p s.trace >>= λ (p', t).
    heap_do (add_list s.cur_job p' s.heap)
      λ job h. ok (record s { heap = h; cur_job = job; unforked = later; trace = t })

unfoldable pub arrive : Os → (unforked : List PStruct) → State → Outcome State
unfolding take_in
arrive os [] s = ok s
arrive os (p ∷ later) s = if p.r_time == s.cur_time then take_in os p later s else ok s

-- No job is ready: the next arrival is waited for.
unfoldable pub idle : (unforked : List PStruct) → State → Outcome State
unfolding wait_for_job
idle [] s = fault
idle (p ∷ _) s = ok (record s {
  cur_time = p.r_time;
  remain = time_quantum;
  trace = wait_for_job (p.r_time - s.cur_time) s.trace;
})

-- The job runs up to the next arrival.
unfoldable pub run_until : Os → (job : ℕ) → PStruct → (r_time : ℕ) → State → Outcome State
unfolding run_job
run_until os job p r_time s =
    let t = r_time - s.cur_time in
    run_job os p t s.trace >>= λ (p', tr).
    heap_do (set_process job (record p' { remain_time = p'.remain_time - t }) s.heap)
      λ _ h. ok (record s { heap = h; remain = s.remain - t; cur_time = r_time; trace = tr })

-- The job uses up its quantum, and the next one is up.
unfoldable pub run_quantum : Os → (job : ℕ) → PStruct → State → Outcome State
unfolding run_job
run_quantum os job p s = run_job os p s.remain s.trace >>= λ (p', tr).
    heap_do (set_process job (record p' { remain_time = p'.remain_time - s.remain }) s.heap) λ _ h.
      heap_do (next_job job h) λ job' h'. ok (record s {
        heap = h';
        cur_job = job';
        cur_time = s.cur_time + s.remain;
        remain = time_quantum;
        trace = tr;
      })

-- The job runs to its end, and is waited for. A child of which the pipe has been written no slice does
-- not end, and no other one does, since each waits for its next slice.
unfoldable pub run_out : Os → (job : ℕ) → PStruct → State → Outcome State
unfolding run_job
run_out os job p s = run_job os p p.remain_time s.trace >>= λ (p', tr).
    if is_sent p'.pipe tr
    then (heap_do (remove_list job s.heap) λ job' h. ok (record s {
      heap = h;
      cur_job = job';
      finish = s.finish + 1;
      cur_time = s.cur_time + p'.remain_time;
      remain = time_quantum;
      trace = Event.print_result p'.pid p'.started_at (os.gettime tr) ∷ Event.reap p'.pipe ∷ tr;
    }))
    else blocked tr

unfoldable pub run_alone : Os → (job : ℕ) → PStruct → State → Outcome State
unfolding run_quantum run_out
run_alone os job p s =
    if ltb s.remain p.remain_time then run_quantum os job p s else run_out os job p s

-- A job is ready.
unfoldable pub run : Os → (job : ℕ) → PStruct → (unforked : List PStruct) → State → Outcome State
unfolding run_until run_alone
run os job p [] s = run_alone os job p s
run os job p (next ∷ _) s =
    let t = next.r_time - s.cur_time in
    if ltb next.r_time s.cur_time
    then fault
    else if ltb t s.remain && ltb t p.remain_time
    then run_until os job p next.r_time s
    else run_alone os job p s

unfoldable pub turn_of : Os → (cur_job : Option ℕ) → State → Outcome State
unfolding idle run
turn_of os none s = idle s.unforked s
turn_of os (some job) s = heap_do (process job s.heap) λ p _. run os job p s.unforked s

unfoldable pub turn : Os → State → Outcome State
unfolding turn_of
turn os s = turn_of os s.cur_job s

-- The body of `while (finish < n)`.
unfoldable pub round : Os → State → Outcome State
unfolding arrive turn
round os s = arrive os s.unforked s >>= turn os

unfoldable pub loop : Os → (n : ℕ) → (fuel : ℕ) → State → Outcome State
loop os n zero s = out_of_fuel
loop os n (suc fuel) s = elim (ltb s.finish n) [
  | true ↦ round os s >>= loop os n fuel
  | false ↦ ok s
]

-- The variables before the main loop.
abbrev pub start : List PStruct → Trace → State
start jobs t = record {
  heap = record { node = λ _. none; allocated = 0 };
  cur_job = none;
  unforked = jobs;
  finish = 0;
  cur_time = 0;
  remain = time_quantum;
  trace = t;
}

-- Enough fuel: a round ends a job, sends some time, takes a job in, or comes to the next arrival.
abbrev pub fuel_for : List Line → ℕ
fuel_for input = total_time input + 2 * length input + 2

-- `RR`, with the lines behind the number of jobs as its input.
unfoldable pub rr : Os → Qsort PStruct → List Line → Outcome State
unfolding round loop read_structs rr_cmp add_list remove_list process set_process next_job
rr os q input =
    if os.sched_setscheduler []
    then loop os (length input) (fuel_for input)
        (start (q.sort rr_cmp (read_structs 0 input)) (Event.set_priority 0 98 ∷ []))
    else exit 3 []
