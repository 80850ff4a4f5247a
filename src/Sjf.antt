-- ===== src/Sjf.antt =====
-- prj1/sjf.c: `SJF` and the functions that it calls.
pub mod Shortest
pub mod Choosing
pub mod Rounds
pub mod Schedule
pub mod Complete
pub mod Results
use Prim.Native.Nat.{Ordering}
use os2016spring.Base.{ℕ, Option, true, false, List, [], ◌∷◌, ltb, if◌then◌else◌}
use os2016spring.Os.{Event, Os, Outcome, ok, ◌>>=◌}
use os2016spring.Qsort.{Qsort}
use os2016spring.Batch as Batch
use os2016spring.Batch.{Line, State, loop, start, print_results}
use os2016spring.Fifo.{fuel_for}

-- The static functions of sjf.c that read as those of fifo.c, statement by statement: `assign` takes
-- any answer of `sched_setscheduler` but 0 for an error, where fifo.c takes a negative one.
abbrev pub Data : Type 0
Data = Batch.Data

abbrev pub cmp : Data → Data → Ordering
cmp = Batch.cmp

abbrev pub read_file : (i : ℕ) → List Line → List Data
read_file = Batch.read_file

abbrev pub execute_fork : Os → State → Outcome State
execute_fork = Batch.execute_fork

abbrev pub decide_time : (unforked : List Data) → Data → (clock : ℕ) → Option ℕ
decide_time = Batch.decide_time

abbrev pub wait_loop : State → State
wait_loop = Batch.wait_loop

abbrev pub assign : Os → State → Outcome State
assign = Batch.assign

-- `SJFcmp`
unfoldable pub sjf_cmp : Data → Data → Ordering
sjf_cmp a b =
    if ltb b.execution_time a.execution_time
    then Ordering.gt
    else if ltb a.execution_time b.execution_time
    then Ordering.lt
    else Ordering.eq

-- The job that is now at `Index` starts.
unfoldable pub mark_first : Os → (forked : List Data) → State → State
mark_first os [] s = s
mark_first os (d ∷ rest) s = record s {
  forked = record d { started_at = os.gettime s.trace; flag = false } ∷ rest;
  trace = Event.start_time d.pipe ∷ s.trace;
}

-- A new job is chosen among all that are forked, or the one at `Index` goes on and those behind it
-- are sorted.
unfoldable pub choose_of : Os → Qsort Data → (forked : List Data) → State → State
unfolding mark_first
choose_of os q [] s = s
choose_of os q (d ∷ rest) s =
    if d.flag
    then mark_first os (q.sort sjf_cmp (d ∷ rest)) s
    else record s { forked = d ∷ q.sort sjf_cmp rest }

unfoldable pub choose : Os → Qsort Data → State → State
unfolding choose_of
choose os q s = choose_of os q s.forked s

-- The body of `while (Index < N)`.
unfoldable pub round : Os → Qsort Data → State → Outcome State
unfolding Batch.wait_loop Batch.execute_fork choose Batch.assign
round os q s = execute_fork os (wait_loop s) >>= λ s'. assign os (choose os q s')

-- `SJF`, with the lines behind the number of jobs as its input.
unfoldable pub sjf : Os → Qsort Data → List Line → Outcome State
unfolding round loop Batch.read_file Batch.cmp sjf_cmp print_results
sjf os q input = do
  s ← loop (round os q) (fuel_for input) (start (q.sort cmp (read_file 0 input)))
  ok (record s { trace = print_results s.finished s.trace })
