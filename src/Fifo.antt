-- ===== src/Fifo.antt =====
-- prj1/fifo.c: the main loop of `FIFO`.
pub mod Marking
pub mod Schedule
pub mod Complete
pub mod Results
use Prim.Native.Nat.{Ordering}
use os2016spring.Base.{
  ℕ, zero, suc, ◌+◌, ◌*◌, Bool, true, false, List, [], ◌∷◌, length, if◌then◌else◌,
}
use os2016spring.Os.{Event, Trace, Os, Outcome, ok, fault, out_of_fuel, ◌>>=◌}
use os2016spring.Qsort.{Qsort}
use os2016spring.Batch.{
  Data, Line, cmp, read_file, State, wait_loop, execute_fork, assign, loop, start, print_results,
}

-- The first time that a job is at `Index`, its start is recorded.
unfoldable pub mark_started_of : Os → (forked : List Data) → State → State
mark_started_of os [] s = s
mark_started_of os (d ∷ rest) s =
    if d.flag
    then record s {
      forked = record d { started_at = os.gettime s.trace; flag = false } ∷ rest;
      trace = Event.start_time d.pipe ∷ s.trace;
    }
    else s

unfoldable pub mark_started : Os → State → State
unfolding mark_started_of
mark_started os s = mark_started_of os s.forked s

-- The body of `while (Index < N)`.
unfoldable pub round : Os → State → Outcome State
unfolding wait_loop execute_fork mark_started assign
round os s = execute_fork os (wait_loop s) >>= λ s'. assign os (mark_started os s')

-- Enough fuel: a round ends a job or brings the clock to the next arrival.
abbrev pub fuel_for : List Line → ℕ
fuel_for input = 2 * length input + 2

-- `FIFO`, with the lines behind the number of jobs as its input. It returns the final state, the
-- results printed.
unfoldable pub fifo : Os → Qsort Data → List Line → Outcome State
unfolding round loop read_file cmp print_results
fifo os q input = do
  s ← loop (round os) (fuel_for input) (start (q.sort cmp (read_file 0 input)))
  ok (record s { trace = print_results s.finished s.trace })
