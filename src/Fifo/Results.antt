-- ===== src/Fifo/Results.antt =====
-- prj1/fifo.c: the lines that `FIFO` prints.
use os2016spring.Base.{◌≡◌, refl, inl, inr, List, [], ◌∷◌, Bool-cases}
use os2016spring.Os.{Os}
use os2016spring.Os.Ends
use os2016spring.Os.Ends.{priority_checked, Ends}
use os2016spring.Os.Returns
use os2016spring.Os.Returns.{Returns, returns, Ends-Returns, loop_keeps}
use os2016spring.Qsort.{Qsort}
use os2016spring.Results.{IsTold}
use os2016spring.Batch.{Data, Line, State, cmp, read_file, start, loop, is_left, wait_loop}
use os2016spring.Batch.Results.{
  Recorded, IsRecorded, IsLaunched, wait_loop-Recorded, execute_fork-Recorded,
}
use os2016spring.Batch.Results.Assigning.{new-IsLaunched, old-IsLaunched, assign-Recorded}
use os2016spring.Batch.Results.Printing.{start-Recorded, print_results-IsTold}
use os2016spring.Fifo.{mark_started_of, mark_started, round, fifo, fuel_for}
use os2016spring.Fifo.Schedule.{fifo-schedule}

-- The fields hold what has happened once a slice is written for the job at `Index`.
abbrev IsReady : Os → State → Type 0
IsReady os s = IsLaunched os s.finished s.forked s.unforked s.trace

module _ {os : Os} where
  mark_started_of-IsReady :
      (f : List Data) (s : State)
      → s.forked ≡ f
      → Recorded os s.finished f s.unforked s.trace
      → IsReady os (mark_started_of os f s)
  unfolding mark_started_of
  mark_started_of-IsReady [] s f r = rw f tt
  mark_started_of-IsReady (d ∷ rest) s f r = elim (Bool-cases d.flag) [
    | inr old ↦
        rw (old, mark_started_of) (rw f (old-IsLaunched s.finished rest s.unforked d s.trace old r))
    | inl new ↦
        rw (new, mark_started_of) (new-IsLaunched s.finished rest s.unforked d s.trace new r)
  ]

  round-Recorded : (s : State) → IsRecorded os s → Returns (IsRecorded os) (round os s)
  unfolding round mark_started
  round-Recorded s r =
      Returns.bind (execute_fork-Recorded (wait_loop s) (wait_loop-Recorded s r))
        λ s' r'. assign-Recorded (mark_started os s') (mark_started_of-IsReady s'.forked s' refl r')

pub fifo-Printed :
    (os : Os) (q : Qsort Data) (input : List Line)
    → Returns (λ s. IsTold os s.trace) (fifo os q input)
unfolding fifo loop
fifo-Printed os q input =
    Returns.bind
      (loop_keeps (λ (s : State). is_left s.forked s.unforked) (round os) (loop (round os))
        (λ _. refl) (λ _ _. refl) (IsRecorded os) round-Recorded (fuel_for input)
        (start (q.sort cmp (read_file 0 input))) (start-Recorded q input))
      λ s r. returns (print_results-IsTold os s r)

-- For any operating system and any `qsort`, and whatever the input: FIFO ends, and it has printed
-- one line for each job that it has reaped, in the order in which it has reaped them: the pid of
-- the one child that was started for the job, the one time that was read for its start, directly
-- before its first slice was written to its pipe, and the one time that was read where it was
-- reaped; or else FIFO exits where a `fork` or a `sched_setscheduler` fails.
pub fifo-AllReported :
    (os : Os) (q : Qsort Data) (input : List Line)
    → Ends priority_checked os (λ s. IsTold os s.trace) (fifo os q input)
fifo-AllReported os q input =
    Ends.mono (Ends-Returns (fifo-schedule os q input) (fifo-Printed os q input))
      λ _ (_, told). told
