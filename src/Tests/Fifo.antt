-- ===== src/Tests/Fifo.antt =====
-- `FIFO` on three jobs: the second arrives while the first one runs, the third after a pause.
use os2016spring.Base.{◌≡◌, refl, List, [], ◌∷◌}
use os2016spring.Os.{completions, exit, Event}
use os2016spring.Os.Ends.{priority_checked, Ends, ends}
use os2016spring.Qsort.Insertion.{stable_qsort, insertion_sort}
use os2016spring.Batch.{Line, cmp, read_file}
use os2016spring.Batch.Invariant.{tasks}
use os2016spring.Fifo.{fifo}
use os2016spring.Fifo.Schedule.{fifo_schedule, fifo-schedule}
use os2016spring.Tests.Machine.{reliable, exhausted}

abbrev three_jobs : List Line
three_jobs = ("P2", 2, 3) ∷ ("P1", 0, 4) ∷ ("P3", 10, 1) ∷ []

fifo_run :
    Ends priority_checked reliable
      (λ s. completions s.trace ≡ (1, 4) ∷ (0, 7) ∷ (2, 11) ∷ [])
      (fifo reliable stable_qsort three_jobs)
unfolding fifo insertion_sort
fifo_run = ends refl

fifo_without_processes :
    fifo exhausted stable_qsort three_jobs ≡ exit 1 (Event.set_priority 0 98 ∷ [])
unfolding fifo insertion_sort
fifo_without_processes = refl

fifo-schedule_example :
    Ends priority_checked reliable
      (λ s.
        completions s.trace
        ≡ fifo_schedule 0 (tasks (stable_qsort.sort cmp (read_file 0 three_jobs))))
      (fifo reliable stable_qsort three_jobs)
fifo-schedule_example = fifo-schedule reliable stable_qsort three_jobs
