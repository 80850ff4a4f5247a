-- ===== src/Tests/Sjf.antt =====
-- `SJF` on the jobs of prj1/OS_PJ1_Test/SJF_1.txt, in units of a thousand.
use os2016spring.Base.{◌≡◌, refl, List, [], ◌∷◌}
use os2016spring.Os.{completions}
use os2016spring.Os.Ends.{priority_checked, Ends, ends}
use os2016spring.Qsort.Insertion.{stable_qsort, insertion_sort}
use os2016spring.Batch.{Line, read_file}
use os2016spring.Batch.Invariant.{tasks}
use os2016spring.Sjf.{sjf}
use os2016spring.Sjf.Shortest.{Shortest}
use os2016spring.Sjf.Schedule.{sjf-Shortest}
use os2016spring.Tests.Machine.{reliable}

abbrev four_jobs : List Line
four_jobs = ("P1", 0, 7) ∷ ("P2", 0, 2) ∷ ("P3", 1, 1) ∷ ("P4", 2, 4) ∷ []

sjf_run :
    Ends priority_checked reliable
      (λ s. completions s.trace ≡ (1, 2) ∷ (2, 3) ∷ (3, 7) ∷ (0, 14) ∷ [])
      (sjf reliable stable_qsort four_jobs)
unfolding sjf insertion_sort
sjf_run = ends refl

sjf-Shortest_example :
    Ends priority_checked reliable
      (λ s. Shortest 0 (tasks (read_file 0 four_jobs)) (completions s.trace))
      (sjf reliable stable_qsort four_jobs)
sjf-Shortest_example = sjf-Shortest reliable stable_qsort four_jobs
