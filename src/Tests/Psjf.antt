-- ===== src/Tests/Psjf.antt =====
-- `PSJF` on the jobs of prj1/OS_PJ1_Test/PSJF_1.txt, in units of a thousand.
use os2016spring.Base.{◌≡◌, refl, List, [], ◌∷◌, arith}
use os2016spring.Os.{completions}
use os2016spring.Os.Ends.{wait_checked, Ends, ends}
use os2016spring.Qsort.Insertion.{stable_qsort, insertion_sort}
use os2016spring.Batch.{Line}
use os2016spring.Psjf.{psjf, read_jobs}
use os2016spring.Psjf.Preemptive.{Preemptive}
use os2016spring.Psjf.Invariant.{tasks}
use os2016spring.Psjf.Schedule.{psjf-Preemptive}
use os2016spring.Tests.Machine.{reliable}

abbrev pub four_jobs : List Line
four_jobs = ("P1", 0, 10) ∷ ("P2", 1, 7) ∷ ("P3", 2, 5) ∷ ("P4", 3, 3) ∷ []

psjf_run :
    Ends wait_checked reliable
      (λ m. completions m.trace ≡ (3, 6) ∷ (2, 10) ∷ (1, 16) ∷ (0, 25) ∷ [])
      (psjf reliable stable_qsort four_jobs)
unfolding psjf insertion_sort
psjf_run = ends refl

psjf-Preemptive_example :
    Ends wait_checked reliable
      (λ m. Preemptive 0 (tasks (read_jobs 0 four_jobs)) (completions m.trace))
      (psjf reliable stable_qsort four_jobs)
psjf-Preemptive_example =
    psjf-Preemptive reliable stable_qsort four_jobs 3 (omega arith) (omega arith)
