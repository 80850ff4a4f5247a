-- ===== src/Tests/Complete.antt =====
-- The completions of the four schedulers, on the jobs of their own tests.
use os2016spring.Base.{◌≤◌, arith}
use os2016spring.Os.{completions}
use os2016spring.Os.Ends.{priority_checked, wait_checked, Ends}
use os2016spring.Qsort.Insertion.{stable_qsort}
use os2016spring.Complete.{Complete}
use os2016spring.Fifo.{fifo}
use os2016spring.Fifo.Complete.{fifo-Complete}
use os2016spring.Sjf.{sjf}
use os2016spring.Sjf.Complete.{sjf-Complete}
use os2016spring.Psjf.{psjf}
use os2016spring.Psjf.Complete.{psjf-Complete}
use os2016spring.Rr.{rr}
use os2016spring.Rr.Complete.{rr-Complete}
use os2016spring.Tests.Psjf.{four_jobs}
use os2016spring.Tests.Rr.{three_jobs}
use os2016spring.Tests.Machine.{reliable}

rr-Complete_example :
    Ends priority_checked reliable
      (λ s. Complete three_jobs 2200 (completions s.trace) × (s.cur_time ≤ 2200))
      (rr reliable stable_qsort three_jobs)
rr-Complete_example = rr-Complete reliable stable_qsort three_jobs 100 (omega arith) (omega arith)

psjf-Complete_example :
    Ends wait_checked reliable
      (λ m. Complete four_jobs 28 (completions m.trace) × (m.time_counter ≤ 28))
      (psjf reliable stable_qsort four_jobs)
psjf-Complete_example = psjf-Complete reliable stable_qsort four_jobs 3 (omega arith) (omega arith)

sjf-Complete_example :
    Ends priority_checked reliable
      (λ s. Complete four_jobs 28 (completions s.trace) × (s.clock ≤ 28))
      (sjf reliable stable_qsort four_jobs)
sjf-Complete_example = sjf-Complete reliable stable_qsort four_jobs 3 (omega arith)

fifo-Complete_example :
    Ends priority_checked reliable
      (λ s. Complete three_jobs 2200 (completions s.trace) × (s.clock ≤ 2200))
      (fifo reliable stable_qsort three_jobs)
fifo-Complete_example = fifo-Complete reliable stable_qsort three_jobs 100 (omega arith)
