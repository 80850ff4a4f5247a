-- ===== src/Tests/Served.antt =====
-- The four schedulers together with their jobs, on the jobs of their own tests.
use os2016spring.Base.{◌≡◌, refl, [], ◌∷◌, arith}
use os2016spring.Os.{Event, Trace}
use os2016spring.Os.Ends.{priority_checked, wait_checked, Ends}
use os2016spring.Qsort.Insertion.{stable_qsort}
use os2016spring.Served.{slices, Served}
use os2016spring.Fifo.{fifo}
use os2016spring.Fifo.Schedule.{fifo-Served}
use os2016spring.Sjf.{sjf}
use os2016spring.Sjf.Schedule.{sjf-Served}
use os2016spring.Psjf.{psjf}
use os2016spring.Psjf.Schedule.{psjf-Served}
use os2016spring.Rr.{rr}
use os2016spring.Rr.Schedule.{rr-Served}
use os2016spring.Tests.Psjf.{four_jobs}
use os2016spring.Tests.Rr.{three_jobs}
use os2016spring.Tests.Machine.{reliable}

-- Two jobs, the second in two slices.
abbrev two_slices : Trace
two_slices = Event.send 1 3 ∷ Event.send 0 5 ∷ Event.send 1 4 ∷ []

slices-second : slices 1 two_slices ≡ 4 ∷ 3 ∷ []
slices-second = refl

rr-Served_example :
    Ends priority_checked reliable (λ s. Served s.trace) (rr reliable stable_qsort three_jobs)
rr-Served_example = rr-Served reliable stable_qsort three_jobs (omega arith)

psjf-Served_example :
    Ends wait_checked reliable (λ m. Served m.trace) (psjf reliable stable_qsort four_jobs)
psjf-Served_example = psjf-Served reliable stable_qsort four_jobs 3 (omega arith) (omega arith)

sjf-Served_example :
    Ends priority_checked reliable (λ s. Served s.trace) (sjf reliable stable_qsort three_jobs)
sjf-Served_example = sjf-Served reliable stable_qsort three_jobs

fifo-Served_example :
    Ends priority_checked reliable (λ s. Served s.trace) (fifo reliable stable_qsort three_jobs)
fifo-Served_example = fifo-Served reliable stable_qsort three_jobs
