-- ===== src/Tests/Results.antt =====
-- The lines that the four schedulers print, on the jobs of their own tests.
use os2016spring.Base.{true, ℕ, ◌≡◌, refl, [], ◌∷◌, arith}
use os2016spring.Os.{Event, Trace, Timespec}
use os2016spring.Os.Ends.{priority_checked, wait_checked, Ends}
use os2016spring.Qsort.Insertion.{stable_qsort}
use os2016spring.Results.{AllReported, IsTold, facts}
use os2016spring.Fifo.{fifo}
use os2016spring.Fifo.Results.{fifo-AllReported}
use os2016spring.Sjf.{sjf}
use os2016spring.Sjf.Results.{sjf-AllReported}
use os2016spring.Psjf.{psjf}
use os2016spring.Psjf.Results.Printing.{psjf-AllReported}
use os2016spring.Rr.{rr}
use os2016spring.Rr.Results.Printing.{rr-AllReported}
use os2016spring.Tests.Psjf.{four_jobs}
use os2016spring.Tests.Rr.{three_jobs}
use os2016spring.Tests.Machine.{reliable}

abbrev at : ℕ → Timespec
at n = record { tv_sec = n; tv_nsec = 0 }

-- One job, whose line is printed with a wrong start.
abbrev wrong_start : Trace
wrong_start =
    Event.print_result 7 (at 0) (at 3)
    ∷ Event.reap 0
    ∷ Event.send 0 5
    ∷ Event.start_time 0
    ∷ Event.spawn 7 0 "P1" 5
    ∷ []

facts-wrong_start : facts reliable wrong_start 0 ≡ (7 ∷ [], at 1 ∷ [], at 3 ∷ [], true)
facts-wrong_start = refl

wrong_start-AllReported : ¬ AllReported reliable wrong_start
wrong_start-AllReported e = cc

rr-AllReported_example :
    Ends priority_checked reliable
      (λ s. IsTold reliable s.trace)
      (rr reliable stable_qsort three_jobs)
rr-AllReported_example = rr-AllReported reliable stable_qsort three_jobs (omega arith)

psjf-AllReported_example :
    Ends wait_checked reliable (λ m. IsTold reliable m.trace) (psjf reliable stable_qsort four_jobs)
psjf-AllReported_example =
    psjf-AllReported reliable stable_qsort four_jobs 3 (omega arith) (omega arith)

sjf-AllReported_example :
    Ends priority_checked reliable
      (λ s. IsTold reliable s.trace)
      (sjf reliable stable_qsort three_jobs)
sjf-AllReported_example = sjf-AllReported reliable stable_qsort three_jobs

fifo-AllReported_example :
    Ends priority_checked reliable
      (λ s. IsTold reliable s.trace)
      (fifo reliable stable_qsort three_jobs)
fifo-AllReported_example = fifo-AllReported reliable stable_qsort three_jobs
