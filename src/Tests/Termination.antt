-- ===== src/Tests/Termination.antt =====
-- The loops on ten rounds more than they need.
use os2016spring.Base.{◌≡◌, refl, ◌≢◌, arith}
use os2016spring.Os.{out_of_fuel}
use os2016spring.Termination.{psjf_loop, rr_loop, psjf_loop-steady, rr_loop-steady}
use os2016spring.Qsort.Insertion.{stable_qsort}
use os2016spring.Tests.Machine.{reliable}
use os2016spring.Tests.Psjf.{four_jobs}
use os2016spring.Tests.Rr.{three_jobs}

rr_loop-steady_example :
    (rr_loop reliable stable_qsort three_jobs 3000 ≡ rr_loop reliable stable_qsort three_jobs 2108)
    × (rr_loop reliable stable_qsort three_jobs 3000 ≢ out_of_fuel)
rr_loop-steady_example =
    rr_loop-steady reliable stable_qsort three_jobs 3000 (omega arith) refl (omega arith)

psjf_loop-steady_example :
    (psjf_loop reliable stable_qsort four_jobs 20 ≡ psjf_loop reliable stable_qsort four_jobs 10)
    × (psjf_loop reliable stable_qsort four_jobs 20 ≢ out_of_fuel)
psjf_loop-steady_example =
    psjf_loop-steady reliable stable_qsort four_jobs 3 20 (omega arith) (omega arith) (omega arith)
