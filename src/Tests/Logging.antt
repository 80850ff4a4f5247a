-- ===== src/Tests/Logging.antt =====
-- The log of the kernel behind the program, on a kernel that keeps its log as it is.
use os2016spring.Base.{ℕ, ◌≡◌, refl, ◌++◌, some, none, List, [], ◌∷◌, arith}
use os2016spring.Os.{Event, Trace, Timespec}
use os2016spring.Os.Ends.{wait_checked, Ends}
use os2016spring.Qsort.Insertion.{stable_qsort}
use os2016spring.Printing.Line.{IsTime}
use os2016spring.Results.Printable.{InRange}
use os2016spring.SystemCalls.{
  Linux, table, enter, syscall, sys_myprint, sys_gettime, main, read_time, run,
}
use os2016spring.SystemCalls.Log.{read_log, read_log-run}
use os2016spring.Main as Main
use os2016spring.Main.{policy_psjf}
use os2016spring.Main.Logging.{Logged, main-Logged}
use os2016spring.Tests.Psjf.{four_jobs}
use os2016spring.Tests.Machine.{steady}

abbrev noon : Timespec
noon = record { tv_sec = 1460000000; tv_nsec = 123456789 }

abbrev plain_log : Linux (List ℕ)
plain_log = record {
  printk = λ text log. log ++ text;
  getnstimeofday = λ _. noon;
  log = λ log. log;
  line_max = 1000;
  log-printk = λ _ _ _. refl;
  long_enough = omega arith;
}

noon-IsTime : IsTime noon
noon-IsTime = record { seconds = omega arith; nanoseconds = omega arith }

steady-InRange : InRange steady
steady-InRange = record { pid = λ t pid e. omega (arith, some_pid pid e); time = λ _. noon-IsTime }
  where
    some_pid : (pid : ℕ) → some 4211 ≡ some pid → 4211 ≡ pid
    some_pid pid e = cc

-- The line of p.c.
main_run :
    main plain_log (88 ∷ [])
    ≡ some (
      none,
      88 ∷ 61 ∷ 61 ∷ 61 ∷ 61 ∷ 61 ∷ 61 ∷ 61 ∷ 61 ∷ 61 ∷ 61 ∷ 61 ∷ 61 ∷ 61 ∷ 61 ∷ 61 ∷ 61 ∷ 10 ∷ [],
    )
unfolding main syscall table enter sys_myprint
main_run = refl

read_time_run : read_time plain_log [] ≡ some (some noon, [])
unfolding read_time syscall table enter sys_gettime
read_time_run = refl

abbrev two_results : Trace
two_results = Event.print_result 12 noon noon ∷ Event.tick ∷ Event.print_result 7 noon noon ∷ []

read_log-two_results :
    (s : List ℕ) × (run plain_log [] two_results ≡ some s)
    × (read_log s ≡ (7, noon, noon) ∷ (12, noon, noon) ∷ [])
read_log-two_results =
    read_log-run plain_log [] two_results refl
      ((omega arith, noon-IsTime, noon-IsTime), ((omega arith, noon-IsTime, noon-IsTime), tt))

main-Logged_example :
    Ends wait_checked steady
      (Logged steady plain_log [] policy_psjf four_jobs 28)
      (Main.main steady stable_qsort stable_qsort stable_qsort "PSJF" four_jobs)
main-Logged_example =
    main-Logged steady plain_log [] steady-InRange refl stable_qsort stable_qsort stable_qsort
      four_jobs 3 (omega arith) (omega arith) (omega arith) policy_psjf
