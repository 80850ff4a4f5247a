-- ===== src/Main/Logging.antt =====
-- prj1 as a whole: main.c with its schedulers, and the log of the kernel behind them.
use os2016spring.Base.{ℕ, ◌+◌, ◌<◌, ◌≡◌, subst, sym, ap, ◌∙◌, some, List, [], map, All}
use os2016spring.Os.{Os, Trace, Outcome, ok, ◌>>=◌, completions}
use os2016spring.Os.Ends
use os2016spring.Os.Ends.{Checks, priority_checked, wait_checked, Ends, ends}
use os2016spring.Os.Returns.{Returns, Ends-Returns, Returns-Ends}
use os2016spring.Qsort.{Qsort}
use os2016spring.Input.{ReadyBy, total_time}
use os2016spring.Complete.{Complete, jobs}
use os2016spring.Results.{says, Truthful, facts, IsTold}
use os2016spring.Results.Printable.{InRange, IsTold-IsPrintable}
use os2016spring.SystemCalls.{Linux, run}
use os2016spring.SystemCalls.Log.{read_log, read_log-run}
use os2016spring.Served.{Served}
use os2016spring.Pipe.{assign_text, run_job_text}
use os2016spring.Pipe.Reading.{IsRead, assign_text-IsRead, run_job_text-IsRead}
use os2016spring.Pipe.Jobs.{ServedText, Served-ServedText}
use os2016spring.Batch.{Data, Line, State}
use os2016spring.Fifo.{fifo}
use os2016spring.Fifo.Schedule.{fifo-Served}
use os2016spring.Sjf.{sjf}
use os2016spring.Sjf.Schedule.{sjf-Served}
use os2016spring.Psjf.{Machine, psjf}
use os2016spring.Psjf.Schedule.{psjf-Served}
use os2016spring.Rr as Rr
use os2016spring.Rr.{rr}
use os2016spring.Rr.Schedule.{rr-Served}
use os2016spring.Fifo.Complete.{fifo-Complete}
use os2016spring.Fifo.Results.{fifo-Printed}
use os2016spring.Sjf.Complete.{sjf-Complete}
use os2016spring.Sjf.Results.{sjf-Printed}
use os2016spring.Psjf.{RawInput}
use os2016spring.Psjf.Complete.{psjf-Complete}
use os2016spring.Psjf.Results.Printing.{psjf-Printed}
use os2016spring.ReadyList.{PStruct}
use os2016spring.Rr.Starting.{HasTime}
use os2016spring.Rr.Complete.{rr-Complete}
use os2016spring.Rr.Results.Printing.{rr-Printed}
use os2016spring.Main.{Policy, policy_fifo, policy_sjf, policy_psjf, policy_rr, run_policy, main}
use os2016spring.Main.Dispatch.{name_of, main-name_of}

-- The form in which the scheduler of a policy writes a slice.
abbrev pub form : Policy → ℕ → List ℕ
form policy_rr = run_job_text
form _ = assign_text

form-IsRead : (p : Policy) → IsRead (form p)
form-IsRead policy_fifo = assign_text-IsRead
form-IsRead policy_sjf = assign_text-IsRead
form-IsRead policy_psjf = assign_text-IsRead
form-IsRead policy_rr = run_job_text-IsRead

-- Every job is completed once, and by `end`, and whenever a job is reaped, child.c on the text of
-- its pipe has ended; the calls of `print_result` come back from the kernel, and its log, read
-- back, tells all that is known of the jobs, in the order of their completions; a pid is what
-- `fork` has given, and a start is read directly before the first slice.
pub record Logged {State : Type 0} (os : Os) (linux : Linux State) (s0 : State) (p : Policy)
    (input : List Line) (end : ℕ) (t : Trace) : Type 0 where
  pub complete : Complete input end (completions t)
  pub served : ServedText (form p) t
  pub kernel : State
  pub ran : run linux s0 t ≡ some kernel
  pub told : map says (read_log (linux.log kernel)) ≡ map (facts os t) (jobs (completions t))
  pub truthful : Truthful os t

-- What the four schedulers leave.
record Done (os : Os) (input : List Line) (end : ℕ) (t : Trace) : Type 0 where
  complete : Complete input end (completions t)
  served : Served t
  told : IsTold os t

Ends-Done :
    {A : Type 0} {c : Checks} {os : Os} {input : List Line} {end : ℕ} {P : A → Type 0}
    (trace : A → Trace) (r : Outcome A)
    → Ends c os (λ a. Complete input end (completions (trace a)) × P a) r
    → Ends c os (λ a. Served (trace a)) r
    → Returns (λ a. IsTold os (trace a)) r
    → Ends c os (Done os input end) (r >>= λ a. ok (trace a))
Ends-Done trace r complete served told =
    Ends.bind (Ends-Returns (Ends-Returns complete (Returns-Ends served)) told)
      λ a (((c, _), s), told'). ends (record { complete = c; served = s; told = told' })

-- The calls whose failure ends the scheduler of a policy.
abbrev checks_of : Policy → Checks
checks_of policy_fifo = priority_checked
checks_of policy_sjf = priority_checked
checks_of policy_psjf = wait_checked
checks_of policy_rr = priority_checked

module _ (os : Os) (qd : Qsort Data) (qr : Qsort RawInput) (qp : Qsort PStruct) (input : List Line)
    (last : ℕ) (ready : All (ReadyBy last) input) (busy : All HasTime input)
    (small : last + total_time input < 2147483648) where
  run_policy-Done :
      (p : Policy)
      → Ends
          (checks_of p)
          os
          (Done os input (last + total_time input))
          (run_policy os qd qr qp p input)
  unfolding run_policy
  run_policy-Done policy_fifo =
      Ends-Done (λ (s : State). s.trace) (fifo os qd input) (fifo-Complete os qd input last ready)
        (fifo-Served os qd input) (fifo-Printed os qd input)
  run_policy-Done policy_sjf =
      Ends-Done (λ (s : State). s.trace) (sjf os qd input) (sjf-Complete os qd input last ready)
        (sjf-Served os qd input) (sjf-Printed os qd input)
  run_policy-Done policy_psjf =
      Ends-Done (λ (m : Machine). m.trace) (psjf os qr input)
        (psjf-Complete os qr input last ready small) (psjf-Served os qr input last ready small)
        (psjf-Printed os qr input)
  run_policy-Done policy_rr =
      Ends-Done (λ (s : Rr.State). s.trace) (rr os qp input)
        (rr-Complete os qp input last busy ready) (rr-Served os qp input busy)
        (rr-Printed os qp input)

module _ {State : Type 0} (os : Os) (linux : Linux State) (s0 : State) (range : InRange os)
    (empty : linux.log s0 ≡ []) where
  Done-Logged :
      (p : Policy) (input : List Line) (end : ℕ) (t : Trace)
      → end < 2147483648
      → Done os input end t
      → Logged os linux s0 p input end t
  Done-Logged p input end t small done =
      let (kernel, ran, read) =
        read_log-run linux s0 t empty (IsTold-IsPrintable os t range done.told) in
      record {
        complete = done.complete;
        served =
            Served-ServedText (form p) (form-IsRead p) end t small (done.complete).in_time
              done.served;
        kernel = kernel;
        ran = ran;
        told = ap (map says) read ∙ (done.told).0;
        truthful = (done.told).1;
      }

  module _ (qd : Qsort Data) (qr : Qsort RawInput) (qp : Qsort PStruct) (input : List Line)
      (last : ℕ) (ready : All (ReadyBy last) input) (busy : All HasTime input)
      (small : last + total_time input < 2147483648) where
    -- Where `fork` gives pids below 2^31 and the clock times whose seconds are below 2^63 and whose
    -- nanoseconds are below 10^9, where each job has something to do, and the last arrival and the
    -- sum of the execution times together stay below 2^31: started with the name of any of the four
    -- policies and an empty log of the kernel, the program ends. It completes every job of the
    -- input, once, and by the last arrival and the sum of the execution times. Whenever it reaps a
    -- job, child.c, started with the execution time as a text and reading the text of its pipe,
    -- where it can lower its priority, has ended with this time burned to the unit. Each call of
    -- `print_result` comes back from the kernel, and in the end the log, cut into lines and read
    -- back, tells one result for each job, in the order of the completions: the pid of the one
    -- child that was started for the job, the one time that was read for its start, directly before
    -- its first slice, which with PSJF can be one of 0 units, was written to its pipe, and the one
    -- time that was read where it was reaped. Or else the program exits where a `fork` fails, or a
    -- call of `waitpid` with PSJF, of `sched_setscheduler` with another policy.
    pub main-Logged :
        (p : Policy)
        → Ends
            (checks_of p)
            os
            (Logged os linux s0 p input (last + total_time input))
            (main os qd qr qp (name_of p) input)
    main-Logged p =
        subst (Ends (checks_of p) os (Logged os linux s0 p input (last + total_time input)))
          (sym (main-name_of os qd qr qp input p))
          (Ends.mono (run_policy-Done os qd qr qp input last ready busy small p)
            λ t done. Done-Logged p input (last + total_time input) t small done)
