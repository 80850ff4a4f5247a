-- ===== src/Rr/Results/Printing.antt =====
-- prj1/rr.c: the lines that `RR` prints.
use os2016spring.Base.{refl, inl, inr, List, [], All, Bool-cases, length, ltb}
use os2016spring.Os.{Os}
use os2016spring.Os.Ends
use os2016spring.Os.Ends.{priority_checked, Ends}
use os2016spring.Os.Returns
use os2016spring.Os.Returns.{Returns, returns, exits, faults, waits, Ends-Returns, loop_keeps}
use os2016spring.Qsort.{Qsort}
use os2016spring.Qsort.Unique.{Spread-of_map}
use os2016spring.Batch.{Line}
use os2016spring.Results.{IsTold}
use os2016spring.Results.Books.{Books-new}
use os2016spring.ReadyList.{PStruct}
use os2016spring.Rr.{State, round, loop, fuel_for, rr}
use os2016spring.Rr.Invariant.{task}
use os2016spring.Rr.Starting.{
  HasTime, arrivals, arrivals-Apart, arrivals_untouched, begun, begun-Holds,
}
use os2016spring.Rr.Schedule.{rr-Robin}
use os2016spring.Rr.Results.Turning.{IsRecorded, round-Recorded}

begun-Recorded : (os : Os) (q : Qsort PStruct) (input : List Line) → IsRecorded os (begun q input)
unfolding begun
begun-Recorded os q input = record {
  queue = [];
  holds = begun-Holds q input;
  recorded = record {
    books =
        Books-new (λ (p : PStruct). p.pipe) os (arrivals q input)
          (Spread-of_map task (λ x. x.pipe) (arrivals q input) (arrivals-Apart q input));
    bounded = tt;
    untouched = arrivals_untouched q input;
  };
}

pub rr-Printed :
    (os : Os) (q : Qsort PStruct) (input : List Line)
    → Returns (λ s. IsTold os s.trace) (rr os q input)
unfolding rr loop begun arrivals
rr-Printed os q input = elim (Bool-cases (os.sched_setscheduler [])) [
  | inr e ↦ rw e exits
  | inl e ↦ rw e (
      Returns.mono
        (loop_keeps (λ (s : State). ltb s.finish (length input)) (round os) (loop os (length input))
          (λ _. refl) (λ _ _. refl) (IsRecorded os) round-Recorded (fuel_for input) (begun q input)
          (begun-Recorded os q input))
        λ s r. (r.recorded.books.results, r.recorded.books.truthful))
]

-- For any operating system and any `qsort`, and whatever jobs that each have something to do: RR
-- ends, and it has printed one line for each job that it has reaped, in the order in which it has
-- reaped them: the pid of the one child that was started for the job, the one time that was read
-- for its start, directly before its first slice was written to its pipe, and the one time that was
-- read where it was reaped; or else RR exits where a `fork` or a `sched_setscheduler` fails.
pub rr-AllReported :
    (os : Os) (q : Qsort PStruct) (input : List Line)
    → All HasTime input
    → Ends priority_checked os (λ s. IsTold os s.trace) (rr os q input)
rr-AllReported os q input h =
    Ends.mono (Ends-Returns (rr-Robin os q input h) (rr-Printed os q input)) λ _ (_, told). told
