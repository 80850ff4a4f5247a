-- ===== src/Psjf/Results/Printing.antt =====
-- prj1/psjf.c: the lines that `PSJF` prints.
use mathlib.Core.List.Permᴰ
use os2016spring.Base.{
  ℕ, suc, ◌+◌, ◌≡◌, ◌<◌, refl, sym, subst, false, inl, inr, List, [], ◌∷◌, All, Bool-cases, ◌==◌,
  ltb,
}
use os2016spring.Os.{Os}
use os2016spring.Os.Ends
use os2016spring.Os.Ends.{wait_checked, Ends}
use os2016spring.Os.Returns
use os2016spring.Os.Returns.{Returns, returns, exits, faults, Ends-Returns, loop_keeps}
use os2016spring.Qsort.{Qsort, All-perm}
use os2016spring.Qsort.Unique.{Spread-of_map}
use os2016spring.Batch.{Line}
use os2016spring.Input.{ReadyBy, total_time}
use os2016spring.Results.{IsTold}
use os2016spring.Results.Books.{Books-perm, Books-new, to_start}
use os2016spring.Psjf.{
  RawInput, Machine, compare_by_exec_time, compare_by_ready_time, read_jobs, run_first,
  run_shortest, is_empty, arrivals, round, is_left, loop, start, fuel_for, psjf, uint_add,
}
use os2016spring.Psjf.Invariant.{task}
use os2016spring.Psjf.Running.{compare_by_exec_time-compares}
use os2016spring.Psjf.Starting.{sorted_perm, sorted-Apart}
use os2016spring.Psjf.Schedule.{psjf-Preemptive}
use os2016spring.Psjf.Results.{
  forked_entry, Recorded, IsRecorded, wait_for-Recorded, fork_next-Recorded, run_until-Recorded,
  run_out-Recorded,
}

unrecorded-read_jobs :
    (i : ℕ) (input : List Line) → All (λ (r : RawInput). r.recorded ≡ false) (read_jobs i input)
unfolding read_jobs
unrecorded-read_jobs i [] = tt
unrecorded-read_jobs i ((n, r, e) ∷ input) = (refl, unrecorded-read_jobs (suc i) input)

module _ {os : Os} where
  run_first-Recorded :
      (sorted unready : List RawInput) (m : Machine)
      → Recorded os sorted m.unready m.trace
      → Returns (IsRecorded os) (run_first os sorted unready m)
  unfolding run_first
  run_first-Recorded [] unready m r = faults
  run_first-Recorded (running ∷ rest) [] m r = run_out-Recorded running rest m r
  run_first-Recorded (running ∷ rest) (next ∷ _) m r =
      elim (Bool-cases (ltb next.ready_time (uint_add m.time_counter running.exec_time))) [
        | inl e ↦ rw e (returns (run_until-Recorded running rest next.ready_time m r))
        | inr e ↦ rw e (run_out-Recorded running rest m r)
      ]

  run_shortest-Recorded :
      (q : Qsort RawInput) (m : Machine)
      → IsRecorded os m
      → Returns (IsRecorded os) (run_shortest os q m)
  unfolding run_shortest
  run_shortest-Recorded q m r =
      let p =
        q.perm compare_by_exec_time (λ e. e.exec_time) compare_by_exec_time-compares m.ready in
      run_first-Recorded (q.sort compare_by_exec_time m.ready) m.unready m (record {
        books =
            Books-perm
              (Permᴰ.append_right (to_start _ m.unready) (Permᴰ.map forked_entry (Permᴰ.symm p)))
              r.books;
        unrecorded = r.unrecorded;
      })

  arrivals-Recorded :
      (q : Qsort RawInput) (unready : List RawInput) (m : Machine)
      → Recorded os m.ready unready m.trace
      → m.unready ≡ unready
      → Returns (IsRecorded os) (arrivals os q unready m)
  unfolding arrivals
  arrivals-Recorded q [] m r u =
      run_shortest-Recorded q m (subst (λ l. Recorded os m.ready l m.trace) (sym u) r)
  arrivals-Recorded q (next ∷ later) m r u =
      let here = subst (λ l. Recorded os m.ready l m.trace) (sym u) r in
      elim (Bool-cases (next.ready_time == m.time_counter)) [
        | inl e ↦ rw e (
            Returns.bind (fork_next-Recorded next later m r) λ m' r'. run_shortest-Recorded q m' r')
        | inr e ↦ elim (Bool-cases (is_empty m.ready)) [
          | inl e' ↦ rw (e, e') (returns (wait_for-Recorded next m here))
          | inr e' ↦ rw (e, e') (run_shortest-Recorded q m here)
        ]
      ]

  round-Recorded :
      (q : Qsort RawInput) (m : Machine) → IsRecorded os m → Returns (IsRecorded os) (round os q m)
  unfolding round
  round-Recorded q m r = arrivals-Recorded q m.unready m r refl

start-Recorded :
    (os : Os) (q : Qsort RawInput) (input : List Line)
    → IsRecorded os (start (q.sort compare_by_ready_time (read_jobs 0 input)))
start-Recorded os q input =
    let jobs = q.sort compare_by_ready_time (read_jobs 0 input) in
    record {
      books =
          Books-new (λ (r : RawInput). r.pipe) os jobs
            (Spread-of_map task (λ x. x.pipe) jobs (sorted-Apart q input));
      unrecorded = All-perm _ (Permᴰ.symm (sorted_perm q input)) (unrecorded-read_jobs 0 input);
    }

pub psjf-Printed :
    (os : Os) (q : Qsort RawInput) (input : List Line)
    → Returns (λ m. IsTold os m.trace) (psjf os q input)
unfolding psjf loop
psjf-Printed os q input =
    Returns.mono
      (loop_keeps (λ (m : Machine). is_left m.ready m.unready) (round os q) (loop os q) (λ _. refl)
        (λ _ _. refl) (IsRecorded os) (round-Recorded q) (fuel_for input)
        (start (q.sort compare_by_ready_time (read_jobs 0 input))) (start-Recorded os q input))
      λ m r. (r.books.results, r.books.truthful)

-- For any operating system and any `qsort`: if the last arrival and the sum of the execution times
-- together stay below 2^31, then PSJF ends, and it has printed one line for each job that it has
-- reaped, in the order in which it has reaped them: the pid of the one child that was started for the
-- job, the one time that was read for its start, directly before its first slice, which can be one of
-- 0 units, was written to its pipe, and the one time that was read where it was reaped; or else PSJF
-- exits where a `fork` or a `waitpid` fails.
pub psjf-AllReported :
    (os : Os) (q : Qsort RawInput) (input : List Line) (last : ℕ)
    → All (ReadyBy last) input
    → last + total_time input < 2147483648
    → Ends wait_checked os (λ m. IsTold os m.trace) (psjf os q input)
psjf-AllReported os q input last h small =
    Ends.mono (Ends-Returns (psjf-Preemptive os q input last h small) (psjf-Printed os q input))
      λ _ (_, told). told
