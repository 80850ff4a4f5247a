-- ===== src/Sjf/Schedule.antt =====
-- What sjf.c does is a schedule that shortest-job-first allows.
use mathlib.Core.List.Permᴰ
use os2016spring.Base.{ℕ, ◌<◌, ◌≡◌, sym, subst, List, [], append-nil, arith}
use os2016spring.Os.{Os, completions}
use os2016spring.Os.Ends
use os2016spring.Os.Ends.{priority_checked, Ends, ends}
use os2016spring.Qsort.{Qsort}
use os2016spring.Batch.{Data, Line, State, cmp, read_file, loop, start}
use os2016spring.Complete.{Latest}
use os2016spring.Batch.Invariant.{task, tasks}
use os2016spring.Batch.Work.{work, gap-le-one}
use os2016spring.Batch.Loop.{loop_rule, not-is_left}
use os2016spring.Batch.Input.{
  completions-print_results, Served-print_results, start-IsValid, IsFresh-input,
  length-sorted_input, sorted_perm,
}
use os2016spring.Fifo.{fuel_for}
use os2016spring.Sjf.{round, sjf}
use os2016spring.Sjf.Shortest.{Shortest, done, Shortest-perm}
use os2016spring.Sjf.Choosing.{Pending}
use os2016spring.Served.{Served}
use os2016spring.Sjf.Rounds.{Continues, Narrows, IsSound, round-Narrows}

-- At the end nothing more can follow.
ended-Continues : (s : State) → s.forked ≡ [] → s.unforked ≡ [] → Continues s (completions s.trace)
ended-Continues s f u = (
  [],
  sym (append-nil _),
  subst (λ us. Pending s.forked us s.clock []) (sym u)
      (subst (λ fs. Pending fs [] s.clock []) (sym f) done),
)

loop-Shortest :
    (os : Os) (q : Qsort Data) (fuel : ℕ) (s : State)
    → IsSound s
    → work s < fuel
    → Ends priority_checked os
        (λ s'.
          Continues s (completions s'.trace)
          × Served s'.trace
          × Latest s'.clock (completions s'.trace))
        (loop (round os q) fuel s)
unfolding IsSound Narrows
loop-Shortest os q fuel s sound enough =
    Ends.mono
      (loop_rule IsSound Narrows (λ s out k. k) (λ s t u m n out k. m out (n out k)) (round os q)
        (round-Narrows os q) fuel s enough sound)
      λ s' ((v, _, _, last), narrows, over).
        let (f, u) = not-is_left s' over in
        (narrows _ (ended-Continues s' f u), v.accounts.served, last f)

start-IsSound :
    (q : Qsort Data) (input : List Line) → IsSound (start (q.sort cmp (read_file 0 input)))
unfolding IsSound
start-IsSound q input = (start-IsValid q input, IsFresh-input q input, tt, λ _ bound h. omega arith)

start-work :
    (q : Qsort Data) (input : List Line)
    → work (start (q.sort cmp (read_file 0 input))) < fuel_for input
start-work q input =
    omega (arith, length-sorted_input q input, gap-le-one 0 (q.sort cmp (read_file 0 input)))

-- The whole run.
pub sjf-Kept :
    (os : Os) (q : Qsort Data) (input : List Line)
    → Ends priority_checked os
        (λ s.
          Shortest 0 (tasks (read_file 0 input)) (completions s.trace)
          × Served s.trace
          × Latest s.clock (completions s.trace))
        (sjf os q input)
unfolding sjf
sjf-Kept os q input =
    Ends.bind
      (loop-Shortest os q (fuel_for input) (start (q.sort cmp (read_file 0 input)))
        (start-IsSound q input) (start-work q input))
      λ s ((later, e, p), served, last). ends (
        rw (completions-print_results, e)
            (Shortest-perm (Permᴰ.symm (Permᴰ.map task (sorted_perm q input))) p),
        Served-print_results s.finished s.trace served,
        rw completions-print_results last,
      )

-- For any operating system and any `qsort`, and whatever the input: SJF ends. The jobs that it has
-- completed, and the times at which it has, are a schedule that shortest-job-first allows for the
-- jobs of the input; or else it exits where a `fork` or a `sched_setscheduler` fails. It never runs
-- a job that it has not forked, nor sends a negative time slice.
pub sjf-Shortest :
    (os : Os) (q : Qsort Data) (input : List Line)
    → Ends priority_checked os
        (λ s. Shortest 0 (tasks (read_file 0 input)) (completions s.trace))
        (sjf os q input)
sjf-Shortest os q input = Ends.mono (sjf-Kept os q input) λ _ (kept, _, _). kept

-- For any operating system and any `qsort`, and whatever the input: SJF ends, and whenever it reaps
-- a job, the slices that it has written to the pipe of that job are such that the job, child.c on
-- these slices where it can lower its priority, has read them all and has ended, with the execution
-- time that it was started with burned to the unit; or else SJF exits where a `fork` or a
-- `sched_setscheduler` fails.
pub sjf-Served :
    (os : Os) (q : Qsort Data) (input : List Line)
    → Ends priority_checked os (λ s. Served s.trace) (sjf os q input)
sjf-Served os q input = Ends.mono (sjf-Kept os q input) λ _ (_, served, _). served
