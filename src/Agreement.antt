-- ===== src/Agreement.antt =====
-- rr.c and fifo.c on the same jobs, when no job is longer than the quantum.
use mathlib.Core.List.{Permᴰ}
use mathlib.Core.List.Permᴰ
use os2016spring.Base.{◌≡◌, sym, ap, ◌∙◌, subst, List, All, arith}
use os2016spring.Os.{Os, completions}
use os2016spring.Os.Ends
use os2016spring.Os.Ends.{priority_checked, Ends}
use os2016spring.Qsort.{Qsort, IsSorted, All-perm}
use os2016spring.Qsort.Unique.{Spread, Spread-perm, IsSorted-map, sorted_unique}
use os2016spring.Task.{Task}
use os2016spring.Input.{as_tasks, ready_of, ShortBy, as_tasks-Spread, as_tasks-short}
use os2016spring.Batch.{Data, Line, cmp, read_file}
use os2016spring.Batch.Invariant.{task, tasks}
use os2016spring.Batch.Input.{sorted_perm, cmp-compares, tasks-read_file}
use os2016spring.Fifo.{fifo}
use os2016spring.Fifo.Schedule.{fifo_schedule, fifo-schedule}
use os2016spring.ReadyList.{PStruct}
use os2016spring.Rr.{rr, rr_cmp, read_structs}
use os2016spring.Rr.Invariant as Ring
use os2016spring.Rr.Starting.{HasTime, arrivals, arrivals_perm, tasks-read_structs, rr_cmp-compares}
use os2016spring.Rr.Schedule.{rr-Robin}
use os2016spring.Rr.FirstCome.{Robin-fifo_schedule}

-- The tasks in the order of arrival.
record InOrder (input : List Line) (ts : List Task) : Type 0 where
  all : Permᴰ ts (as_tasks 0 input)
  ascending : IsSorted (λ (x : Task). x.ready) ts

InOrder-unique :
    (input : List Line) (ts us : List Task)
    → Spread ready_of input
    → InOrder input ts
    → InOrder input us
    → ts ≡ us
InOrder-unique input ts us spread a b =
    sorted_unique (λ (x : Task). x.ready) ts us (Permᴰ.trans a.all (Permᴰ.symm b.all)) a.ascending
      b.ascending
      (Spread-perm (λ (x : Task). x.ready) (Permᴰ.symm a.all) (as_tasks-Spread 0 input spread))

fifo-InOrder :
    (q : Qsort Data) (input : List Line) → InOrder input (tasks (q.sort cmp (read_file 0 input)))
fifo-InOrder q input = record {
  all =
      subst (Permᴰ (tasks (q.sort cmp (read_file 0 input)))) (tasks-read_file 0 input)
        (Permᴰ.map task (sorted_perm q input));
  ascending =
      IsSorted-map task (λ (x : Task). x.ready) (q.sort cmp (read_file 0 input))
        (q.sorted cmp (λ (d : Data). d.ready_time) cmp-compares (read_file 0 input));
}

rr-InOrder :
    (q : Qsort PStruct) (input : List Line)
    → InOrder input (Ring.tasks (q.sort rr_cmp (read_structs 0 input)))
unfolding arrivals
rr-InOrder q input = record {
  all =
      subst (Permᴰ (Ring.tasks (q.sort rr_cmp (read_structs 0 input)))) (tasks-read_structs 0 input)
        (Permᴰ.map Ring.task (arrivals_perm q input));
  ascending =
      IsSorted-map Ring.task (λ (x : Task). x.ready) (q.sort rr_cmp (read_structs 0 input))
        (q.sorted rr_cmp (λ (p : PStruct). p.r_time) rr_cmp-compares (read_structs 0 input));
}

-- Where each job has something to do, none is longer than the quantum of 500, and no two arrive at
-- the same time: RR and FIFO, on any operating systems and with any `qsort`, complete the same jobs
-- at the same times; or else one of them exits where a call fails.
pub rr-fifo :
    (os os' : Os) (q : Qsort PStruct) (q' : Qsort Data) (input : List Line)
    → All HasTime input
    → All (ShortBy 500) input
    → Spread ready_of input
    → Ends priority_checked os
        (λ s.
          Ends priority_checked os'
            (λ s'. completions s.trace ≡ completions s'.trace)
            (fifo os' q' input))
        (rr os q input)
rr-fifo os os' q q' input h short spread = Ends.mono (rr-Robin os q input h) λ s robin.
    Ends.mono (fifo-schedule os' q' input) λ s' kept.
      let ts = Ring.tasks (q.sort rr_cmp (read_structs 0 input)) in
      let r = rr-InOrder q input in
      let same = InOrder-unique input ts _ spread r (fifo-InOrder q' input) in
      let all_short = All-perm _ (Permᴰ.symm r.all) (as_tasks-short 500 0 input short) in
      Robin-fifo_schedule robin (omega arith) tt all_short tt ∙ ap (fifo_schedule 0) same ∙ sym kept
