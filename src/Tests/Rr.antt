-- ===== src/Tests/Rr.antt =====
-- `RR` on three jobs, two of which arrive at once, and on a job with nothing to do; the circular
-- list on two jobs.
use os2016spring.Base.{ℕ, zero, suc, ◌≡◌, refl, none, some, List, [], ◌∷◌, ◌++◌, arith}
use os2016spring.Os.{completions, blocked, Event}
use os2016spring.Os.Ends.{priority_checked, Ends, ends}
use os2016spring.Qsort.Insertion.{stable_qsort, insertion_sort}
use os2016spring.Batch.{Line, epoch}
use os2016spring.ReadyList.{PStruct, Heap, remove_list, next_job}
use os2016spring.ReadyList.Steps.{Returns}
use os2016spring.ReadyList.Queue.{Holds, remove_list-Holds, next_job-Holds}
use os2016spring.Rr.{rr, rr_cmp, read_structs}
use os2016spring.Rr.Robin.{Robin}
use os2016spring.Rr.Invariant.{tasks}
use os2016spring.Rr.Schedule.{rr-Robin}
use os2016spring.Rr.Blocking.{Blocks, rr-Blocks}
use os2016spring.Tests.Machine.{reliable}

abbrev pub three_jobs : List Line
three_jobs = ("P1", 0, 1200) ∷ ("P2", 0, 300) ∷ ("P3", 100, 600) ∷ []

rr_run :
    Ends priority_checked reliable
      (λ s. completions s.trace ≡ (1, 800) ∷ (2, 1900) ∷ (0, 2100) ∷ [])
      (rr reliable stable_qsort three_jobs)
unfolding rr insertion_sort
rr_run = ends refl

rr_nothing_to_do :
    rr reliable stable_qsort (("P1", 0, 0) ∷ [])
    ≡ blocked (Event.spawn 1 0 "P1" 0 ∷ Event.set_priority 0 98 ∷ [])
unfolding rr insertion_sort
rr_nothing_to_do = refl

rr-Robin_example :
    Ends priority_checked reliable
      (λ s.
        Robin 500 0 500 []
          (tasks (stable_qsort.sort rr_cmp (read_structs 0 three_jobs)))
          (completions s.trace))
      (rr reliable stable_qsort three_jobs)
rr-Robin_example = rr-Robin reliable stable_qsort three_jobs (omega arith)

abbrev job : ℕ → PStruct
job i = record {
  name = "P";
  r_time = 0;
  e_time = 3;
  started_at = epoch;
  finished_at = epoch;
  pid = i;
  remain_time = 3;
  pipe = i;
}

abbrev two_nodes : Heap
two_nodes = record {
  node = λ i. elim i [
    | zero ↦ some (record { process = job 7; next = 1; last = 1 })
    | suc zero ↦ some (record { process = job 8; next = 0; last = 0 })
    | _ ↦ none
  ];
  allocated = 2;
}

two_nodes-Holds : Holds two_nodes (some 0) (job 7 ∷ job 8 ∷ [])
two_nodes-Holds = record {
  nodes = (0, job 7) ∷ (1, job 8) ∷ [];
  ring = record {
    points = refl;
    linked = (refl, (refl, tt));
    distinct = (((λ e. omega (arith, e)), tt), (tt, tt));
    known = (omega arith, (omega arith, tt));
  };
  in_order = refl;
}

remove_list-Holds_example : Returns (λ p h. Holds h p (job 8 ∷ [])) (remove_list 0 two_nodes)
remove_list-Holds_example = remove_list-Holds two_nodes 0 (job 7) (job 8 ∷ []) two_nodes-Holds

next_job-Holds_example :
    Returns (λ p h. Holds h p ((job 8 ∷ []) ++ job 7 ∷ [])) (next_job 0 two_nodes)
next_job-Holds_example = next_job-Holds two_nodes 0 (job 7) (job 8 ∷ []) two_nodes-Holds

rr-Blocks_example : Blocks reliable 1 (rr reliable stable_qsort (("P1", 20, 7) ∷ ("P2", 5, 0) ∷ []))
unfolding insertion_sort read_structs rr_cmp
rr-Blocks_example =
    rr-Blocks reliable stable_qsort (("P1", 20, 7) ∷ ("P2", 5, 0) ∷ [])
      (record (job 1) { name = "P2"; r_time = 5; e_time = 0; pid = 0; remain_time = 0 })
      (record (job 0) { name = "P1"; r_time = 20; e_time = 7; pid = 0; remain_time = 7 } ∷ []) refl
      refl
