-- ===== src/Rr/Slicing.antt =====
-- A turn of rr.c that does not end the first job: it runs up to the next arrival, or uses up its
-- quantum.
use os2016spring.Base.{
  ℕ, ◌+◌, ◌-◌, ◌≤◌, ◌<◌, ◌≡◌, sym, ap, ◌∙◌, subst, some, List, [], ◌∷◌, ◌++◌, All, All-append,
  length-append, arith,
}
use os2016spring.Os.{Trace, Os}
use os2016spring.Os.Ends
use os2016spring.Os.Ends.{priority_checked, Ends, ends, priority_refused}
use os2016spring.Qsort.{IsSorted, All-ge}
use os2016spring.Served.Accounts.{Accounts, Accounts-perm}
use mathlib.Core.List.Permᴰ
use os2016spring.Rr.Sending.{run_job-Sent, less_left, task-less_left, same_remain, Accounts-slice}
use os2016spring.ReadyList.{PStruct}
use os2016spring.ReadyList.Queue.{Holds, set_process-Holds, next_job-Holds}
use os2016spring.Rr.{State, run_until, run_quantum}
use os2016spring.Rr.Robin.{Robin, NoneBefore, shorter}
use os2016spring.Rr.Slices.{runs_long, expires_long}
use os2016spring.Rr.Invariant.{
  snoc_nil, task, tasks, tasks-append, total-append, IsValid, pend, gap, gap-pend, Turned,
  heap_do-Ends,
}

-- Where none arrives before `c`, none is pending before `c`.
pub pending_until :
    (c : ℕ) (u : List PStruct)
    → IsSorted (λ (p : PStruct). p.r_time) u
    → NoneBefore c (tasks u)
    → All (λ (p : PStruct). c ≤ p.r_time) u
pending_until c [] sorted h = tt
pending_until c (p ∷ u) sorted h = (h, All-ge (λ (p : PStruct). p.r_time) p u h sorted.0)

-- The first job may go to the end of the list.
rotated :
    (u ps : List PStruct) (p : PStruct) (t : Trace)
    → Accounts t (tasks (p ∷ ps)) (tasks u)
    → Accounts t (tasks (ps ++ p ∷ [])) (tasks u)
rotated u ps p t = Accounts-perm (tasks u) (Permᴰ.map task (Permᴰ.append_comm (p ∷ []) ps))

module _ (os : Os) (n : ℕ) (s : State) (job : ℕ) (p : PStruct) (ps : List PStruct)
    (v : IsValid n s (p ∷ ps)) (at_job : s.cur_job ≡ some job) where
  pub held : Holds s.heap (some job) (p ∷ ps)
  held = subst (λ j. Holds s.heap j (p ∷ ps)) at_job v.holds

  pub run_until-Turned :
      (next : PStruct) (later : List PStruct)
      → s.unforked ≡ next ∷ later
      → next.r_time - s.cur_time < s.remain
      → next.r_time - s.cur_time < p.remain_time
      → Ends priority_checked os (Turned n s (p ∷ ps)) (run_until os job p next.r_time s)
  unfolding run_until
  run_until-Turned next later un in_quantum in_job =
      let t = next.r_time - s.cur_time in
      let first : s.cur_time ≤ next.r_time =
        (subst (All (λ (q : PStruct). s.cur_time ≤ q.r_time)) un v.pending).0 in
      let before : NoneBefore next.r_time (tasks s.unforked) =
        subst (λ u. NoneBefore next.r_time (tasks u)) (sym un) (omega arith) in
      let reached : gap next.r_time s.unforked ≡ 0 =
        subst (λ u. gap next.r_time u ≡ 0) (sym un) (ground arith) in
      let some_pending : pend s.unforked ≡ 1 = ap pend un in
      let end : s.cur_time + t ≡ next.r_time = omega arith in
      Ends.bind (run_job-Sent os p t s.trace) λ r sent.
        let same = same_remain p r.0 sent.same_task in
        heap_do-Ends (λ _ h. Holds h (some job) (less_left r.0 t ∷ ps)) _ _
          (set_process-Holds s.heap job p (less_left r.0 t) ps held)
          λ _ h hold. ends (record {
            queue = less_left r.0 t ∷ ps;
            valid = record {
              holds = subst (λ j. Holds h j (less_left r.0 t ∷ ps)) (sym at_job) hold;
              counted = omega (arith, sent.passed, v.counted);
              some_left = omega arith;
              within = omega (arith, v.within);
              unfinished = (omega arith, v.unfinished.1);
              unstarted = v.unstarted;
              pending = pending_until next.r_time s.unforked v.sorted before;
              sorted = v.sorted;
              untouched = v.untouched;
              accounts = Accounts-slice p ps s.unforked t s.trace r v.accounts sent in_job;
              ends_last = λ e. absurd (cc);
              all_counted = v.all_counted;
            };
            narrows = λ out (more, e, k). (
              more,
              e ∙ ap (λ c. c ++ more) sent.completed,
              runs_long t s.cur_time s.remain (task p) (tasks ps) (tasks s.unforked) more in_job
                  in_quantum (subst (λ c. NoneBefore c (tasks s.unforked)) (sym end) before)
                  (subst
                    (λ c.
                      Robin 500 c (s.remain - t) (shorter (task p) t ∷ tasks ps) (tasks s.unforked)
                        more)
                    (sym end)
                    (subst
                      (λ x.
                        Robin 500 next.r_time (s.remain - t) (x ∷ tasks ps) (tasks s.unforked) more)
                      (task-less_left p r.0 t sent.same_task) k)),
            );
            less = omega (arith, reached, some_pending, same);
          })

  pub run_quantum-Turned :
      s.remain < p.remain_time
      → NoneBefore (s.cur_time + s.remain) (tasks s.unforked)
      → Ends priority_checked os (Turned n s (p ∷ ps)) (run_quantum os job p s)
  unfolding run_quantum
  run_quantum-Turned in_job before =
      let t = s.remain in
      let c = s.cur_time + t in
      Ends.bind (run_job-Sent os p t s.trace) λ r sent.
        let same = same_remain p r.0 sent.same_task in
        let p' = less_left r.0 t in
        let back : tasks (ps ++ p' ∷ []) ≡ tasks ps ++ shorter (task p) t ∷ [] =
          tasks-append ps (p' ∷ [])
          ∙ ap (λ x. tasks ps ++ x ∷ []) (task-less_left p r.0 t sent.same_task) in
        heap_do-Ends (λ _ h. Holds h (some job) (p' ∷ ps)) _ _
          (set_process-Holds s.heap job p p' ps held)
          λ _ h hold.
            heap_do-Ends (λ job' h'. Holds h' job' (ps ++ p' ∷ [])) _ _
              (next_job-Holds h job p' ps hold)
              λ job' h' hold'. ends (record {
                queue = ps ++ p' ∷ [];
                valid = record {
                  holds = hold';
                  counted = omega (arith, sent.passed, v.counted);
                  some_left = omega arith;
                  within = omega arith;
                  unfinished =
                      All-append _ ps (p' ∷ []) v.unfinished.1 (omega (arith, same, in_job), tt);
                  unstarted = v.unstarted;
                  pending = pending_until c s.unforked v.sorted before;
                  sorted = v.sorted;
                  untouched = v.untouched;
                  accounts =
                      rotated s.unforked ps p' r.1
                        (Accounts-slice p ps s.unforked t s.trace r v.accounts sent in_job);
                  ends_last = λ e. absurd (snoc_nil ps p' e);
                  all_counted = omega (arith, v.all_counted, length-append ps (p' ∷ []));
                };
                narrows = λ out (more, e, k). (
                  more,
                  e ∙ ap (λ l. l ++ more) sent.completed,
                  expires_long s.cur_time t (task p) (tasks ps) (tasks s.unforked) more v.some_left
                      in_job before (subst (λ q. Robin 500 c 500 q (tasks s.unforked) more) back k),
                );
                less = omega (
                  arith,
                  same,
                  in_job,
                  v.some_left,
                  total-append ps (p' ∷ []),
                  length-append ps (p' ∷ []),
                  gap-pend c s.unforked,
                );
              })
