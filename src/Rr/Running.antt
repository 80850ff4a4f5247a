-- ===== src/Rr/Running.antt =====
-- A turn of rr.c: the first job runs on, or to its end.
use os2016spring.Base.{
  true, ℕ, ◌+◌, ◌-◌, ◌≤◌, ◌<◌, ◌≡◌, refl, sym, ap, ◌∙◌, subst, false, inl, inr, some, List, [], ◌∷◌,
  ◌++◌, append_assoc, All, ltb, ◌&&◌, Bool-cases, arith,
}
use os2016spring.Os.{elapsed, is_sent, completions, Os}
use os2016spring.Os.Ends
use os2016spring.Os.Ends.{priority_checked, Ends, ends, priority_refused}
use os2016spring.Task.{Task}
use os2016spring.Rr.Sending.{run_job-Sent, completion, same_remain, Accounts-end}
use os2016spring.ReadyList.{PStruct}
use os2016spring.ReadyList.Queue.{Holds, remove_list-Holds}
use os2016spring.Rr.{State, run_out, run_alone, run}
use os2016spring.Rr.Robin.{Robin, NoneBefore, shorter}
use os2016spring.Rr.Slices.{completes_long}
use os2016spring.Complete.{Latest, Latest-last}
use os2016spring.Rr.Invariant.{task, tasks, IsValid, gap-pend, Turned, heap_do-Ends}
use os2016spring.Rr.Slicing.{held, pending_until, run_until-Turned, run_quantum-Turned}

module _ (os : Os) (n : ℕ) (s : State) (job : ℕ) (p : PStruct) (ps : List PStruct)
    (v : IsValid n s (p ∷ ps)) (at_job : s.cur_job ≡ some job) where
  run_out-Turned :
      p.remain_time ≤ s.remain
      → NoneBefore (s.cur_time + p.remain_time) (tasks s.unforked)
      → Ends priority_checked os (Turned n s (p ∷ ps)) (run_out os job p s)
  unfolding run_out
  run_out-Turned in_quantum before =
      let c = s.cur_time + p.remain_time in
      Ends.bind (run_job-Sent os p p.remain_time s.trace) λ r sent.
        let same = same_remain p r.0 sent.same_task in
        let written : is_sent r.0.pipe r.1 ≡ true = sent.written (ground (arith, v.unfinished.0)) in
        let end : s.cur_time + r.0.remain_time ≡ c = ap (λ b. s.cur_time + b) same in
        let reaped =
          completion {a = r.0.pipe} {a' = p.pipe} {b = elapsed r.1} {b' = c}
            (ap (λ (x : Task). x.pipe) sent.same_task) (omega (arith, sent.passed, v.counted)) in
        rw written (
          heap_do-Ends (λ job' h. Holds h job' ps) _ _
            (remove_list-Holds s.heap job p ps (held os n s job p ps v at_job))
            λ job' h hold. ends (record {
              queue = ps;
              valid = record {
                holds = hold;
                counted = omega (arith, sent.passed, same, v.counted);
                some_left = omega arith;
                within = omega arith;
                unfinished = v.unfinished.1;
                unstarted = v.unstarted;
                pending =
                    pending_until (s.cur_time + r.0.remain_time) s.unforked v.sorted
                      (subst (λ u. NoneBefore u (tasks s.unforked)) (sym end) before);
                sorted = v.sorted;
                untouched = v.untouched;
                accounts =
                    Accounts-end p ps s.unforked p.remain_time s.trace r v.accounts sent
                      r.0.started_at (os.gettime r.1) refl v.unfinished.0;
                ends_last = λ _ _.
                    subst (λ c'. Latest c' (completions r.1 ++ (r.0.pipe, elapsed r.1) ∷ []))
                      (omega (arith, sent.passed, same, v.counted))
                      (Latest-last (completions r.1) (r.0.pipe, elapsed r.1));
                all_counted = omega (arith, v.all_counted);
              };
              narrows = λ out (more, e, k). (
                (p.pipe, c) ∷ more,
                e
                    ∙ ap (λ l. (l ++ (r.0.pipe, elapsed r.1) ∷ []) ++ more) sent.completed
                    ∙ ap (λ x. (completions s.trace ++ x ∷ []) ++ more) reaped
                    ∙ append_assoc (completions s.trace) ((p.pipe, c) ∷ []) more,
                completes_long s.cur_time s.remain (task p) (tasks ps) (tasks s.unforked) more
                    v.unfinished.0 in_quantum before
                    (subst (λ u. Robin 500 u 500 (tasks ps) (tasks s.unforked) more) end k),
              );
              less =
                  omega (arith, v.unfinished.0, gap-pend (s.cur_time + r.0.remain_time) s.unforked);
            }))

  run_alone-Turned :
      (s.remain < p.remain_time → NoneBefore (s.cur_time + s.remain) (tasks s.unforked))
      → (p.remain_time ≤ s.remain → NoneBefore (s.cur_time + p.remain_time) (tasks s.unforked))
      → Ends priority_checked os (Turned n s (p ∷ ps)) (run_alone os job p s)
  unfolding run_alone
  run_alone-Turned in_quantum in_job = elim (Bool-cases (ltb s.remain p.remain_time)) [
    | inl longer ↦
        let h : s.remain < p.remain_time = ground arith in
        rw longer (run_quantum-Turned os n s job p ps v at_job h (in_quantum h))
    | inr shorter ↦
        let h : p.remain_time ≤ s.remain = ground arith in rw shorter (run_out-Turned h (in_job h))
  ]

  pub run-Turned :
      (u : List PStruct)
      → s.unforked ≡ u
      → Ends priority_checked os (Turned n s (p ∷ ps)) (run os job p u s)
  unfolding run
  run-Turned [] un =
      run_alone-Turned (λ _. subst (λ u. NoneBefore (s.cur_time + s.remain) (tasks u)) (sym un) tt)
        (λ _. subst (λ u. NoneBefore (s.cur_time + p.remain_time) (tasks u)) (sym un) tt)
  run-Turned (next ∷ later) un =
      let t = next.r_time - s.cur_time in
      let first : s.cur_time ≤ next.r_time =
        (subst (All (λ (q : PStruct). s.cur_time ≤ q.r_time)) un v.pending).0 in
      let not_past : ltb next.r_time s.cur_time ≡ false = ground arith in
      elim (Bool-cases (ltb t s.remain && ltb t p.remain_time)) [
        | inl both ↦
            rw (not_past, both)
              (run_until-Turned os n s job p ps v at_job next later un (ground arith)
                (ground arith))
        | inr either ↦
            rw (not_past, either)
              (run_alone-Turned
                (λ h.
                  subst (λ u. NoneBefore (s.cur_time + s.remain) (tasks u)) (sym un) (ground arith))
                (λ h.
                  subst (λ u. NoneBefore (s.cur_time + p.remain_time) (tasks u)) (sym un)
                    (ground arith)))
      ]
