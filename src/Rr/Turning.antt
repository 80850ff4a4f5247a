-- ===== src/Rr/Turning.antt =====
-- A turn of rr.c: the first job runs, or the next arrival is waited for.
use os2016spring.Base.{
  ℕ, zero, suc, ◌+◌, ◌-◌, ◌<◌, ◌≡◌, refl, sym, ap, ◌∙◌, subst, List, [], ◌∷◌, ◌++◌, arith,
}
use os2016spring.Os.{Event, Trace, elapsed, completions, Os}
use os2016spring.Os.Ends.{priority_checked, Ends, ends}
use os2016spring.Served.Writing.{Quiet-tick}
use os2016spring.Served.Accounts.{Accounts, Accounts-Quiet}
use os2016spring.ReadyList.{PStruct}
use os2016spring.ReadyList.Queue.{Holds-some, Holds-none, process-Holds}
use os2016spring.Rr.{State, wait_for_job, heap_do, idle, run, turn_of, turn}
use os2016spring.Rr.Robin.{Robin, NoneBefore}
use os2016spring.Rr.Slices.{idles_long}
use os2016spring.Rr.Invariant.{task, tasks, IsValid, pend, gap, Turned}
use os2016spring.Rr.Slicing.{held, pending_until}
use os2016spring.Rr.Running.{run-Turned}

wait_for_job-elapsed : (k : ℕ) (t : Trace) → elapsed (wait_for_job k t) ≡ elapsed t + k
unfolding wait_for_job
wait_for_job-elapsed zero t = omega arith
wait_for_job-elapsed (suc k) t = omega (arith, wait_for_job-elapsed k (Event.tick ∷ t))

pub wait_for_job-completions : (k : ℕ) (t : Trace) → completions (wait_for_job k t) ≡ completions t
unfolding wait_for_job
wait_for_job-completions zero t = refl
wait_for_job-completions (suc k) t = wait_for_job-completions k (Event.tick ∷ t)

wait_for_job-Accounts :
    (k : ℕ) (t : Trace) (u : List PStruct)
    → Accounts t [] (tasks u)
    → Accounts (wait_for_job k t) [] (tasks u)
unfolding wait_for_job
wait_for_job-Accounts zero t u a = a
wait_for_job-Accounts (suc k) t u a =
    wait_for_job-Accounts k (Event.tick ∷ t) u (Accounts-Quiet [] (tasks u) (Quiet-tick t) a)

-- A job is ready, or one is to come.
abbrev pub Stirs : State → List PStruct → Type 0
Stirs s [] =
    (next : PStruct) × (later : List PStruct) × (s.unforked ≡ next ∷ later)
    × (s.cur_time < next.r_time)
Stirs s (_ ∷ _) = Unit

module _ (os : Os) (n : ℕ) (s : State) where
  idle-Turned :
      (next : PStruct) (later : List PStruct)
      → IsValid n s []
      → s.unforked ≡ next ∷ later
      → s.cur_time < next.r_time
      → Ends priority_checked os (Turned n s []) (idle (next ∷ later) s)
  unfolding idle
  idle-Turned next later v un ahead =
      let t = next.r_time - s.cur_time in
      let before : NoneBefore next.r_time (tasks s.unforked) =
        subst (λ u. NoneBefore next.r_time (tasks u)) (sym un) (omega arith) in
      let reached : gap next.r_time s.unforked ≡ 0 =
        subst (λ u. gap next.r_time u ≡ 0) (sym un) (ground arith) in
      let some_pending : pend s.unforked ≡ 1 = ap pend un in
      ends (record {
        queue = [];
        valid = record {
          holds = v.holds;
          counted = omega (arith, wait_for_job-elapsed t s.trace, v.counted);
          some_left = omega arith;
          within = omega arith;
          unfinished = tt;
          unstarted = v.unstarted;
          pending = pending_until next.r_time s.unforked v.sorted before;
          sorted = v.sorted;
          untouched = v.untouched;
          accounts = wait_for_job-Accounts t s.trace s.unforked v.accounts;
          ends_last = λ _ over. absurd (ground (arith, un, over));
          all_counted = v.all_counted;
        };
        narrows = λ out (more, e, k). (
          more,
          e ∙ ap (λ c. c ++ more) (wait_for_job-completions t s.trace),
          subst (λ u. Robin 500 s.cur_time s.remain [] (tasks u) more) (sym un)
              (idles_long t s.cur_time s.remain (task next) (tasks later) more (omega arith)
                (omega arith) (subst (λ u. Robin 500 next.r_time 500 [] (tasks u) more) un k)),
        );
        less = omega (arith, reached, some_pending);
      })

  pub turn-Turned :
      (ps : List PStruct)
      → IsValid n s ps
      → Stirs s ps
      → Ends priority_checked os (Turned n s ps) (turn os s)
  unfolding turn turn_of
  turn-Turned [] v (next, later, un, ahead) =
      subst (λ j. Ends priority_checked os (Turned n s []) (turn_of os j s))
        (sym (Holds-none s.heap s.cur_job v.holds))
        (subst (λ u. Ends priority_checked os (Turned n s []) (idle u s)) (sym un)
          (idle-Turned next later v un ahead))
  turn-Turned (p ∷ ps) v stirs =
      let (job, at_job) = Holds-some s.heap s.cur_job p ps v.holds in
      subst (λ j. Ends priority_checked os (Turned n s (p ∷ ps)) (turn_of os j s)) (sym at_job)
        (subst
          (λ r.
            Ends priority_checked os (Turned n s (p ∷ ps))
              (heap_do r (λ q _. run os job q s.unforked s)))
          (sym (process-Holds s.heap job p ps (held os n s job p ps v at_job)))
          (run-Turned os n s job p ps v at_job s.unforked refl))
