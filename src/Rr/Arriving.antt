-- ===== src/Rr/Arriving.antt =====
-- The first half of a round of rr.c: the next job is taken in when its time has come.
use os2016spring.Base.{
  ℕ, ◌+◌, ◌≤◌, ◌<◌, ◌≡◌, refl, sym, ap, subst, inl, inr, List, [], ◌∷◌, ◌++◌, All, All-append,
  length, length-append, ◌==◌, Bool-cases, Option-cases, arith,
}
use os2016spring.Os.{Event, Trace, Os}
use os2016spring.Os.Ends
use os2016spring.Os.Ends.{priority_checked, Ends, ends, fork_failed}
use os2016spring.Qsort.{IsSorted}
use os2016spring.Served.Accounts.{Accounts, Accounts-spawn}
use os2016spring.ReadyList.{PStruct}
use os2016spring.ReadyList.Queue.{Holds, add_list-Holds}
use os2016spring.Rr.{State, fork_child, take_in, arrive, round}
use os2016spring.Rr.Robin.{Robin, arrives}
use os2016spring.Rr.Invariant.{
  snoc_nil, task, tasks, tasks-append, total, total-append, IsValid, Narrows, pend, gap,
  pend-le-one, base, work, Went, heap_do-Ends,
}
use os2016spring.Rr.Turning.{Stirs, turn-Turned}

-- A job has been taken in, or none is due.
record Came (n : ℕ) (s : State) (ps : List PStruct) (s' : State) : Type 0 where
  queue : List PStruct
  valid : IsValid n s' queue
  narrows : Narrows s ps s' queue
  stirs : Stirs s' queue
  less : base s' queue + pend s'.unforked ≤ work s ps

Stirs-snoc : (s : State) (ps : List PStruct) (p : PStruct) → Stirs s (ps ++ p ∷ [])
Stirs-snoc s [] p = tt
Stirs-snoc s (_ ∷ _) p = tt

Stirs-last :
    (s : State) (ps : List PStruct)
    → s.unforked ≡ []
    → 0 < length ps + length s.unforked
    → Stirs s ps
Stirs-last s [] un some_job = absurd (omega (arith, ap length un))
Stirs-last s (_ ∷ _) un some_job = tt

Stirs-ahead :
    (s : State) (ps : List PStruct) (next : PStruct) (later : List PStruct)
    → s.unforked ≡ next ∷ later
    → s.cur_time < next.r_time
    → Stirs s ps
Stirs-ahead s [] next later un ahead = (next, later, un, ahead)
Stirs-ahead s (_ ∷ _) next later un ahead = tt

-- A job that is forked is owed its whole execution time.
spawned :
    (ps later : List PStruct) (p : PStruct) (pid : ℕ) (t : Trace)
    → p.remain_time ≡ p.e_time
    → Accounts t (tasks ps) (tasks (p ∷ later))
    → Accounts
        (Event.spawn pid p.pipe p.name p.e_time ∷ t)
        (tasks (ps ++ record p { pid = pid } ∷ []))
        (tasks later)
spawned ps later p pid t whole a =
    subst (λ q. Accounts (Event.spawn pid p.pipe p.name p.e_time ∷ t) q (tasks later))
      (sym (tasks-append ps (record p { pid = pid } ∷ [])))
      (subst
        (λ e.
          Accounts (Event.spawn pid p.pipe p.name e ∷ t) (tasks ps ++ task p ∷ []) (tasks later))
        whole (Accounts-spawn t (tasks ps) (tasks later) pid p.name (task p) a))

module _ (os : Os) (n : ℕ) (s : State) (ps : List PStruct) (v : IsValid n s ps) where
  take_in-Came :
      (p : PStruct) (later : List PStruct)
      → s.unforked ≡ p ∷ later
      → p.r_time ≡ s.cur_time
      → Ends priority_checked os (Came n s ps) (take_in os p later s)
  unfolding take_in fork_child
  take_in-Came p later un now = elim (Option-cases (os.fork s.trace)) [
    | inl e ↦ rw (e, take_in, fork_child) (fork_failed s.trace e)
    | inr (pid, e) ↦
        let p' = record p { pid = pid } in
        let due = subst (All (λ (q : PStruct). 0 < q.remain_time)) un v.unstarted in
        let untouched = subst (All (λ (q : PStruct). q.remain_time ≡ q.e_time)) un v.untouched in
        rw (e, take_in, fork_child)
          (heap_do-Ends (λ job h. Holds h job (ps ++ p' ∷ [])) _ _
            (add_list-Holds s.heap s.cur_job ps p' v.holds)
            λ job h hold. ends (record {
              queue = ps ++ p' ∷ [];
              valid = record {
                holds = hold;
                counted = v.counted;
                some_left = v.some_left;
                within = v.within;
                unfinished = All-append _ ps (p' ∷ []) v.unfinished (due.0, tt);
                unstarted = due.1;
                pending = (subst (All (λ (q : PStruct). s.cur_time ≤ q.r_time)) un v.pending).1;
                sorted = (subst (IsSorted (λ (q : PStruct). q.r_time)) un v.sorted).1;
                untouched = untouched.1;
                accounts =
                    spawned ps later p pid s.trace untouched.0
                      (subst (λ u. Accounts s.trace (tasks ps) (tasks u)) un v.accounts);
                ends_last = λ e. absurd (snoc_nil ps p' e);
                all_counted =
                    omega (arith, v.all_counted, length-append ps (p' ∷ []), ap length un);
              };
              narrows = λ out (more, e, k). (
                more,
                e,
                subst (λ u. Robin 500 s.cur_time s.remain (tasks ps) (tasks u) more) (sym un)
                    (arrives (task p) now (
                      subst (λ q. Robin 500 s.cur_time s.remain q (tasks later) more)
                        (tasks-append ps (p' ∷ [])) k)),
              );
              stirs =
                  Stirs-snoc
                    (record s {
                      heap = h;
                      cur_job = job;
                      unforked = later;
                      trace = Event.spawn pid p.pipe p.name p.e_time ∷ s.trace;
                    })
                    ps p';
              less = omega (
                arith,
                total-append ps (p' ∷ []),
                length-append ps (p' ∷ []),
                ap length un,
                ap total un,
                pend-le-one later,
              );
            }))
  ]

  arrive-Came :
      (u : List PStruct)
      → s.unforked ≡ u
      → 0 < length ps + length s.unforked
      → Ends priority_checked os (Came n s ps) (arrive os u s)
  unfolding arrive
  arrive-Came [] un some_job = ends (record {
    queue = ps;
    valid = v;
    narrows = λ out k. k;
    stirs = Stirs-last s ps un some_job;
    less = omega (arith, ap pend un);
  })
  arrive-Came (p ∷ later) un some_job = elim (Bool-cases (p.r_time == s.cur_time)) [
    | inl now ↦ rw now (take_in-Came p later un (ground arith))
    | inr miss ↦
        let first = (subst (All (λ (q : PStruct). s.cur_time ≤ q.r_time)) un v.pending).0 in
        let gapped : gap s.cur_time s.unforked ≡ 1 =
          subst (λ u. gap s.cur_time u ≡ 1) (sym un) (ground arith) in
        rw miss (
          ends (record {
            queue = ps;
            valid = v;
            narrows = λ out k. k;
            stirs = Stirs-ahead s ps p later un (ground arith);
            less = omega (arith, ap pend un, gapped);
          }))
  ]

  -- A round keeps the invariant, and brings the loop nearer to its end.
  pub round-Went :
      0 < length ps + length s.unforked → Ends priority_checked os (Went n s ps) (round os s)
  unfolding round
  round-Went some_job = Ends.bind (arrive-Came s.unforked refl some_job) λ s1 came.
      Ends.mono (turn-Turned os n s1 came.queue came.valid came.stirs) λ s2 t. record {
        queue = t.queue;
        valid = t.valid;
        narrows = λ out k. came.narrows out (t.narrows out k);
        less = omega (arith, came.less, t.less);
      }
