-- ===== src/Rr/Results/Turning.antt =====
-- prj1/rr.c: what the fields of the jobs hold, through a round.
use os2016spring.Base.{
  ℕ, ◌+◌, zero, true, ap, if◌then◌else◌, suc, ◌-◌, ◌<◌, ◌≡◌, refl, sym, subst, false, inl, inr,
  List, [], ◌∷◌, ◌++◌, Bool-cases, Option, none, some, ltb, ◌&&◌, ◌==◌, arith,
}
use os2016spring.Os.{Event, Os, Trace, Outcome, ok, blocked, is_sent}
use os2016spring.Os.Returns
use os2016spring.Os.Returns.{Returns, returns, exits, faults, waits, Ends-Returns, loop_keeps}
use os2016spring.Results.{reports, Facts}
use os2016spring.Results.Books.{Books, Books-silent, Books-reap_print}
use os2016spring.ReadyList.{remove_list, PStruct, Heap}
use os2016spring.ReadyList.Steps as Steps
use os2016spring.ReadyList.Queue.{
  Holds, Holds-none, process-Holds, set_process-Holds, next_job-Holds, remove_list-Holds,
  add_list-Holds,
}
use os2016spring.Rr.{
  time_quantum, State, heap_do, wait_for_job, take_in, arrive, idle, run_job, run_until,
  run_quantum, run_out, run_alone, run, turn_of, turn, round,
}
use os2016spring.Rr.Results.{
  left, Recorded, Started, entry_of, send_job-Started, run_job-Recorded, fork_child-Recorded,
  Recorded-turn,
}

-- The list holds jobs whose fields hold what has happened.
pub record IsRecorded (os : Os) (s : State) : Type 0 where
  pub queue : List PStruct
  pub holds : Holds s.heap s.cur_job queue
  pub recorded : Recorded os queue s.unforked s.trace

heap_do-Returns :
    {A B : Type 0} {P : B → Type 0} (Q : A → Heap → Type 0) (r : Option (A × Heap))
    (k : A → Heap → Outcome B)
    → Steps.Returns Q r
    → ((a : A) (h : Heap) → Q a h → Returns P (k a h))
    → Returns P (heap_do r k)
heap_do-Returns Q none k ret next = absurd ret
heap_do-Returns Q (some (a, h)) k ret next = next a h ret

module _ {os : Os} where
  wait_for_job-Recorded :
      (n : ℕ) (t : Trace) (queue unforked : List PStruct)
      → Recorded os queue unforked t
      → Recorded os queue unforked (wait_for_job n t)
  unfolding wait_for_job
  wait_for_job-Recorded zero t queue unforked r = r
  wait_for_job-Recorded (suc n) t queue unforked r =
      wait_for_job-Recorded n (Event.tick ∷ t) queue unforked (record {
        books = Books-silent (left queue unforked) (λ _. refl) refl (λ h. h) r.books;
        bounded = r.bounded;
        untouched = r.untouched;
      })

  take_in-Recorded :
      (p : PStruct) (later : List PStruct) (s : State) (queue : List PStruct)
      → Holds s.heap s.cur_job queue
      → Recorded os queue (p ∷ later) s.trace
      → Returns (IsRecorded os) (take_in os p later s)
  unfolding take_in
  take_in-Recorded p later s queue holds r =
      Returns.bind (fork_child-Recorded p queue later s.trace r) λ (p', t) r'.
        heap_do-Returns (λ job h. Holds h job (queue ++ p' ∷ [])) _ _
          (add_list-Holds s.heap s.cur_job queue p' holds)
          λ job h holds'.
            returns (record { queue = queue ++ p' ∷ []; holds = holds'; recorded = r' })

  arrive-Recorded :
      (unforked : List PStruct) (s : State)
      → s.unforked ≡ unforked
      → IsRecorded os s
      → Returns (IsRecorded os) (arrive os unforked s)
  unfolding arrive
  arrive-Recorded [] s u r = returns r
  arrive-Recorded (p ∷ later) s u r = elim (Bool-cases (p.r_time == s.cur_time)) [
    | inr e ↦ rw e (returns r)
    | inl e ↦ rw e (
        take_in-Recorded p later s r.queue r.holds
          (subst (λ l. Recorded os r.queue l s.trace) u r.recorded))
  ]

  idle-Recorded :
      (unforked : List PStruct) (s : State)
      → IsRecorded os s
      → Returns (IsRecorded os) (idle unforked s)
  unfolding idle
  idle-Recorded [] s r = faults
  idle-Recorded (p ∷ _) s r = returns (record {
    queue = r.queue;
    holds = r.holds;
    recorded = wait_for_job-Recorded (p.r_time - s.cur_time) s.trace r.queue s.unforked r.recorded;
  })

  module _ (s : State) (job : ℕ) (p : PStruct) (rest : List PStruct)
      (holds : Holds s.heap (some job) (p ∷ rest))
      (r : Recorded os (p ∷ rest) s.unforked s.trace) where
    run_until-Recorded :
        (r_time : ℕ)
        → r_time - s.cur_time < p.remain_time
        → s.cur_job ≡ some job
        → Returns (IsRecorded os) (run_until os job p r_time s)
    unfolding run_until
    run_until-Recorded r_time less here =
        let time = r_time - s.cur_time in
        Returns.bind (run_job-Recorded p time s.trace rest s.unforked less r) λ (p', t) r'.
          let now = record p' { remain_time = p'.remain_time - time } in
          heap_do-Returns (λ _ h. Holds h (some job) (now ∷ rest)) _ _
            (set_process-Holds s.heap job p now rest holds)
            λ _ h holds'. returns (record {
              queue = now ∷ rest;
              holds = subst (λ j. Holds h j (now ∷ rest)) (sym here) holds';
              recorded = r';
            })

    run_quantum-Recorded :
        s.remain < p.remain_time → Returns (IsRecorded os) (run_quantum os job p s)
    unfolding run_quantum
    run_quantum-Recorded less =
        Returns.bind (run_job-Recorded p s.remain s.trace rest s.unforked less r) λ (p', t) r'.
          let now = record p' { remain_time = p'.remain_time - s.remain } in
          heap_do-Returns (λ _ h. Holds h (some job) (now ∷ rest)) _ _
            (set_process-Holds s.heap job p now rest holds)
            λ _ h holds'.
              heap_do-Returns (λ job' h'. Holds h' job' (rest ++ now ∷ [])) _ _
                (next_job-Holds h job now rest holds')
                λ job' h' holds''. returns (record {
                  queue = rest ++ now ∷ [];
                  holds = holds'';
                  recorded = Recorded-turn now rest s.unforked t r';
                })

    ended :
        (sent : PStruct × Trace)
        → Started os p (left rest s.unforked) (reports s.trace) sent
        → Recorded os rest s.unforked (
            Event.print_result (sent.0).pid (sent.0).started_at (os.gettime sent.1)
            ∷ Event.reap (sent.0).pipe
            ∷ sent.1)
    ended sent b = record {
      books =
          Books-reap_print (sent.0).pipe (sent.0).pid (sent.0).started_at (left rest s.unforked)
            (subst (Books os sent.1 _) (sym b.same_reports) b.books);
      bounded = r.bounded.1;
      untouched = r.untouched;
    }

    reaped :
        (sent : PStruct × Trace)
        → Started os p (left rest s.unforked) (reports s.trace) sent
        → Returns (IsRecorded os) (
            if is_sent (sent.0).pipe sent.1
            then (heap_do (remove_list job s.heap) λ job' h. ok (record s {
              heap = h;
              cur_job = job';
              finish = s.finish + 1;
              cur_time = s.cur_time + (sent.0).remain_time;
              remain = time_quantum;
              trace =
                  Event.print_result (sent.0).pid (sent.0).started_at (os.gettime sent.1)
                  ∷ Event.reap (sent.0).pipe
                  ∷ sent.1;
            }))
            else blocked sent.1)
    reaped sent b =
        let written : is_sent (sent.0).pipe sent.1 ≡ true =
          ap (λ (k : Facts). k.3) b.books.tells.0 in
        rw written (
          heap_do-Returns (λ job' h. Holds h job' rest) _ _
            (remove_list-Holds s.heap job p rest holds)
            λ job' h holds'.
              returns (record { queue = rest; holds = holds'; recorded = ended sent b }))

    run_out-Recorded : Returns (IsRecorded os) (run_out os job p s)
    unfolding run_out run_job
    run_out-Recorded = elim (Bool-cases (p.remain_time == 0)) [
      | inr e ↦
          rw (e, run_job)
            (Returns.bind (send_job-Started p p.remain_time s.trace (left rest s.unforked) r.books)
              reaped)
      | inl e ↦ elim (Bool-cases (p.remain_time == p.e_time)) [
        | inl new ↦
            let unsent : is_sent p.pipe s.trace ≡ false =
              ap (λ (k : Facts). k.3) (entry_of p true new r.books).tells.0 in
            rw (e, run_job) (rw unsent waits)
        | inr old ↦
            rw (e, run_job)
              (reaped (p, s.trace)
                (record {
                  remain_time = refl;
                  e_time = refl;
                  books = entry_of p false old r.books;
                  same_reports = refl;
                }))
      ]
    ]

    run_alone-Recorded : Returns (IsRecorded os) (run_alone os job p s)
    unfolding run_alone
    run_alone-Recorded = elim (Bool-cases (ltb s.remain p.remain_time)) [
      | inl e ↦ rw e (run_quantum-Recorded (ground arith))
      | inr e ↦ rw e run_out-Recorded
    ]

    run-Recorded :
        (unforked : List PStruct)
        → s.cur_job ≡ some job
        → Returns (IsRecorded os) (run os job p unforked s)
    unfolding run
    run-Recorded [] here = run_alone-Recorded
    run-Recorded (next ∷ _) here = elim (Bool-cases (ltb next.r_time s.cur_time)) [
      | inl e ↦ rw e faults
      | inr e ↦
          let time = next.r_time - s.cur_time in
          elim (Bool-cases (ltb time s.remain && ltb time p.remain_time)) [
            | inl e' ↦ rw (e, e') (run_until-Recorded next.r_time (ground arith) here)
            | inr e' ↦ rw (e, e') run_alone-Recorded
          ]
    ]

  turn_of-Recorded :
      (cur_job : Option ℕ) (s : State) (queue : List PStruct)
      → s.cur_job ≡ cur_job
      → Holds s.heap cur_job queue
      → Recorded os queue s.unforked s.trace
      → Returns (IsRecorded os) (turn_of os cur_job s)
  unfolding turn_of
  turn_of-Recorded none s queue here holds r = idle-Recorded s.unforked s (record {
    queue = queue;
    holds = subst (λ j. Holds s.heap j queue) (sym here) holds;
    recorded = r;
  })
  turn_of-Recorded (some job) s [] here holds r = absurd (cc (Holds-none s.heap (some job) holds))
  turn_of-Recorded (some job) s (p ∷ rest) here holds r =
      rw (process-Holds s.heap job p rest holds) (run-Recorded s job p rest holds r s.unforked here)

  pub round-Recorded : (s : State) → IsRecorded os s → Returns (IsRecorded os) (round os s)
  unfolding round turn
  round-Recorded s r =
      Returns.bind (arrive-Recorded s.unforked s refl r)
        λ s' r'. turn_of-Recorded s'.cur_job s' r'.queue refl r'.holds r'.recorded
