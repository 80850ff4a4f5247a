-- ===== src/Rr/Results.antt =====
-- prj1/rr.c: what the fields of a job hold, where it is forked and where it is sent a slice.
pub mod Turning
pub mod Printing
use mathlib.Core.List.{Permᴰ}
use mathlib.Core.List.Permᴰ
use os2016spring.Base.{
  ℕ, ◌-◌, ◌≤◌, ◌<◌, ◌≡◌, refl, sym, subst, Bool, true, false, inl, inr, List, [], ◌∷◌, ◌++◌, map,
  map-append, All, All-append, Bool-cases, Option-cases, if◌then◌else◌, ◌==◌, arith,
}
use os2016spring.Os.{Event, Os, Trace}
use os2016spring.Os.Returns
use os2016spring.Os.Returns.{Returns, returns, exits}
use os2016spring.Results.{Result, reports}
use os2016spring.Results.Books.{
  Entry, Books, Books-perm, Books-silent, Books-spawn, Books-start, Books-send, to_start,
}
use os2016spring.ReadyList.{PStruct}
use os2016spring.Rr.{fork_child, record_first, send_job, run_job}

-- What is known of a forked job that has not run yet, or has.
abbrev known : PStruct → (new : Bool) → Entry
known p new =
    (p.pipe, (p.pid ∷ [], if new then [] else p.started_at ∷ [], [], if new then false else true))

-- What is known of a job that is forked: its start is read once it has run.
abbrev pub forked_entry : PStruct → Entry
forked_entry p = known p (p.remain_time == p.e_time)

abbrev pub left : (queue unforked : List PStruct) → List Entry
left queue unforked = map forked_entry queue ++ to_start (λ (p : PStruct). p.pipe) unforked

-- The fields of the jobs hold what has happened, and the lines are printed as the jobs are reaped.
pub record Recorded (os : Os) (queue unforked : List PStruct) (t : Trace) : Type 0 where
  pub books : Books os t (left queue unforked) (reports t)
  pub bounded : All (λ (p : PStruct). p.remain_time ≤ p.e_time) queue
  pub untouched : All (λ (p : PStruct). p.remain_time ≡ p.e_time) unforked

-- A slice has been written: the start of the job is recorded.
pub record Started (os : Os) (p : PStruct) (others : List Entry) (due : List Result)
    (sent : PStruct × Trace) : Type 0 where
  pub remain_time : (sent.0).remain_time ≡ p.remain_time
  pub e_time : (sent.0).e_time ≡ p.e_time
  pub books :
      Books os sent.1
        (((sent.0).pipe, ((sent.0).pid ∷ [], (sent.0).started_at ∷ [], [], true)) ∷ others)
        due
  pub same_reports : reports sent.1 ≡ due

-- The slice that is written next starts the job, or the job has been started.
record Begins (os : Os) (p : PStruct) (time : ℕ) (others : List Entry) (due : List Result)
    (sent : PStruct × Trace) : Type 0 where
  started : Started os p others due (sent.0, Event.send (sent.0).pipe time ∷ sent.1)

module _ {os : Os} where
  -- The entry of a job, by whether it has run.
  pub entry_of :
      {t : Trace} {others : List Entry} {due : List Result} (p : PStruct) (new : Bool)
      → (p.remain_time == p.e_time) ≡ new
      → Books os t (forked_entry p ∷ others) due
      → Books os t (known p new ∷ others) due
  entry_of {t = t} {others = others} {due = due} p new e b =
      subst (λ c. Books os t (known p c ∷ others) due) e b

  record_first-Begins :
      (p : PStruct) (time : ℕ) (t : Trace) (others : List Entry)
      → Books os t (forked_entry p ∷ others) (reports t)
      → Begins os p time others (reports t) (record_first os p t)
  unfolding record_first
  record_first-Begins p time t others b =
      let first : PStruct × Trace =
        (record p { started_at = os.gettime t }, Event.start_time p.pipe ∷ t) in
      let P : Bool → Type 0 =
        λ c. Begins os p time others (reports t) (if c then first else (p, t)) in
      elim (Bool-cases (p.remain_time == p.e_time)) [
        | inr old ↦ subst P (sym old) (record {
          started = record {
            remain_time = refl;
            e_time = refl;
            books = Books-send p.pipe p.pid time p.started_at others (entry_of p false old b);
            same_reports = refl;
          };
        })
        | inl new ↦ subst P (sym new) (record {
          started = record {
            remain_time = refl;
            e_time = refl;
            books = Books-start p.pipe p.pid time others (entry_of p true new b);
            same_reports = refl;
          };
        })
      ]

  pub send_job-Started :
      (p : PStruct) (time : ℕ) (t : Trace) (others : List Entry)
      → Books os t (forked_entry p ∷ others) (reports t)
      → Returns (Started os p others (reports t)) (send_job os p time t)
  unfolding send_job
  send_job-Started p time t others b =
      let s = (record_first-Begins p time t others b).started in
      let (p', t') = record_first os p t in
      elim (Bool-cases (os.sched_setscheduler (Event.send p'.pipe time ∷ t'))) [
        | inr e ↦ rw e exits
        | inl e ↦ rw e (
            returns (record {
              remain_time = s.remain_time;
              e_time = s.e_time;
              books = Books-silent _ (λ _. refl) refl (λ h. h) s.books;
              same_reports = s.same_reports;
            }))
      ]

  -- A slice that is shorter than what remains.
  pub run_job-Recorded :
      (p : PStruct) (time : ℕ) (t : Trace) (rest unforked : List PStruct)
      → time < p.remain_time
      → Recorded os (p ∷ rest) unforked t
      → Returns
          (λ sent.
            Recorded os
              (record sent.0 { remain_time = (sent.0).remain_time - time } ∷ rest)
              unforked
              sent.1)
          (run_job os p time t)
  unfolding run_job
  run_job-Recorded p time t rest unforked less r = elim (Bool-cases (time == 0)) [
    | inl none_sent ↦
        let whole : p.remain_time - time ≡ p.remain_time = ground arith in
        rw (none_sent, run_job)
          (returns (
            subst (λ n. Recorded os (record p { remain_time = n } ∷ rest) unforked t) (sym whole)
              r))
    | inr some_sent ↦
        rw (some_sent, run_job)
          (Returns.mono (send_job-Started p time t (left rest unforked) r.books) λ sent s.
            let begun : ((sent.0).remain_time - time == (sent.0).e_time) ≡ false =
              ground (arith, s.remain_time, s.e_time, r.bounded.0) in
            record {
              books = rw begun (subst (Books os sent.1 _) (sym s.same_reports) s.books);
              bounded = (omega (arith, s.remain_time, s.e_time, r.bounded.0), r.bounded.1);
              untouched = r.untouched;
            })
  ]

  -- The next job is forked, and put behind the others.
  pub fork_child-Recorded :
      (p : PStruct) (queue later : List PStruct) (t : Trace)
      → Recorded os queue (p ∷ later) t
      → Returns (λ forked. Recorded os (queue ++ forked.0 ∷ []) later forked.1) (fork_child os p t)
  unfolding fork_child
  fork_child-Recorded p queue later t r = elim (Option-cases (os.fork t)) [
    | inl e ↦ rw (e, fork_child) exits
    | inr (pid, e) ↦
        let p' = record p { pid = pid } in
        let whole : (p.remain_time == p.e_time) ≡ true = ground (arith, r.untouched.0) in
        let entries : map forked_entry (queue ++ p' ∷ [])
            ≡ map forked_entry queue ++ (p.pipe, (pid ∷ [], [], [], false)) ∷ [] =
          rw (map-append, whole) refl in
        rw (e, fork_child)
          (returns (record {
            books = rw entries (
                Books-spawn p.pipe pid p.name p.e_time (map forked_entry queue) (to_start _ later) e
                  r.books);
            bounded = All-append _ queue (p' ∷ []) r.bounded (omega (arith, r.untouched.0), tt);
            untouched = r.untouched.1;
          }))
  ]

  -- The first job goes to the end of the queue.
  pub Recorded-turn :
      (p : PStruct) (rest unforked : List PStruct) (t : Trace)
      → Recorded os (p ∷ rest) unforked t
      → Recorded os (rest ++ p ∷ []) unforked t
  Recorded-turn p rest unforked t r =
      let turned : Permᴰ (p ∷ rest) (rest ++ p ∷ []) =
        Permᴰ.trans (Permᴰ.cons refl (Permᴰ.symm (Permᴰ.append-nil rest)))
          (Permᴰ.symm (Permᴰ.middle p rest [])) in
      record {
        books =
            Books-perm (Permᴰ.append_right (to_start _ unforked) (Permᴰ.map forked_entry turned))
              r.books;
        bounded = All-append _ rest (p ∷ []) r.bounded.1 (r.bounded.0, tt);
        untouched = r.untouched;
      }
