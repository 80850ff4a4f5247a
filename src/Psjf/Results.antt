-- ===== src/Psjf/Results.antt =====
-- prj1/psjf.c: what the fields of a job hold, where it is forked, started, and ends.
pub mod Printing
use os2016spring.Base.{
  ℕ, zero, suc, ◌+◌, ◌≡◌, refl, sym, subst, Bool, true, false, inl, inr, List, [], ◌∷◌, ◌++◌, map,
  map-append, All, Bool-cases, Option-cases, if◌then◌else◌, ◌^◌, ltb,
}
use os2016spring.Os.{Event, Os, Trace}
use os2016spring.Os.Returns.{Returns, returns, exits}
use os2016spring.Results.{Result, reports}
use os2016spring.Results.Books.{
  Entry, Books, Books-silent, Books-reap_print, Books-spawn, Books-start, Books-send, to_start,
}
use os2016spring.Psjf.{
  RawInput, Machine, idle_ticks, wait_for_next_process, wait_for, fork_next, record_start,
  send_to_child, run_until, run_out, start, uint_sub,
}

-- What is known of a forked job whose start is recorded, or is not.
abbrev known : RawInput → (recorded : Bool) → Entry
known r recorded = (
  r.pipe,
  (r.pid ∷ [], if recorded then r.start ∷ [] else [], [], if recorded then true else false),
)

-- What is known of a job that is forked.
abbrev pub forked_entry : RawInput → Entry
forked_entry r = known r r.recorded

abbrev pub left : (ready unready : List RawInput) → List Entry
left ready unready = map forked_entry ready ++ to_start (λ (r : RawInput). r.pipe) unready

-- The fields of the jobs hold what has happened, and the lines are printed as the jobs are reaped.
pub record Recorded (os : Os) (ready unready : List RawInput) (t : Trace) : Type 0 where
  pub books : Books os t (left ready unready) (reports t)
  pub unrecorded : All (λ (r : RawInput). r.recorded ≡ false) unready

abbrev pub IsRecorded : Os → Machine → Type 0
IsRecorded os m = Recorded os m.ready m.unready m.trace

-- What `SendToChild` leaves: the start of the running job is recorded.
record Sent (os : Os) (others : List Entry) (due : List Result) (sent : RawInput × Trace)
    : Type 0 where
  recorded : (sent.0).recorded ≡ true
  books :
      Books os sent.1
        (((sent.0).pipe, ((sent.0).pid ∷ [], (sent.0).start ∷ [], [], true)) ∷ others)
        due
  same_reports : reports sent.1 ≡ due

module _ {os : Os} where
  idle_ticks-Books :
      (n : ℕ) (t : Trace) (ready unready : List RawInput)
      → Recorded os ready unready t
      → Recorded os ready unready (idle_ticks n t)
  unfolding idle_ticks
  idle_ticks-Books zero t ready unready r = r
  idle_ticks-Books (suc n) t ready unready r =
      idle_ticks-Books n (Event.tick ∷ t) ready unready (record {
        books = Books-silent (left ready unready) (λ _. refl) refl (λ h. h) r.books;
        unrecorded = r.unrecorded;
      })

  pub wait_for-Recorded :
      (next : RawInput) (m : Machine) → IsRecorded os m → IsRecorded os (wait_for next m)
  unfolding wait_for wait_for_next_process
  wait_for-Recorded next m r =
      let n = uint_sub next.ready_time m.time_counter in
      elim (Bool-cases (ltb n (2 ^ 31))) [
        | inl e ↦ rw e (idle_ticks-Books n m.trace m.ready m.unready r)
        | inr e ↦ rw e r
      ]

  pub fork_next-Recorded :
      (next : RawInput) (later : List RawInput) (m : Machine)
      → Recorded os m.ready (next ∷ later) m.trace
      → Returns (IsRecorded os) (fork_next os next later m)
  unfolding fork_next
  fork_next-Recorded next later m r = elim (Option-cases (os.fork m.trace)) [
    | inl e ↦ rw (e, fork_next) exits
    | inr (pid, e) ↦
        let next' = record next { pid = pid } in
        let entries : map forked_entry (m.ready ++ next' ∷ [])
            ≡ map forked_entry m.ready ++ (next.pipe, (pid ∷ [], [], [], false)) ∷ [] =
          rw (map-append, r.unrecorded.0) refl in
        rw (e, fork_next)
          (returns (record {
            books = rw entries (
                Books-spawn next.pipe pid next.name next.exec_time (map forked_entry m.ready)
                  (to_start _ later) e r.books);
            unrecorded = r.unrecorded.1;
          }))
  ]

  -- The slice that is written next starts the job, or the job has been started.
  record_start-Sent :
      (r : RawInput) (time : ℕ) (t : Trace) (others : List Entry)
      → Books os t (forked_entry r ∷ others) (reports t)
      → let (r', t') = record_start os r t in
        Sent os others (reports t) (r', Event.send r'.pipe time ∷ t')
  unfolding record_start
  record_start-Sent r time t others b =
      let started : RawInput × Trace =
        (record r { start = os.gettime t; recorded = true }, Event.start_time r.pipe ∷ t) in
      let P : Bool → Type 0 = λ c.
        let (r', t') = if c then (r, t) else started in
        Sent os others (reports t) (r', Event.send r'.pipe time ∷ t') in
      let same : (c : Bool) → r.recorded ≡ c → Books os t (known r c ∷ others) (reports t) =
        λ c e. subst (λ c. Books os t (known r c ∷ others) (reports t)) e b in
      elim (Bool-cases r.recorded) [
        | inl old ↦ subst P (sym old) (record {
          recorded = old;
          books = Books-send r.pipe r.pid time r.start others (same true old);
          same_reports = refl;
        })
        | inr new ↦ subst P (sym new) (record {
          recorded = refl;
          books = Books-start r.pipe r.pid time others (same false new);
          same_reports = refl;
        })
      ]

  send_to_child-Sent :
      (r : RawInput) (time : ℕ) (t : Trace) (others : List Entry)
      → Books os t (forked_entry r ∷ others) (reports t)
      → Sent os others (reports t) (send_to_child os r time t)
  unfolding send_to_child
  send_to_child-Sent r time t others b =
      let s = record_start-Sent r time t others b in
      record {
        recorded = s.recorded;
        books = Books-silent _ (λ _. refl) refl (λ h. h) s.books;
        same_reports = s.same_reports;
      }

  pub run_until-Recorded :
      (running : RawInput) (rest : List RawInput) (ready_time : ℕ) (m : Machine)
      → Recorded os (running ∷ rest) m.unready m.trace
      → IsRecorded os (run_until os running rest ready_time m)
  unfolding run_until
  run_until-Recorded running rest ready_time m r =
      let slice = uint_sub ready_time m.time_counter in
      let s = send_to_child-Sent running slice m.trace (left rest m.unready) r.books in
      record { books = rw (s.same_reports, s.recorded) s.books; unrecorded = r.unrecorded }

  pub run_out-Recorded :
      (running : RawInput) (rest : List RawInput) (m : Machine)
      → Recorded os (running ∷ rest) m.unready m.trace
      → Returns (IsRecorded os) (run_out os running rest m)
  unfolding run_out
  run_out-Recorded running rest m r =
      let s = send_to_child-Sent running running.exec_time m.trace (left rest m.unready) r.books in
      let (running', t) = send_to_child os running running.exec_time m.trace in
      elim (Bool-cases (os.waitpid t)) [
        | inr e ↦ rw e exits
        | inl e ↦ rw e (
            returns (record {
              books =
                  Books-reap_print running'.pipe running'.pid running'.start (left rest m.unready)
                    (subst (Books os t _) (sym s.same_reports) s.books);
              unrecorded = r.unrecorded;
            }))
      ]
