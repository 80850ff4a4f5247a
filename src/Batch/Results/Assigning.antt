-- ===== src/Batch/Results/Assigning.antt =====
-- fifo.c and sjf.c: what the fields of a job hold, where it starts, is sent a slice, and ends.
use os2016spring.Base.{
  ℕ, ◌-◌, ◌≡◌, Bool, refl, sym, subst, true, false, inl, inr, List, [], ◌∷◌, ◌++◌, map, map-append,
  Bool-cases, Option-cases, ◌==◌, if◌then◌else◌,
}
use os2016spring.Os.{Event, Trace, Os}
use os2016spring.Os.Returns.{Returns, returns, exits, faults}
use os2016spring.Results.Books.{Books, Books-silent, Books-reap, Books-start, Books-send}
use os2016spring.Batch.{Data, State, decide_time, charge, send_slice, assign_to, assign}
use os2016spring.Batch.Forking.{RestFresh-all}
use os2016spring.Batch.Results.{left, result, Recorded, IsRecorded, IsLaunched}

-- The entry of a job by its flag.
abbrev Known :
    Os → (d : Data) (rest unforked : List Data) (finished : List Data) → Trace → Bool → Type 0
Known os d rest unforked finished t b =
    Books os t
      ((d.pipe, (d.pid ∷ [], if b then [] else d.started_at ∷ [], [], if b then false else true))
        ∷ left rest unforked)
      (map result finished)

module _ {os : Os} where
  -- The start is read.
  pub new-IsLaunched :
      (finished rest unforked : List Data) (d : Data) (t : Trace)
      → d.flag ≡ true
      → Recorded os finished (d ∷ rest) unforked t
      → IsLaunched os finished
          (record d { started_at = os.gettime t; flag = false } ∷ rest)
          unforked
          (Event.start_time d.pipe ∷ t)
  new-IsLaunched finished rest unforked d t new r = (
    refl,
    λ time. record {
      books =
          Books-start d.pipe d.pid time (left rest unforked)
            (subst (Known os d rest unforked finished t) new r.books);
      fresh = r.fresh;
      rest_fresh = r.rest_fresh;
      unprinted = r.unprinted;
    },
  )

  -- It has been read before.
  pub old-IsLaunched :
      (finished rest unforked : List Data) (d : Data) (t : Trace)
      → d.flag ≡ false
      → Recorded os finished (d ∷ rest) unforked t
      → IsLaunched os finished (d ∷ rest) unforked t
  old-IsLaunched finished rest unforked d t old r = (
    old,
    λ time. record {
      books = subst (Known os d rest unforked finished (Event.send d.pipe time ∷ t)) (sym old) (
          Books-send d.pipe d.pid time d.started_at (left rest unforked)
            (subst (Known os d rest unforked finished t) old r.books));
      fresh = r.fresh;
      rest_fresh = r.rest_fresh;
      unprinted = r.unprinted;
    },
  )

  -- The job at `Index` is charged for its slice, and reaped at its end.
  charge-Recorded :
      (d : Data) (rest : List Data) (time : ℕ) (t : Trace) (s : State)
      → d.flag ≡ false
      → Recorded os s.finished (d ∷ rest) s.unforked t
      → IsRecorded os (charge os d rest time t s)
  unfolding charge
  charge-Recorded d rest time t s old r = elim (Bool-cases (d.execution_time - time == 0)) [
    | inr more ↦
        rw (more, charge)
          (record {
            books = r.books;
            fresh = r.fresh;
            rest_fresh = r.rest_fresh;
            unprinted = r.unprinted;
          })
    | inl over ↦
        let d' = record d {
          execution_time = d.execution_time - time;
          finished_at = os.gettime t;
        } in
        let books = subst (Known os d rest s.unforked s.finished t) old r.books in
        let due : map result (s.finished ++ d' ∷ [])
            ≡ map result s.finished ++ (d.pid, d.started_at, os.gettime t) ∷ [] =
          map-append result s.finished (d' ∷ []) in
        rw (over, charge)
          (record {
            books = rw due (Books-reap d.pipe d.pid d.started_at (left rest s.unforked) books);
            fresh = r.fresh;
            rest_fresh = RestFresh-all rest r.rest_fresh;
            unprinted = r.unprinted;
          })
  ]

  send_slice-Recorded :
      (d : Data) (rest : List Data) (time : ℕ) (s : State)
      → IsLaunched os s.finished (d ∷ rest) s.unforked s.trace
      → Returns (IsRecorded os) (send_slice os d rest time s)
  unfolding send_slice
  send_slice-Recorded d rest time s (old, launched) =
      let r = launched time in
      let sent = Event.send d.pipe time ∷ s.trace in
      elim (Bool-cases (os.sched_setscheduler sent)) [
        | inr e ↦ rw (e, send_slice) exits
        | inl e ↦
            rw (e, send_slice)
              (returns (
                charge-Recorded d rest time (Event.set_priority d.pid 99 ∷ sent) s old (record {
                  books =
                      Books-silent (left (d ∷ rest) s.unforked) (λ _. refl) refl (λ h. h) r.books;
                  fresh = r.fresh;
                  rest_fresh = r.rest_fresh;
                  unprinted = r.unprinted;
                })))
      ]

  assign_to-Recorded :
      (f : List Data) (s : State)
      → IsLaunched os s.finished f s.unforked s.trace
      → Returns (IsRecorded os) (assign_to os f s)
  unfolding assign_to
  assign_to-Recorded [] s h = faults
  assign_to-Recorded (d ∷ rest) s h = elim (Option-cases (decide_time s.unforked d s.clock)) [
    | inl e ↦ rw (e, assign_to) faults
    | inr (time, e) ↦ rw (e, assign_to) (send_slice-Recorded d rest time s h)
  ]

  pub assign-Recorded :
      (s : State)
      → IsLaunched os s.finished s.forked s.unforked s.trace
      → Returns (IsRecorded os) (assign os s)
  unfolding assign
  assign-Recorded s h = assign_to-Recorded s.forked s h
