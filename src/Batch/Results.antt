-- ===== src/Batch/Results.antt =====
-- fifo.c and sjf.c: what the fields of a job hold, while jobs are waited for and forked.
pub mod Assigning
pub mod Printing
use os2016spring.Base.{
  ℕ, zero, suc, true, ◌-◌, ◌+◌, ◌≡◌, refl, subst, false, inl, inr, List, [], ◌∷◌, ◌++◌, map,
  map-append, All, Bool-cases, Option-cases, ◌==◌, if◌then◌else◌,
}
use os2016spring.Os.{Event, Trace, Os}
use os2016spring.Os.Returns
use os2016spring.Os.Returns.{Returns, returns, exits}
use os2016spring.Results.{Result, reports}
use os2016spring.Results.Books.{Entry, Books, Books-silent, Books-spawn, to_start}
use os2016spring.Batch.{
  Data, State, wait_rounds, wait_for, wait_loop, fork_one, execute_forks, execute_fork,
}
use os2016spring.Batch.Forking.{IsFresh, RestFresh, RestFresh-append}

-- A job that is forked: the start is recorded once the flag is reset.
abbrev pub forked_entry : Data → Entry
forked_entry d = (
  d.pipe,
  (d.pid ∷ [], if d.flag then [] else d.started_at ∷ [], [], if d.flag then false else true),
)

abbrev pub left : (forked unforked : List Data) → List Entry
left f u = map forked_entry f ++ to_start (λ (d : Data). d.pipe) u

-- The line of a finished job.
abbrev pub result : Data → Result
result d = (d.pid, d.started_at, d.finished_at)

-- The fields of the jobs hold what has happened, and no line is printed yet.
pub record Recorded (os : Os) (finished forked unforked : List Data) (t : Trace) : Type 0 where
  pub books : Books os t (left forked unforked) (map result finished)
  pub fresh : All IsFresh unforked
  pub rest_fresh : RestFresh forked
  pub unprinted : reports t ≡ []

abbrev pub IsRecorded : Os → State → Type 0
IsRecorded os s = Recorded os s.finished s.forked s.unforked s.trace

-- The fields hold what has happened once a slice is written for the job at `Index`, whose start is
-- recorded.
abbrev pub IsLaunched : Os → (finished forked unforked : List Data) → Trace → Type 0
IsLaunched os finished [] unforked t = Unit
IsLaunched os finished (d ∷ rest) unforked t =
    (d.flag ≡ false)
    × ((time : ℕ) → Recorded os finished (d ∷ rest) unforked (Event.send d.pipe time ∷ t))

module _ {os : Os} where
  wait_rounds-Recorded : (k : ℕ) (s : State) → IsRecorded os s → IsRecorded os (wait_rounds k s)
  unfolding wait_rounds
  wait_rounds-Recorded zero s r = r
  wait_rounds-Recorded (suc k) s r =
      wait_rounds-Recorded k (record s { clock = s.clock + 1; trace = Event.tick ∷ s.trace })
        (record {
          books = Books-silent (left s.forked s.unforked) (λ _. refl) refl (λ h. h) r.books;
          fresh = r.fresh;
          rest_fresh = r.rest_fresh;
          unprinted = r.unprinted;
        })

  wait_for-Recorded :
      (f u : List Data) (s : State) → IsRecorded os s → IsRecorded os (wait_for f u s)
  unfolding wait_for
  wait_for-Recorded [] [] s r = r
  wait_for-Recorded [] (d ∷ _) s r = wait_rounds-Recorded (d.ready_time - s.clock) s r
  wait_for-Recorded (_ ∷ _) u s r = r

  pub wait_loop-Recorded : (s : State) → IsRecorded os s → IsRecorded os (wait_loop s)
  unfolding wait_loop
  wait_loop-Recorded s r = wait_for-Recorded s.forked s.unforked s r

  fork_one-Recorded :
      (d : Data) (ds : List Data) (s : State)
      → Recorded os s.finished s.forked (d ∷ ds) s.trace
      → Returns (λ s'. IsRecorded os s' × (s'.unforked ≡ ds)) (fork_one os d ds s)
  unfolding fork_one
  fork_one-Recorded d ds s r = elim (Option-cases (os.fork s.trace)) [
    | inl e ↦ rw (e, fork_one) exits
    | inr (pid, e) ↦
        let d' = record d { pid = pid } in
        let entries : map forked_entry (s.forked ++ d' ∷ [])
            ≡ map forked_entry s.forked ++ (d.pipe, (pid ∷ [], [], [], false)) ∷ [] =
          rw (map-append, r.fresh.0) refl in
        rw (e, fork_one)
          (returns (
            record {
              books = rw entries (
                  Books-spawn d.pipe pid d.name d.execution_time (map forked_entry s.forked)
                    (to_start _ ds) e r.books);
              fresh = r.fresh.1;
              rest_fresh = RestFresh-append s.forked (d' ∷ []) r.rest_fresh (r.fresh.0, tt);
              unprinted = r.unprinted;
            },
            refl,
          ))
  ]

  execute_forks-Recorded :
      (ds : List Data) (s : State)
      → s.unforked ≡ ds
      → IsRecorded os s
      → Returns (IsRecorded os) (execute_forks os ds s)
  unfolding execute_forks
  execute_forks-Recorded [] s u r = returns r
  execute_forks-Recorded (d ∷ ds) s u r = elim (Bool-cases (s.clock == d.ready_time)) [
    | inr miss ↦ rw (miss, execute_forks) (returns r)
    | inl hit ↦
        rw (hit, execute_forks)
          (Returns.bind
            (fork_one-Recorded d ds s (subst (λ u. Recorded os s.finished s.forked u s.trace) u r))
            λ s' (r', u'). execute_forks-Recorded ds s' u' r')
  ]

  pub execute_fork-Recorded :
      (s : State) → IsRecorded os s → Returns (IsRecorded os) (execute_fork os s)
  unfolding execute_fork
  execute_fork-Recorded s r = execute_forks-Recorded s.unforked s refl r
