-- ===== src/Rr/Schedule.antt =====
-- What rr.c does is round robin.
use os2016spring.Base.{
  ℕ, zero, suc, ◌+◌, ◌<◌, ◌≡◌, refl, sym, subst, false, inl, inr, List, [], ◌∷◌, append-nil, All,
  length, ltb, Bool-cases, arith,
}
use os2016spring.Os.{Os, completions}
use os2016spring.Os.Ends
use os2016spring.Os.Ends.{priority_checked, Ends, ends, priority_refused}
use os2016spring.Qsort.{Qsort}
use os2016spring.Batch.{Line}
use os2016spring.Served.{Served}
use os2016spring.Complete.{Latest}
use os2016spring.ReadyList.{PStruct}
use os2016spring.Rr.{State, rr_cmp, read_structs, loop, fuel_for, rr}
use os2016spring.Rr.Robin.{Robin, over}
use os2016spring.Rr.Invariant.{tasks, IsValid, Continues, work}
use os2016spring.Rr.Starting.{HasTime, arrivals, begun, begun-IsValid, begun-work}
use os2016spring.Rr.Arriving.{round-Went}

-- The loop has ended, and what it has completed was allowed at its start.
abbrev Robins : State → List PStruct → State → Type 0
Robins s ps s' =
    Continues s ps (completions s'.trace)
    × Served s'.trace
    × Latest s'.cur_time (completions s'.trace)

nothing_left :
    (n : ℕ) (s : State) (ps : List PStruct)
    → IsValid n s ps
    → ltb s.finish n ≡ false
    → length ps + length s.unforked ≡ 0
nothing_left n s ps v done = ground (arith, v.all_counted)

nil_of_length : {A : Type 0} (xs : List A) → length xs ≡ 0 → xs ≡ []
nil_of_length [] e = refl
nil_of_length (x ∷ xs) e = absurd (omega arith)

ended-Robins :
    (n : ℕ) (s : State) (ps : List PStruct)
    → IsValid n s ps
    → ltb s.finish n ≡ false
    → Robins s ps s
ended-Robins n s ps v done =
    let none_left = nothing_left n s ps v done in
    let no_queue = nil_of_length ps (omega arith) in
    let no_later = nil_of_length s.unforked (omega arith) in
    (
      (
        [],
        sym (append-nil _),
        subst (λ q. Robin 500 s.cur_time s.remain (tasks q) (tasks s.unforked) []) (sym no_queue)
            (subst (λ u. Robin 500 s.cur_time s.remain [] (tasks u) []) (sym no_later) over),
      ),
      v.accounts.served,
      v.ends_last no_queue no_later,
    )

loop-Robins :
    (os : Os) (n fuel : ℕ) (s : State) (ps : List PStruct)
    → IsValid n s ps
    → work s ps < fuel
    → Ends priority_checked os (Robins s ps) (loop os n fuel s)
unfolding loop
loop-Robins os n zero s ps v enough = absurd (omega arith)
loop-Robins os n (suc fuel) s ps v enough = elim (Bool-cases (ltb s.finish n)) [
  | inr done ↦ rw (done, loop) (ends (ended-Robins n s ps v done))
  | inl more ↦
      let some_job : 0 < length ps + length s.unforked = ground (arith, v.all_counted) in
      rw (more, loop)
        (Ends.bind (round-Went os n s ps v some_job) λ s1 w.
          Ends.mono (loop-Robins os n fuel s1 w.queue w.valid (omega (arith, w.less)))
            λ s2 (k, served, latest). (w.narrows (completions s2.trace) k, served, latest))
]

-- The whole run.
module _ (os : Os) (q : Qsort PStruct) (input : List Line) (h : All HasTime input) where
  rr-Robins : Ends priority_checked os (Robins (begun q input) []) (rr os q input)
  unfolding rr begun arrivals
  rr-Robins = elim (Bool-cases (os.sched_setscheduler [])) [
    | inr e ↦ rw e (priority_refused tt [] e)
    | inl e ↦ rw e (
        loop-Robins os (length input) (fuel_for input) (begun q input) [] (begun-IsValid q input h)
          (begun-work q input))
  ]

-- The completions and the time behind the last of them.
pub rr-Kept :
    (os : Os) (q : Qsort PStruct) (input : List Line)
    → All HasTime input
    → Ends priority_checked os
        (λ s.
          Robin 500 0 500 [] (tasks (q.sort rr_cmp (read_structs 0 input))) (completions s.trace)
          × Latest s.cur_time (completions s.trace))
        (rr os q input)
unfolding begun arrivals
rr-Kept os q input h = Ends.mono (rr-Robins os q input h) λ s ((later, all, k), _, latest).
    (subst (Robin 500 0 500 [] (tasks (q.sort rr_cmp (read_structs 0 input)))) (sym all) k, latest)

-- For any operating system and any `qsort`, and whatever jobs that each have something to do: RR
-- ends. The jobs that it has completed, and the times at which it has, are those of round robin with
-- a quantum of 500, on the arrivals in the order in which `qsort` puts them; or else it exits where
-- a `fork` or a `sched_setscheduler` fails. It never uses a dangling pointer, nor sends a negative
-- time slice, nor waits for a job that is waiting for it.
pub rr-Robin :
    (os : Os) (q : Qsort PStruct) (input : List Line)
    → All HasTime input
    → Ends priority_checked os
        (λ s.
          Robin 500 0 500 [] (tasks (q.sort rr_cmp (read_structs 0 input))) (completions s.trace))
        (rr os q input)
rr-Robin os q input h = Ends.mono (rr-Kept os q input h) λ s (k, _). k

-- For any operating system and any `qsort`, and whatever jobs that each have something to do: RR
-- ends, and whenever it reaps a job, the slices that it has written to the pipe of that job are such
-- that the job, child.c on these slices where it can lower its priority, has read them all and has
-- ended, with the execution time that it was started with burned to the unit; or else RR exits where
-- a `fork` or a `sched_setscheduler` fails.
pub rr-Served :
    (os : Os) (q : Qsort PStruct) (input : List Line)
    → All HasTime input
    → Ends priority_checked os (λ s. Served s.trace) (rr os q input)
rr-Served os q input h = Ends.mono (rr-Robins os q input h) λ _ (_, served, _). served
