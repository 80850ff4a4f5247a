-- ===== src/Termination.antt =====
-- The main loops of prj1/fifo.c, sjf.c, psjf.c and rr.c come to an end of their own: whatever fuel
-- they are given from a bound on, they do the same.
use os2016spring.Base.{
  ℕ, ◌+◌, ◌*◌, ◌<◌, ◌≤◌, ◌≡◌, refl, sym, ◌∙◌, ◌≢◌, true, List, [], ◌∷◌, length, All, ltb,
}
use os2016spring.Os.{Event, Os, Outcome, out_of_fuel}
use os2016spring.Os.Fuel.{Ends-settled, loop-steady}
use os2016spring.Qsort.{Qsort}
use os2016spring.Input.{total_time, ReadyBy}
use os2016spring.Batch as Batch
use os2016spring.Fifo as Fifo
use os2016spring.Fifo.Schedule.{fifo-schedule}
use os2016spring.Sjf as Sjf
use os2016spring.Sjf.Schedule.{sjf-Shortest}
use os2016spring.Psjf as Psjf
use os2016spring.Psjf.Schedule.{psjf-Preemptive}
use os2016spring.ReadyList.{PStruct}
use os2016spring.Rr as Rr
use os2016spring.Rr.Schedule.{rr-Robin}
use os2016spring.Rr.Starting.{HasTime}

batch-steady :
    (round : Batch.State → Outcome Batch.State) (n m : ℕ) (s : Batch.State)
    → n ≤ m
    → Batch.loop round n s ≢ out_of_fuel
    → Batch.loop round m s ≡ Batch.loop round n s
unfolding Batch.loop
batch-steady round =
    loop-steady (λ s. Batch.is_left s.forked s.unforked) round (Batch.loop round) (λ s. refl)
      (λ n s. refl)

-- The loop of each scheduler on its input, on some fuel.
abbrev pub fifo_loop : Os → Qsort Batch.Data → List Batch.Line → (fuel : ℕ) → Outcome Batch.State
fifo_loop os q input fuel =
    Batch.loop (Fifo.round os) fuel (Batch.start (q.sort Batch.cmp (Batch.read_file 0 input)))

abbrev pub sjf_loop : Os → Qsort Batch.Data → List Batch.Line → (fuel : ℕ) → Outcome Batch.State
sjf_loop os q input fuel =
    Batch.loop (Sjf.round os q) fuel (Batch.start (q.sort Batch.cmp (Batch.read_file 0 input)))

abbrev pub psjf_loop :
    Os → Qsort Psjf.RawInput → List Batch.Line → (fuel : ℕ) → Outcome Psjf.Machine
psjf_loop os q input fuel =
    Psjf.loop os q fuel (Psjf.start (q.sort Psjf.compare_by_ready_time (Psjf.read_jobs 0 input)))

abbrev pub rr_loop : Os → Qsort PStruct → List Batch.Line → (fuel : ℕ) → Outcome Rr.State
rr_loop os q input fuel =
    Rr.loop os (length input) fuel
      (Rr.start (q.sort Rr.rr_cmp (Rr.read_structs 0 input)) (Event.set_priority 0 98 ∷ []))

-- The loop of FIFO comes to an end: on any fuel from twice the number of jobs and two on, its outcome
-- is the same, and it is not that the fuel runs out.
pub fifo_loop-steady :
    (os : Os) (q : Qsort Batch.Data) (input : List Batch.Line) (fuel : ℕ)
    → 2 * length input + 2 ≤ fuel
    → (fifo_loop os q input fuel ≡ fifo_loop os q input (2 * length input + 2))
      × (fifo_loop os q input fuel ≢ out_of_fuel)
unfolding Fifo.fifo
fifo_loop-steady os q input fuel le =
    let ends : fifo_loop os q input (2 * length input + 2) ≢ out_of_fuel =
      λ e. Ends-settled (fifo-schedule os q input) (rw e refl) in
    let same = batch-steady (Fifo.round os) (2 * length input + 2) fuel _ le ends in
    (same, λ e. ends (sym same ∙ e))

-- The loop of SJF comes to an end: on any fuel from twice the number of jobs and two on, its outcome
-- is the same, and it is not that the fuel runs out.
pub sjf_loop-steady :
    (os : Os) (q : Qsort Batch.Data) (input : List Batch.Line) (fuel : ℕ)
    → 2 * length input + 2 ≤ fuel
    → (sjf_loop os q input fuel ≡ sjf_loop os q input (2 * length input + 2))
      × (sjf_loop os q input fuel ≢ out_of_fuel)
unfolding Sjf.sjf
sjf_loop-steady os q input fuel le =
    let ends : sjf_loop os q input (2 * length input + 2) ≢ out_of_fuel =
      λ e. Ends-settled (sjf-Shortest os q input) (rw e refl) in
    let same = batch-steady (Sjf.round os q) (2 * length input + 2) fuel _ le ends in
    (same, λ e. ends (sym same ∙ e))

-- If the last arrival and the sum of the execution times together stay below 2^31, then the loop of
-- PSJF comes to an end: on any fuel from twice the number of jobs and two on, its outcome is the
-- same, and it is not that the fuel runs out.
pub psjf_loop-steady :
    (os : Os) (q : Qsort Psjf.RawInput) (input : List Batch.Line) (last fuel : ℕ)
    → All (ReadyBy last) input
    → last + total_time input < 2147483648
    → 2 * length input + 2 ≤ fuel
    → (psjf_loop os q input fuel ≡ psjf_loop os q input (2 * length input + 2))
      × (psjf_loop os q input fuel ≢ out_of_fuel)
unfolding Psjf.psjf Psjf.loop
psjf_loop-steady os q input last fuel h small le =
    let ends : psjf_loop os q input (2 * length input + 2) ≢ out_of_fuel =
      Ends-settled (psjf-Preemptive os q input last h small) in
    let same =
      loop-steady (λ m. Psjf.is_left m.ready m.unready) (Psjf.round os q) (Psjf.loop os q)
        (λ s. refl) (λ n s. refl) (2 * length input + 2) fuel _ le ends in
    (same, λ e. ends (sym same ∙ e))

-- For jobs that each have something to do, and where RR can set its own priority, its loop comes to
-- an end: on any fuel from the sum of the execution times, twice the number of jobs and two on, its
-- outcome is the same, and it is not that the fuel runs out.
pub rr_loop-steady :
    (os : Os) (q : Qsort PStruct) (input : List Batch.Line) (fuel : ℕ)
    → All HasTime input
    → os.sched_setscheduler [] ≡ true
    → total_time input + 2 * length input + 2 ≤ fuel
    → (rr_loop os q input fuel ≡ rr_loop os q input (total_time input + 2 * length input + 2))
      × (rr_loop os q input fuel ≢ out_of_fuel)
unfolding Rr.rr Rr.loop
rr_loop-steady os q input fuel h begins le =
    let enough = total_time input + 2 * length input + 2 in
    let ends : rr_loop os q input enough ≢ out_of_fuel =
      λ e. Ends-settled (rr-Robin os q input h) (rw (begins, e) refl) in
    let same =
      loop-steady (λ s. ltb s.finish (length input)) (Rr.round os) (Rr.loop os (length input))
        (λ s. refl) (λ n s. refl) enough fuel _ le ends in
    (same, λ e. ends (sym same ∙ e))
