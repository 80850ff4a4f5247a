-- ===== src/Rr/FirstCome.antt =====
-- Where no job is longer than the quantum, round robin is first come, first served.
use os2016spring.Base.{
  ℕ, ◌+◌, ◌≤◌, ◌≡◌, refl, sym, ap, ◌∙◌, List, [], ◌∷◌, ◌++◌, append_assoc, max, All, All-append,
  arith,
}
use os2016spring.Task.{Task}
use os2016spring.Qsort.{All-le_mono}
use os2016spring.Fifo.Schedule.{fifo_schedule, fifo_schedule-arrived, fifo_schedule-interrupted}
use os2016spring.Rr.Robin.{Robin, over, arrives, idles, runs, expires, completes}

-- The first job can be completed in what is left of the quantum.
abbrev Fits : (quantum left : ℕ) → List Task → Type 0
Fits quantum left [] = quantum ≤ left
Fits quantum left (x ∷ _) = x.burst ≤ left

abbrev pub Short : ℕ → List Task → Type 0
Short quantum = All (λ (x : Task). x.burst ≤ quantum)

Arrived : ℕ → List Task → Type 0
Arrived t = All (λ (x : Task). x.ready ≤ t)

Fits-snoc :
    (quantum left : ℕ) (queue : List Task) (x : Task)
    → Fits quantum left queue
    → x.burst ≤ quantum
    → Fits quantum left (queue ++ x ∷ [])
Fits-snoc quantum left [] x fits short = omega arith
Fits-snoc quantum left (_ ∷ _) x fits short = fits

Fits-new : (quantum : ℕ) (queue : List Task) → Short quantum queue → Fits quantum quantum queue
Fits-new quantum [] short = omega arith
Fits-new quantum (x ∷ queue) short = short.0

pub Robin-fifo_schedule :
    {quantum t left : ℕ} {queue later : List Task} {out : List (ℕ × ℕ)}
    → Robin quantum t left queue later out
    → Fits quantum left queue
    → Short quantum queue
    → Short quantum later
    → All (λ (x : Task). x.ready ≤ t) queue
    → out ≡ fifo_schedule t (queue ++ later)
unfolding fifo_schedule
Robin-fifo_schedule over fits sq sl arrived = refl
Robin-fifo_schedule {quantum} {t} {left} (arrives {queue = queue} {later = later} x now next) fits
      sq sl arrived =
    Robin-fifo_schedule next (Fits-snoc quantum left queue x fits sl.0)
      (All-append _ queue (x ∷ []) sq (sl.0, tt)) sl.1
      (All-append _ queue (x ∷ []) arrived (omega arith, tt))
    ∙ ap (fifo_schedule t) (append_assoc queue (x ∷ []) later)
Robin-fifo_schedule {t = t} (idles {later = later} x ahead next) fits sq sl arrived =
    let same : max (t + 1) x.ready ≡ max t x.ready = omega arith in
    Robin-fifo_schedule next (omega arith) tt sl tt
    ∙ ap (λ c. (x.pipe, c + x.burst) ∷ fifo_schedule (c + x.burst) later) same
Robin-fifo_schedule {t = t} (runs {queue = queue} {later = later} x before more left next) fits sq
      sl arrived =
    Robin-fifo_schedule next (omega arith) (omega (arith, sq.0), sq.1) sl
      (omega (arith, arrived.0), All-le_mono (λ (y : Task). y.ready) queue (omega arith) arrived.1)
    ∙ fifo_schedule-interrupted t 1 x.pipe x.ready x.burst (queue ++ later) arrived.0 (omega arith)
Robin-fifo_schedule (expires x before more left next) fits sq sl arrived = absurd (omega arith)
Robin-fifo_schedule {quantum} {t}
      (completes {queue = queue} {later = later} x before last left next) fits sq sl arrived =
    let end : t + 1 ≡ t + x.burst = omega arith in
    ap (◌∷◌ (x.pipe, t + 1)) (
      Robin-fifo_schedule next (Fits-new quantum queue sq.1) sq.1 sl
        (All-le_mono (λ (y : Task). y.ready) queue (omega arith) arrived.1))
    ∙ ap (λ c. (x.pipe, c) ∷ fifo_schedule c (queue ++ later)) end
    ∙ sym (fifo_schedule-arrived t x (queue ++ later) arrived.0)
