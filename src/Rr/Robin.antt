-- ===== src/Rr/Robin.antt =====
-- Round robin, told one unit of time after the other.
use os2016spring.Base.{ℕ, ◌+◌, ◌-◌, ◌≤◌, ◌<◌, ◌≡◌, List, [], ◌∷◌, ◌++◌}
use os2016spring.Task.{Task}

abbrev pub shorter : Task → ℕ → Task
shorter x n = record x { burst = x.burst - n }

-- No job arrives before `t`.
abbrev pub NoneBefore : ℕ → List Task → Type 0
NoneBefore t [] = Unit
NoneBefore t (x ∷ _) = t ≤ x.ready

-- From time `t` on, with `left` units left of the quantum of the first job in the queue, and the
-- arrivals that are still to come, the jobs are completed as listed.
pub data Robin (quantum : ℕ)
    : (t left : ℕ) → (queue later : List Task) → List (ℕ × ℕ) → Type 0 where
  -- nothing is left to do
  over : {t left : ℕ} → Robin quantum t left [] [] []
  -- a job arrives: it goes to the end of the queue
  arrives :
      {t left : ℕ} {queue later : List Task} {out : List (ℕ × ℕ)} (x : Task)
      → x.ready ≡ t
      → Robin quantum t left (queue ++ x ∷ []) later out
      → Robin quantum t left queue (x ∷ later) out
  -- no job is ready: a unit of time passes, and the next job begins a new quantum
  idles :
      {t left : ℕ} {later : List Task} {out : List (ℕ × ℕ)} (x : Task)
      → t < x.ready
      → Robin quantum (t + 1) quantum [] (x ∷ later) out
      → Robin quantum t left [] (x ∷ later) out
  -- the first job runs for a unit of time and goes on
  runs :
      {t left : ℕ} {queue later : List Task} {out : List (ℕ × ℕ)} (x : Task)
      → NoneBefore (t + 1) later
      → 1 < x.burst
      → 1 < left
      → Robin quantum (t + 1) (left - 1) (shorter x 1 ∷ queue) later out
      → Robin quantum t left (x ∷ queue) later out
  -- the first job has used up its quantum: it goes to the end of the queue
  expires :
      {t left : ℕ} {queue later : List Task} {out : List (ℕ × ℕ)} (x : Task)
      → NoneBefore (t + 1) later
      → 1 < x.burst
      → left ≡ 1
      → Robin quantum (t + 1) quantum (queue ++ shorter x 1 ∷ []) later out
      → Robin quantum t left (x ∷ queue) later out
  -- the first job is done: the next one begins a new quantum
  completes :
      {t left : ℕ} {queue later : List Task} {out : List (ℕ × ℕ)} (x : Task)
      → NoneBefore (t + 1) later
      → x.burst ≡ 1
      → 0 < left
      → Robin quantum (t + 1) quantum queue later out
      → Robin quantum t left (x ∷ queue) later ((x.pipe, t + 1) ∷ out)
