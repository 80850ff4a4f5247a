-- ===== src/Rr/Slices.antt =====
-- Time slices of many units.
use os2016spring.Base.{
  ℕ, zero, suc, ◌+◌, ◌-◌, ◌≤◌, ◌<◌, ◌≡◌, sym, subst, List, [], ◌∷◌, ◌++◌, arith,
}
use os2016spring.Task.{Task}
use os2016spring.Rr.Robin.{Robin, shorter, NoneBefore, idles, runs, expires, completes}

NoneBefore-mono : (t t' : ℕ) (later : List Task) → t ≤ t' → NoneBefore t' later → NoneBefore t later
NoneBefore-mono t t' [] h n = tt
NoneBefore-mono t t' (x ∷ _) h n = omega arith

shorter_by : (x : Task) (n b : ℕ) → x.burst - n ≡ b → shorter x n ≡ record x { burst = b }
shorter_by x n b e = λ i. record x { burst = e i }

moved :
    {quantum : ℕ} (t t' left left' : ℕ) (x x' : Task) (queue later : List Task) (out : List (ℕ × ℕ))
    → t ≡ t'
    → left ≡ left'
    → x ≡ x'
    → Robin quantum t left (x ∷ queue) later out
    → Robin quantum t' left' (x' ∷ queue) later out
moved {quantum} t t' left left' x x' queue later out et el ex r =
    subst (λ u. Robin quantum u left' (x' ∷ queue) later out) et
      (subst (λ l. Robin quantum t l (x' ∷ queue) later out) el
        (subst (λ y. Robin quantum t left (y ∷ queue) later out) ex r))

module _ {quantum : ℕ} where
  -- No job is ready until `t + n`.
  pub idles_long :
      (n t left : ℕ) (x : Task) (later : List Task) (out : List (ℕ × ℕ))
      → 0 < n
      → t + n ≡ x.ready
      → Robin quantum x.ready quantum [] (x ∷ later) out
      → Robin quantum t left [] (x ∷ later) out
  idles_long zero t left x later out some_time e r = absurd (omega arith)
  idles_long (suc zero) t left x later out some_time e r =
      idles x (omega arith) (subst (λ u. Robin quantum u quantum [] (x ∷ later) out) (sym e) r)
  idles_long (suc (suc n)) t left x later out some_time e r =
      idles x (omega arith)
        (idles_long (suc n) (t + 1) quantum x later out (omega arith) (omega arith) r)

  -- The first job runs for `n` units and goes on.
  pub runs_long :
      (n t left : ℕ) (x : Task) (queue later : List Task) (out : List (ℕ × ℕ))
      → n < x.burst
      → n < left
      → NoneBefore (t + n) later
      → Robin quantum (t + n) (left - n) (shorter x n ∷ queue) later out
      → Robin quantum t left (x ∷ queue) later out
  runs_long zero t left x queue later out nb nl before r =
      moved (t + 0) t (left - 0) left (shorter x 0) x queue later out (omega arith) (omega arith)
        (shorter_by x 0 x.burst (omega arith)) r
  runs_long (suc n) t left x queue later out nb nl before r =
      let one_on : t + suc n ≡ t + 1 + n = omega arith in
      runs x (NoneBefore-mono (t + 1) (t + suc n) later (omega arith) before) (omega arith)
        (omega arith)
        (runs_long n (t + 1) (left - 1) (shorter x 1) queue later out (omega arith) (omega arith)
          (subst (λ u. NoneBefore u later) one_on before)
          (moved (t + suc n) (t + 1 + n) (left - suc n) (left - 1 - n) (shorter x (suc n))
            (shorter (shorter x 1) n) queue later out one_on (omega arith)
            (shorter_by x (suc n) (x.burst - 1 - n) (omega arith)) r))

  -- The first job runs to the end of its quantum, with some time left to run.
  pub expires_long :
      (t left : ℕ) (x : Task) (queue later : List Task) (out : List (ℕ × ℕ))
      → 0 < left
      → left < x.burst
      → NoneBefore (t + left) later
      → Robin quantum (t + left) quantum (queue ++ shorter x left ∷ []) later out
      → Robin quantum t left (x ∷ queue) later out
  expires_long t left x queue later out some_time nb before r =
      let n = left - 1 in
      let end : t + n + 1 ≡ t + left = omega arith in
      let shorter_end : shorter x left ≡ shorter (shorter x n) 1 =
        shorter_by x left (x.burst - n - 1) (omega arith) in
      runs_long n t left x queue later out (omega arith) (omega arith)
        (NoneBefore-mono (t + n) (t + left) later (omega arith) before)
        (expires (shorter x n) (subst (λ u. NoneBefore u later) (sym end) before) (omega arith)
          (omega arith) (rw (end, ← shorter_end) r))

  -- The first job runs to its end.
  pub completes_long :
      (t left : ℕ) (x : Task) (queue later : List Task) (out : List (ℕ × ℕ))
      → 0 < x.burst
      → x.burst ≤ left
      → NoneBefore (t + x.burst) later
      → Robin quantum (t + x.burst) quantum queue later out
      → Robin quantum t left (x ∷ queue) later ((x.pipe, t + x.burst) ∷ out)
  completes_long t left x queue later out some_time nb before r =
      let n = x.burst - 1 in
      let end : t + n + 1 ≡ t + x.burst = omega arith in
      runs_long n t left x queue later ((x.pipe, t + x.burst) ∷ out) (omega arith) (omega arith)
        (NoneBefore-mono (t + n) (t + x.burst) later (omega arith) before)
        (subst
          (λ u. Robin quantum (t + n) (left - n) (shorter x n ∷ queue) later ((x.pipe, u) ∷ out))
          end
          (completes (shorter x n) (subst (λ u. NoneBefore u later) (sym end) before) (omega arith)
            (omega arith) (subst (λ u. Robin quantum u quantum queue later out) (sym end) r)))
