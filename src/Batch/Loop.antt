-- ===== src/Batch/Loop.antt =====
-- The rule for the main loops: an invariant, a measure below the fuel, and what a round relates.
use os2016spring.Base.{
  ℕ, zero, suc, ◌<◌, ◌≡◌, refl, List, [], ◌∷◌, true, false, inl, inr, Bool-cases, arith,
}
use os2016spring.Os.{Os, Outcome}
use os2016spring.Os.Ends
use os2016spring.Os.Ends.{priority_checked, Ends, ends}
use os2016spring.Batch.{Data, State, loop, is_left}
use os2016spring.Batch.Work.{work}

module _ {os : Os} (I : State → Type 0) (R : State → State → Type 0) (R_refl : (s : State) → R s s)
    (R_trans : (s t u : State) → R s t → R t u → R s u) (round : State → Outcome State)
    (step : (s : State)
      → I s
      → is_left s.forked s.unforked ≡ true
      → Ends priority_checked os (λ s'. I s' × R s s' × (work s' < work s)) (round s)) where
  -- With more fuel than work the loop ends, and no job is left.
  pub loop_rule :
      (fuel : ℕ) (s : State)
      → work s < fuel
      → I s
      → Ends priority_checked os
          (λ s'. I s' × R s s' × (is_left s'.forked s'.unforked ≡ false))
          (loop round fuel s)
  unfolding loop
  loop_rule zero s h i = absurd (omega arith)
  loop_rule (suc fuel) s h i = elim (Bool-cases (is_left s.forked s.unforked)) [
    | inr over ↦ rw (over, loop) (ends (i, R_refl s, over))
    | inl left ↦
        rw (left, loop)
          (Ends.bind (step s i left) λ s1 (i1, r1, less).
            Ends.mono (loop_rule fuel s1 (omega arith) i1)
              λ s2 (i2, r2, over). (i2, R_trans s s1 s2 r1 r2, over))
  ]

over-nil : (f u : List Data) → is_left f u ≡ false → (f ≡ []) × (u ≡ [])
over-nil [] [] e = (refl, refl)
over-nil [] (_ ∷ _) e = absurd (cc)
over-nil (_ ∷ _) u e = absurd (cc)

-- Where no job is left, both parts of the array are empty.
pub not-is_left :
    (s : State) → is_left s.forked s.unforked ≡ false → (s.forked ≡ []) × (s.unforked ≡ [])
not-is_left s = over-nil s.forked s.unforked
