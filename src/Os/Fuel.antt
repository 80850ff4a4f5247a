-- ===== src/Os/Fuel.antt =====
-- The fuel of the main loops of prj1/fifo.c, sjf.c, psjf.c and rr.c: a loop that does not run out of
-- it does the same with more.
use os2016spring.Base.{
  ℕ, zero, suc, ◌≤◌, ◌≡◌, refl, sym, ◌∙◌, ◌≢◌, Bool, true, false, inl, inr, Bool-cases, arith,
}
use os2016spring.Os.{Os, Outcome, ok, exit, fault, blocked, out_of_fuel, ◌>>=◌}
use os2016spring.Os.Ends.{Checks, Ends, ends, fork_failed, priority_refused, wait_failed}

module _ {A : Type 0} where
  -- A run that ends does not run out of fuel.
  pub Ends-settled :
      {c : Checks} {os : Os} {P : A → Type 0} {r : Outcome A} → Ends c os P r → r ≢ out_of_fuel
  Ends-settled (ends p) e = cc
  Ends-settled (fork_failed t f) e = cc
  Ends-settled (priority_refused l t f) e = cc
  Ends-settled (wait_failed l t f) e = cc

  bind-steady :
      (r : Outcome A) (f g : A → Outcome A)
      → (r >>= g) ≢ out_of_fuel
      → ((a : A) → g a ≢ out_of_fuel → f a ≡ g a)
      → (r >>= f) ≡ (r >>= g)
  bind-steady (ok a) f g h same = same a h
  bind-steady (exit c t) f g h same = refl
  bind-steady fault f g h same = refl
  bind-steady (blocked t) f g h same = refl
  bind-steady out_of_fuel f g h same = refl

  module _ (is_left : A → Bool) (round : A → Outcome A) (loop : ℕ → A → Outcome A)
      (stops : (s : A) → loop zero s ≡ out_of_fuel)
      (goes_on : (n : ℕ) (s : A)
        → loop (suc n) s ≡ elim (is_left s) [ true ↦ (round s >>= loop n) | false ↦ ok s ]) where
    pub loop-steady : (n m : ℕ) (s : A) → n ≤ m → loop n s ≢ out_of_fuel → loop m s ≡ loop n s
    loop-steady zero m s le h = absurd (h (stops s))
    loop-steady (suc n) zero s le h = absurd (omega arith)
    loop-steady (suc n) (suc m) s le h = elim (Bool-cases (is_left s)) [
      | inr e ↦ rw (goes_on m s, goes_on n s, e) refl
      | inl e ↦
          let once : (k : ℕ) → loop (suc k) s ≡ (round s >>= loop k) =
            λ k. rw (goes_on k s, e) refl in
          once m
          ∙ bind-steady (round s) (loop m) (loop n) (λ q. h (once n ∙ q))
              (λ s' h'. loop-steady n m s' (omega arith) h')
          ∙ sym (once n)
    ]
