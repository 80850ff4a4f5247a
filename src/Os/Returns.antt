-- ===== src/Os/Returns.antt =====
-- Partial correctness of a run: where it comes back, it meets its postcondition.
use os2016spring.Base.{ℕ, zero, suc, ◌≡◌, true, false, inl, inr, Bool, Bool-cases}
use os2016spring.Os.{Trace, Os, Outcome, ok, exit, fault, blocked, out_of_fuel, ◌>>=◌}
use os2016spring.Os.Ends.{Checks, Ends, ends, fork_failed, priority_refused, wait_failed}

pub data Returns {A : Type 0} (P : A → Type 0) : Outcome A → Type 0 where
  returns : {a : A} → P a → Returns P (ok a)
  exits : {c : ℕ} {t : Trace} → Returns P (exit c t)
  faults : Returns P fault
  waits : {t : Trace} → Returns P (blocked t)
  runs_out : Returns P out_of_fuel

module _ {A : Type 0} {P : A → Type 0} where
  pub bind :
      {B : Type 0} {Q : B → Type 0} {r : Outcome A} {k : A → Outcome B}
      → Returns P r
      → ((a : A) → P a → Returns Q (k a))
      → Returns Q (r >>= k)
  bind (returns p) next = next _ p
  bind exits next = exits
  bind faults next = faults
  bind waits next = waits
  bind runs_out next = runs_out

  pub mono : {Q : A → Type 0} {r : Outcome A} → Returns P r → ((a : A) → P a → Q a) → Returns Q r
  mono (returns p) weaken = returns (weaken _ p)
  mono exits weaken = exits
  mono faults weaken = faults
  mono waits weaken = waits
  mono runs_out weaken = runs_out

  pub Returns-Ends : {c : Checks} {os : Os} {r : Outcome A} → Ends c os P r → Returns P r
  Returns-Ends (ends p) = returns p
  Returns-Ends (fork_failed t e) = exits
  Returns-Ends (priority_refused l t e) = exits
  Returns-Ends (wait_failed l t e) = exits

  -- A run that ends has what it has wherever it comes back.
  pub Ends-Returns :
      {Q : A → Type 0} {c : Checks} {os : Os} {r : Outcome A}
      → Ends c os P r
      → Returns Q r
      → Ends c os (λ a. P a × Q a) r
  Ends-Returns (ends p) (returns q) = ends (p, q)
  Ends-Returns (fork_failed t e) q = fork_failed t e
  Ends-Returns (priority_refused l t e) q = priority_refused l t e
  Ends-Returns (wait_failed l t e) q = wait_failed l t e

module _ {A : Type 0} (is_left : A → Bool) (round : A → Outcome A) (loop : ℕ → A → Outcome A)
    (stops : (s : A) → loop zero s ≡ out_of_fuel)
    (goes_on : (n : ℕ) (s : A)
      → loop (suc n) s ≡ elim (is_left s) [ true ↦ (round s >>= loop n) | false ↦ ok s ])
    (I : A → Type 0) (step : (s : A) → I s → Returns I (round s)) where
  -- The rule for the main loops.
  pub loop_keeps : (fuel : ℕ) (s : A) → I s → Returns I (loop fuel s)
  loop_keeps zero s i = rw (stops s) runs_out
  loop_keeps (suc fuel) s i = elim (Bool-cases (is_left s)) [
    | inr over ↦ rw (goes_on fuel s, over) (returns i)
    | inl left ↦ rw (goes_on fuel s, left) (bind (step s i) (loop_keeps fuel))
  ]
