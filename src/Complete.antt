-- ===== src/Complete.antt =====
-- What a schedule owes to its jobs: each is completed once, in time.
use mathlib.Core.List.{Permᴰ}
use mathlib.Core.List.Permᴰ
use os2016spring.Base.{
  ℕ, ◌+◌, ◌≤◌, ◌≡◌, refl, ap, ◌∙◌, subst, List, [], ◌∷◌, ◌++◌, map, All, All-back, arith,
}
use os2016spring.Qsort.{length-perm}
use os2016spring.Task.{Task}
use os2016spring.Batch.{Line}
use os2016spring.Input.{
  as_tasks, numbers, total_time, pipes, demand, pipes-as_tasks, demand-as_tasks,
}

-- The jobs of a list of completions.
abbrev pub jobs : List (ℕ × ℕ) → List ℕ
jobs = map (λ (c : ℕ × ℕ). c.0)

abbrev pub InTime : ℕ → List (ℕ × ℕ) → Type 0
InTime end = All (λ (c : ℕ × ℕ). c.1 ≤ end)

-- No bound of the completions is passed by the clock.
abbrev pub Latest : (clock : ℕ) → List (ℕ × ℕ) → Type 0
Latest clock out = (bound : ℕ) → InTime bound out → clock ≤ bound

pub Latest-last : (out : List (ℕ × ℕ)) (c : ℕ × ℕ) → Latest c.1 (out ++ c ∷ [])
Latest-last out c bound h = (All-back _ out (c ∷ []) h).0

-- Every job of the input is completed, once, and by `end`.
pub record Complete (input : List Line) (end : ℕ) (out : List (ℕ × ℕ)) : Type 0 where
  pub once : Permᴰ (jobs out) (numbers 0 input)
  pub in_time : InTime end out

pub demand-append : (xs ys : List Task) → demand (xs ++ ys) ≡ demand xs + demand ys
demand-append [] ys = omega arith
demand-append (x ∷ xs) ys = omega (arith, demand-append xs ys)

pub demand-perm : {xs ys : List Task} → Permᴰ xs ys → demand xs ≡ demand ys
demand-perm Permᴰ.nil = refl
demand-perm (Permᴰ.cons e p) = omega (arith, demand-perm p, ap (λ (x : Task). x.burst) e)
demand-perm (Permᴰ.swap e f) =
    omega (arith, ap (λ (x : Task). x.burst) e, ap (λ (x : Task). x.burst) f)
demand-perm (Permᴰ.trans p q) = demand-perm p ∙ demand-perm q

-- A schedule of no task completes nothing.
pub jobs-nil : (out : List (ℕ × ℕ)) → Permᴰ (jobs out) [] → out ≡ []
jobs-nil [] p = refl
jobs-nil (c ∷ out) p = absurd (omega (arith, length-perm p))

-- From the tasks in the order in which `qsort` puts them.
pub sorted-Complete :
    (input : List Line) (last : ℕ) (ts : List Task) (out : List (ℕ × ℕ))
    → Permᴰ ts (as_tasks 0 input)
    → Permᴰ (jobs out) (pipes ts)
    → InTime (last + demand ts) out
    → Complete input (last + total_time input) out
sorted-Complete input last ts out p once in_time = record {
  once =
      subst (Permᴰ (jobs out)) (pipes-as_tasks 0 input)
        (Permᴰ.trans once (Permᴰ.map (λ (x : Task). x.pipe) p));
  in_time = subst (λ n. InTime (last + n) out) (demand-perm p ∙ demand-as_tasks 0 input) in_time;
}
