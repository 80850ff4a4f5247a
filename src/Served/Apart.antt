-- ===== src/Served/Apart.antt =====
-- Jobs that have pipes of their own.
use mathlib.Core.List.{Permᴰ}
use os2016spring.Base.{ℕ, suc, ◌<◌, ◌≡◌, ◌≢◌, sym, subst, List, [], ◌∷◌, All, arith}
use os2016spring.Qsort.Unique.{Spread, Spread-perm}
use os2016spring.Task.{Task}

-- No two jobs have one pipe.
abbrev pub Apart : List Task → Type 0
Apart = Spread (λ (x : Task). x.pipe)

pub Apart-perm : {xs ys : List Task} → Permᴰ xs ys → Apart xs → Apart ys
Apart-perm = Spread-perm (λ (x : Task). x.pipe)

-- The pipes are numbered on from `i`.
abbrev pub Numbered : (i : ℕ) → List Task → Type 0
Numbered i [] = Unit
Numbered i (x ∷ xs) = (x.pipe ≡ i) × Numbered (suc i) xs

Numbered-avoids :
    (j i : ℕ) (xs : List Task) → j < i → Numbered i xs → All (λ (y : Task). y.pipe ≢ j) xs
Numbered-avoids j i [] h n = tt
Numbered-avoids j i (x ∷ xs) h n =
    ((λ same. omega (arith, same, n.0, h)), Numbered-avoids j (suc i) xs (omega arith) n.1)

pub Numbered-Apart : (i : ℕ) (xs : List Task) → Numbered i xs → Apart xs
Numbered-Apart i [] n = tt
Numbered-Apart i (x ∷ xs) n = (
  subst (λ j. All (λ (y : Task). y.pipe ≢ j) xs) (sym n.0)
      (Numbered-avoids i (suc i) xs (omega arith) n.1),
  Numbered-Apart (suc i) xs n.1,
)
