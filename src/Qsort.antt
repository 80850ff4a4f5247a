-- ===== src/Qsort.antt =====
-- `qsort` of the C library: what the schedulers rely on, and an instance of it.
pub mod Insertion
pub mod Unique
use Prim.Native.Nat.{compare, Ordering}
use mathlib.Core.List.{Permᴰ}
use mathlib.Core.List.Permᴰ
use os2016spring.Base.{
  ℕ, suc, ◌≤◌, ◌<◌, ◌≡◌, arith, refl, ap, ◌∙◌, length, List, [], ◌∷◌, All, subst,
}

-- Ascending by a key: each element is at most every later one.
abbrev pub IsSorted : {A : Type 0} → (A → ℕ) → List A → Type 0
IsSorted key [] = Unit
IsSorted key (x ∷ xs) = All (λ y. key x ≤ key y) xs × IsSorted key xs

-- Under a comparison that compares a key, `qsort` leaves a rearrangement that ascends by that key.
-- It is not assumed to be stable.
pub record Qsort (A : Type 0) : Type 0 where
  pub sort : (A → A → Ordering) → List A → List A
  pub perm :
      (cmp : A → A → Ordering) (key : A → ℕ)
      → ((a b : A) → cmp a b ≡ compare (key a) (key b))
      → (xs : List A) → Permᴰ (sort cmp xs) xs
  pub sorted :
      (cmp : A → A → Ordering) (key : A → ℕ)
      → ((a b : A) → cmp a b ≡ compare (key a) (key b))
      → (xs : List A) → IsSorted key (sort cmp xs)

module _ {A : Type 0} where
  -- A rearrangement keeps what holds of every element.
  pub All-perm : (P : A → Type 0) {xs ys : List A} → Permᴰ xs ys → All P xs → All P ys
  All-perm P Permᴰ.nil h = h
  All-perm P (Permᴰ.cons e p) (h, hs) = (subst P e h, All-perm P p hs)
  All-perm P (Permᴰ.swap e f) (h, (h', hs)) = (subst P f h', (subst P e h, hs))
  All-perm P (Permᴰ.trans p q) h = All-perm P q (All-perm P p h)

  pub length-perm : {xs ys : List A} → Permᴰ xs ys → length xs ≡ length ys
  length-perm Permᴰ.nil = refl
  length-perm (Permᴰ.cons e p) = ap suc (length-perm p)
  length-perm (Permᴰ.swap e f) = refl
  length-perm (Permᴰ.trans p q) = length-perm p ∙ length-perm q

  module _ (key : A → ℕ) {c c' : ℕ} where
    pub All-le_mono : (xs : List A) → c ≤ c' → All (λ x. key x ≤ c) xs → All (λ x. key x ≤ c') xs
    All-le_mono [] h hs = tt
    All-le_mono (x ∷ xs) h hs = (omega arith, All-le_mono xs h hs.1)

  module _ (key : A → ℕ) {c : ℕ} where
    -- What is no later than the first of an ascending list is no later than any.
    pub All-ge :
        (x : A) (ys : List A) → c ≤ key x → All (λ y. key x ≤ key y) ys → All (λ y. c ≤ key y) ys
    All-ge x [] h hs = tt
    All-ge x (y ∷ ys) h hs = (omega arith, All-ge x ys h hs.1)

    pub All-gt :
        (x : A) (ys : List A) → c < key x → All (λ y. key x ≤ key y) ys → All (λ y. c < key y) ys
    All-gt x [] h hs = tt
    All-gt x (y ∷ ys) h hs = (omega arith, All-gt x ys h hs.1)
