-- ===== src/Qsort/Insertion.antt =====
-- Insertion sort meets what is assumed of `qsort`.
use Prim.Native.Nat.{compare, Ordering}
use mathlib.Core.List.{Permᴰ}
use mathlib.Core.List.Permᴰ
use os2016spring.Base.{
  ℕ, ◌≤◌, ◌≡◌, refl, inl, inr, List, [], ◌∷◌, All, Bool, true, false, Bool-cases, if◌then◌else◌,
  arith,
}
use os2016spring.Qsort.{IsSorted, Qsort, All-perm}

module _ {A : Type 0} where
  unfoldable pub precedes : (A → A → Ordering) → A → A → Bool
  precedes cmp x y = elim (cmp x y) [ Ordering.gt ↦ false | _ ↦ true ]

  unfoldable pub insert : (A → A → Ordering) → A → List A → List A
  insert cmp x [] = x ∷ []
  insert cmp x (y ∷ ys) = if precedes cmp x y then x ∷ y ∷ ys else y ∷ insert cmp x ys

  unfoldable pub insertion_sort : (A → A → Ordering) → List A → List A
  unfolding insert precedes
  insertion_sort cmp [] = []
  insertion_sort cmp (x ∷ xs) = insert cmp x (insertion_sort cmp xs)

  insert-perm : (cmp : A → A → Ordering) (x : A) (ys : List A) → Permᴰ (insert cmp x ys) (x ∷ ys)
  unfolding insert
  insert-perm cmp x [] = Permᴰ.refl _
  insert-perm cmp x (y ∷ ys) = elim (Bool-cases (precedes cmp x y)) [
    | inl h ↦ rw h (Permᴰ.refl _)
    | inr h ↦ rw h (Permᴰ.trans (Permᴰ.cons refl (insert-perm cmp x ys)) (Permᴰ.swap refl refl))
  ]

  pub insertion_sort-perm :
      (cmp : A → A → Ordering) (xs : List A) → Permᴰ (insertion_sort cmp xs) xs
  unfolding insertion_sort
  insertion_sort-perm cmp [] = Permᴰ.nil
  insertion_sort-perm cmp (x ∷ xs) =
      Permᴰ.trans (insert-perm cmp x _) (Permᴰ.cons refl (insertion_sort-perm cmp xs))

  module _ (cmp : A → A → Ordering) (key : A → ℕ)
      (compares : (a b : A) → cmp a b ≡ compare (key a) (key b)) where
    All-le_trans :
        (x y : A) (ys : List A)
        → key x ≤ key y
        → All (λ z. key y ≤ key z) ys
        → All (λ z. key x ≤ key z) ys
    All-le_trans x y [] h hs = tt
    All-le_trans x y (z ∷ ys) h hs = (omega arith, All-le_trans x y ys h hs.1)

    precedes-le : (x y : A) → precedes cmp x y ≡ true → key x ≤ key y
    unfolding precedes
    precedes-le x y h = ground (arith, compares x y)

    le-of_not_precedes : (x y : A) → precedes cmp x y ≡ false → key y ≤ key x
    unfolding precedes
    le-of_not_precedes x y h = ground (arith, compares x y)

    insert-IsSorted : (x : A) (ys : List A) → IsSorted key ys → IsSorted key (insert cmp x ys)
    unfolding insert
    insert-IsSorted x [] s = (tt, tt)
    insert-IsSorted x (y ∷ ys) s = elim (Bool-cases (precedes cmp x y)) [
      | inl h ↦ let le = precedes-le x y h in rw h ((le, All-le_trans x y ys le s.0), s)
      | inr h ↦ rw h (
        All-perm (λ z. key y ≤ key z) (Permᴰ.symm (insert-perm cmp x ys))
            (le-of_not_precedes x y h, s.0),
        insert-IsSorted x ys s.1,
      )
    ]

    pub insertion_sort-IsSorted : (xs : List A) → IsSorted key (insertion_sort cmp xs)
    unfolding insertion_sort
    insertion_sort-IsSorted [] = tt
    insertion_sort-IsSorted (x ∷ xs) =
        insert-IsSorted x (insertion_sort cmp xs) (insertion_sort-IsSorted xs)

-- The instance with which the tests run.
abbrev pub stable_qsort : {A : Type 0} → Qsort A
stable_qsort = record {
  sort = insertion_sort;
  perm = λ cmp key c xs. insertion_sort-perm cmp xs;
  sorted = insertion_sort-IsSorted;
}
