-- ===== src/Qsort/Unique.antt =====
-- Keys that differ: there is one order that ascends by them.
use mathlib.Core.List.{Permᴰ}
use mathlib.Core.List.Permᴰ
use os2016spring.Base.{
  ℕ, ◌≤◌, ◌≡◌, ◌≢◌, refl, sym, ap, ◌∙◌, subst, List, [], ◌∷◌, All, All-zip, All-map, map, arith,
}
use os2016spring.Qsort.{IsSorted, All-perm}

-- No two elements have the same key.
abbrev pub Spread : {A : Type 0} → (A → ℕ) → List A → Type 0
Spread key [] = Unit
Spread key (x ∷ xs) = All (λ y. key y ≢ key x) xs × Spread key xs

module _ {A : Type 0} (key : A → ℕ) where
  pub Spread-perm : {xs ys : List A} → Permᴰ xs ys → Spread key xs → Spread key ys
  Spread-perm Permᴰ.nil a = a
  Spread-perm (Permᴰ.cons {a = x} {l₂ = l} e p) a =
      (subst (λ z. All (λ y. key y ≢ key z) l) e (All-perm _ p a.0), Spread-perm p a.1)
  Spread-perm (Permᴰ.swap {a = x} {b = y} {b' = x'} {l = l} e f) a =
      subst (λ z. Spread key (z ∷ x' ∷ l)) f
        (subst (λ z. Spread key (y ∷ z ∷ l)) e
          (((λ same. a.0.0 (sym same)), a.1.0), (a.0.1, a.1.1)))
  Spread-perm (Permᴰ.trans p q) a = Spread-perm q (Spread-perm p a)

  -- What holds of all of the one holds of all of the other.
  Covers : List A → List A → Type 1
  Covers xs ys = (P : A → Type 0) → All P xs → All P ys

  same_head :
      (x y : A) (xs ys : List A)
      → Covers (x ∷ xs) (y ∷ ys)
      → Covers (y ∷ ys) (x ∷ xs)
      → IsSorted key (x ∷ xs)
      → IsSorted key (y ∷ ys)
      → Spread key (y ∷ ys)
      → x ≡ y
  unfolding Covers
  same_head x y xs ys to from sx sy spread =
      let below : key x ≤ key y = (to (λ z. key x ≤ key z) (omega arith, sx.0)).0 in
      let above : key y ≤ key x = (from (λ z. key y ≤ key z) (omega arith, sy.0)).0 in
      let one : All (λ z. key z ≡ key y → z ≡ y) ys =
        All-map {Q = λ z. key z ≡ key y → z ≡ y} (λ z differs e. absurd (differs e)) ys spread.0 in
      (from (λ z. key z ≡ key y → z ≡ y) ((λ _. refl), one)).0 (omega arith)

  Covers-tail :
      (x : A) (xs ys : List A) → Covers (x ∷ xs) (x ∷ ys) → Spread key (x ∷ ys) → Covers xs ys
  unfolding Covers
  Covers-tail x xs ys to spread P h =
      let others : All (λ z. key z ≢ key x → P z) xs = All-map (λ _ p _. p) xs h in
      All-zip (λ z f differs. f differs) ys
        (to (λ z. key z ≢ key x → P z) ((λ differs. absurd (differs refl)), others)).1 spread.0

  sorted_one :
      (xs ys : List A)
      → Covers xs ys
      → Covers ys xs
      → IsSorted key xs
      → IsSorted key ys
      → Spread key xs
      → Spread key ys
      → xs ≡ ys
  unfolding Covers
  sorted_one [] [] to from sx sy dx dy = refl
  sorted_one [] (y ∷ ys) to from sx sy dx dy =
      let never : ◌≡◌ {A = ℕ} 0 1 = (to (λ _. ◌≡◌ {A = ℕ} 0 1) tt).0 in absurd (omega arith)
  sorted_one (x ∷ xs) [] to from sx sy dx dy =
      let never : ◌≡◌ {A = ℕ} 0 1 = (from (λ _. ◌≡◌ {A = ℕ} 0 1) tt).0 in absurd (omega arith)
  sorted_one (x ∷ xs) (y ∷ ys) to from sx sy dx dy =
      let e = same_head x y xs ys to from sx sy dy in
      let tails : xs ≡ ys =
        sorted_one xs ys
          (Covers-tail x xs ys (subst (λ z. Covers (x ∷ xs) (z ∷ ys)) (sym e) to)
            (subst (λ z. Spread key (z ∷ ys)) (sym e) dy))
          (Covers-tail x ys xs (subst (λ z. Covers (z ∷ ys) (x ∷ xs)) (sym e) from) dx) sx.1 sy.1
          dx.1 dy.1 in
      ap (λ z. z ∷ xs) e ∙ ap (λ l. y ∷ l) tails

  -- Two sorted rearrangements of one list, whose keys differ, are the same.
  pub sorted_unique :
      (xs ys : List A) → Permᴰ xs ys → IsSorted key xs → IsSorted key ys → Spread key xs → xs ≡ ys
  unfolding Covers
  sorted_unique xs ys p sx sy spread =
      sorted_one xs ys (λ P h. All-perm P p h) (λ P h. All-perm P (Permᴰ.symm p) h) sx sy spread
        (Spread-perm p spread)

module _ {A B : Type 0} (f : A → B) where
  pub All-map_of : (P : B → Type 0) (xs : List A) → All (λ x. P (f x)) xs → All P (map f xs)
  All-map_of P [] h = tt
  All-map_of P (x ∷ xs) h = (h.0, All-map_of P xs h.1)

  All-of_map : (P : B → Type 0) (xs : List A) → All P (map f xs) → All (λ x. P (f x)) xs
  All-of_map P [] h = tt
  All-of_map P (x ∷ xs) h = (h.0, All-of_map P xs h.1)

  pub IsSorted-map :
      (key : B → ℕ) (xs : List A) → IsSorted (λ x. key (f x)) xs → IsSorted key (map f xs)
  IsSorted-map key [] h = tt
  IsSorted-map key (x ∷ xs) h =
      (All-map_of (λ y. key (f x) ≤ key y) xs h.0, IsSorted-map key xs h.1)

  pub Spread-of_map :
      (key : B → ℕ) (xs : List A) → Spread key (map f xs) → Spread (λ x. key (f x)) xs
  Spread-of_map key [] h = tt
  Spread-of_map key (x ∷ xs) h =
      (All-of_map (λ y. key y ≢ key (f x)) xs h.0, Spread-of_map key xs h.1)
