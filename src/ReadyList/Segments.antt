-- ===== src/ReadyList/Segments.antt =====
-- Doubly linked segments of the heap.
use os2016spring.Base.{
  ℕ, ◌≡◌, ◌≢◌, ◌⊎◌, inl, inr, refl, sym, ap, ◌∙◌, Option, some, List, [], ◌∷◌, ◌++◌, All,
  All-append,
}
use os2016spring.ReadyList.{PStruct, Node}

-- The nodes of a segment, in order: names and jobs.
abbrev pub Nodes : Type 0
Nodes = List (ℕ × PStruct)

-- The name of the first node, and of the last one.
abbrev pub first : Nodes → (stop : ℕ) → ℕ
first [] stop = stop
first ((a, _) ∷ _) stop = a

abbrev pub final : (prev : ℕ) → Nodes → ℕ
final prev [] = prev
final prev ((a, _) ∷ rest) = final a rest

-- From `prev` on, `next` leads through the nodes to `stop`, and `last` leads back.
abbrev pub Seg : (ℕ → Option Node) → (prev : ℕ) → Nodes → (stop : ℕ) → Type 0
Seg g prev [] stop = Unit
Seg g prev ((a, p) ∷ rest) stop =
    (g a ≡ some (record { process = p; next = first rest stop; last = prev })) × Seg g a rest stop

-- The segment is closed to a circle.
abbrev pub Circle : (ℕ → Option Node) → Nodes → Type 0
Circle g [] = Unit
Circle g ((a, p) ∷ rest) = Seg g (final a rest) ((a, p) ∷ rest) a

abbrev pub Avoids : ℕ → Nodes → Type 0
Avoids a nodes = All (λ (m : ℕ × PStruct). m.0 ≢ a) nodes

abbrev pub Distinct : Nodes → Type 0
Distinct [] = Unit
Distinct ((a, _) ∷ rest) = Avoids a rest × Distinct rest

-- A segment survives a change that spares its nodes.
pub Seg-frame :
    (g g' : ℕ → Option Node) (prev : ℕ) (nodes : Nodes) (stop : ℕ)
    → All (λ (m : ℕ × PStruct). g' m.0 ≡ g m.0) nodes
    → Seg g prev nodes stop
    → Seg g' prev nodes stop
Seg-frame g g' prev [] stop same s = tt
Seg-frame g g' prev ((a, p) ∷ rest) stop same s =
    (same.0 ∙ s.0, Seg-frame g g' a rest stop same.1 s.1)

pub first-append : (xs ys : Nodes) (stop : ℕ) → first (xs ++ ys) stop ≡ first xs (first ys stop)
first-append [] ys stop = refl
first-append (_ ∷ _) ys stop = refl

pub final-append : (prev : ℕ) (xs ys : Nodes) → final prev (xs ++ ys) ≡ final (final prev xs) ys
final-append prev [] ys = refl
final-append prev ((a, _) ∷ xs) ys = final-append a xs ys

module _ (g : ℕ → Option Node) where
  pub Seg-split :
      (prev : ℕ) (xs ys : Nodes) (stop : ℕ)
      → Seg g prev (xs ++ ys) stop
      → Seg g prev xs (first ys stop) × Seg g (final prev xs) ys stop
  Seg-split prev [] ys stop s = (tt, s)
  Seg-split prev ((a, p) ∷ xs) ys stop s =
      let (front, back) = Seg-split a xs ys stop s.1 in
      ((rw (← first-append xs ys stop) s.0, front), back)

  pub Seg-join :
      (prev : ℕ) (xs ys : Nodes) (stop : ℕ)
      → Seg g prev xs (first ys stop)
      → Seg g (final prev xs) ys stop
      → Seg g prev (xs ++ ys) stop
  Seg-join prev [] ys stop front back = back
  Seg-join prev ((a, p) ∷ xs) ys stop front back =
      (rw (first-append xs ys stop) front.0, Seg-join a xs ys stop front.1 back)

pub All-split : (P : ℕ × PStruct → Type 0) (xs ys : Nodes) → All P (xs ++ ys) → All P xs × All P ys
All-split P [] ys h = (tt, h)
All-split P (x ∷ xs) ys h = let (front, back) = All-split P xs ys h.1 in ((h.0, front), back)

pub Distinct-snoc :
    (nodes : Nodes) (a : ℕ) (p : PStruct)
    → Distinct nodes
    → Avoids a nodes
    → Distinct (nodes ++ (a, p) ∷ [])
Distinct-snoc [] a p d out = (tt, tt)
Distinct-snoc ((b, q) ∷ rest) a p d out = (
  All-append _ rest ((a, p) ∷ []) d.0 ((λ e. out.0 (sym e)), tt),
  Distinct-snoc rest a p d.1 out.1,
)

pub Distinct-unsnoc :
    (nodes : Nodes) (a : ℕ) (p : PStruct) → Distinct (nodes ++ (a, p) ∷ []) → Avoids a nodes
Distinct-unsnoc [] a p d = tt
Distinct-unsnoc ((b, q) ∷ rest) a p d =
    ((λ e. (All-split _ rest ((a, p) ∷ []) d.0).1.0 (sym e)), Distinct-unsnoc rest a p d.1)

-- A list is empty or has a last element.
pub snoc-cases :
    (nodes : Nodes)
    → (nodes ≡ []) ⊎ ((mid : Nodes) × (a : ℕ) × (p : PStruct) × (nodes ≡ mid ++ (a, p) ∷ []))
snoc-cases [] = inl refl
snoc-cases ((b, q) ∷ rest) = elim (snoc-cases rest) [
  | inl e ↦ inr ([], b, q, ap (◌∷◌ (b, q)) e)
  | inr (mid, a, p, e) ↦ inr ((b, q) ∷ mid, a, p, ap (◌∷◌ (b, q)) e)
]
