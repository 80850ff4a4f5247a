-- ===== src/ReadyList/Ring.antt =====
-- The circular list: nodes that form a circle of their own.
use os2016spring.Base.{
  ℕ, suc, ◌<◌, ◌≡◌, ◌≢◌, Option, none, some, [], ◌∷◌, ◌++◌, All, All-append, arith,
}
use os2016spring.ReadyList.{PStruct, Node, Heap}
use os2016spring.ReadyList.Segments.{
  Nodes, first, final, final-append, Seg, Seg-split, Seg-join, Circle, Avoids, Distinct,
}
use os2016spring.ReadyList.Steps.{node}

abbrev pub front : Nodes → Option ℕ
front [] = none
front ((a, _) ∷ _) = some a

abbrev pub Known : ℕ → Nodes → Type 0
Known n nodes = All (λ (m : ℕ × PStruct). m.0 < n) nodes

-- The pointer is at the first of these nodes, which form a circle of their own.
pub record IsRing (h : Heap) (job : Option ℕ) (nodes : Nodes) : Type 0 where
  pub points : job ≡ front nodes
  pub linked : Circle h.node nodes
  pub distinct : Distinct nodes
  pub known : Known h.allocated nodes

Known-mono : (n : ℕ) (nodes : Nodes) → Known n nodes → Known (suc n) nodes
Known-mono n [] k = tt
Known-mono n (m ∷ rest) k = (omega (arith, k.0), Known-mono n rest k.1)

pub Avoids-new : (n : ℕ) (nodes : Nodes) → Known n nodes → Avoids n nodes
Avoids-new n [] k = tt
Avoids-new n (m ∷ rest) k = ((λ e. omega (arith, k.0, e)), Avoids-new n rest k.1)

pub grown :
    (h h' : Heap) (nodes : Nodes) (p : PStruct)
    → h'.allocated ≡ suc h.allocated
    → Known h.allocated nodes
    → Known h'.allocated (nodes ++ (h.allocated, p) ∷ [])
grown h h' nodes p count k =
    rw count (
      All-append _ nodes ((h.allocated, p) ∷ []) (Known-mono h.allocated nodes k) (omega arith, tt))

-- What an operation leaves alone.
pub spared :
    (g g' : ℕ → Option Node) (x y z : ℕ) (nodes : Nodes)
    → ((i : ℕ) → i ≢ x → i ≢ y → i ≢ z → g' i ≡ g i)
    → Avoids x nodes
    → Avoids y nodes
    → Avoids z nodes
    → All (λ (m : ℕ × PStruct). g' m.0 ≡ g m.0) nodes
spared g g' x y z [] others ax ay az = tt
spared g g' x y z (m ∷ rest) others ax ay az =
    (others m.0 ax.0 ay.0 az.0, spared g g' x y z rest others ax.1 ay.1 az.1)

-- A circle of two or more, seen from its first and its last node.
pub record Ends (g : ℕ → Option Node) (a : ℕ) (p : PStruct) (mid : Nodes) (l : ℕ) (q : PStruct)
    : Type 0 where
  pub first_node : g a ≡ some (node p (first mid l) l)
  pub between : Seg g a mid l
  pub last_node : g l ≡ some (node q a (final a mid))

pub Circle-Ends :
    (g : ℕ → Option Node) (a : ℕ) (p : PStruct) (mid : Nodes) (l : ℕ) (q : PStruct)
    → Circle g ((a, p) ∷ (mid ++ (l, q) ∷ []))
    → Ends g a p mid l q
Circle-Ends g a p mid l q c =
    let closed = rw (final-append a mid ((l, q) ∷ [])) at c in
    let (before, after) = Seg-split g l ((a, p) ∷ mid) ((l, q) ∷ []) a closed in
    record { first_node = before.0; between = before.1; last_node = after.0 }

pub Ends-Circle :
    (g : ℕ → Option Node) (a : ℕ) (p : PStruct) (mid : Nodes) (l : ℕ) (q : PStruct)
    → Ends g a p mid l q
    → Circle g ((a, p) ∷ (mid ++ (l, q) ∷ []))
Ends-Circle g a p mid l q e =
    rw (final-append a mid ((l, q) ∷ []))
      (Seg-join g l ((a, p) ∷ mid) ((l, q) ∷ []) a (e.first_node, e.between) (e.last_node, tt))
