-- ===== src/ReadyList/Adding.antt =====
-- `add_list` of prj1/rr.c on a circle of nodes.
use os2016spring.Base.{ℕ, inl, inr, sym, subst, Option, none, some, [], ◌∷◌, ◌++◌, arith}
use os2016spring.ReadyList.{PStruct, Heap, add_list}
use os2016spring.ReadyList.Segments.{
  Nodes, first, first-append, final, final-append, Seg-join, Seg-frame, Avoids, Distinct-snoc,
  Distinct-unsnoc, All-split, snoc-cases,
}
use os2016spring.ReadyList.Steps.{
  Returns, Returns-mono, Added, add_list-Added, add_list-AddedSecond, add_list-AddedFirst,
}
use os2016spring.ReadyList.Ring.{IsRing, Avoids-new, grown, spared, Ends, Circle-Ends, Ends-Circle}

Added-Ends :
    (h : Heap) (a : ℕ) (p0 : PStruct) (mid : Nodes) (l : ℕ) (q p : PStruct) (job : Option ℕ)
    (h' : Heap)
    → Ends h.node a p0 mid l q
    → Avoids h.allocated mid
    → Avoids l mid
    → Avoids a mid
    → Added h a l p p0 q (first mid l) (final a mid) job h'
    → Ends h'.node a p0 (mid ++ (l, q) ∷ []) h.allocated p
Added-Ends h a p0 mid l q p job h' e an al aa ad =
    let same = spared h.node h'.node h.allocated l a mid ad.others an al aa in
    record {
      first_node = rw (first-append mid ((l, q) ∷ []) h.allocated) ad.job_node;
      between =
          Seg-join h'.node a mid ((l, q) ∷ []) h.allocated
            (Seg-frame h.node h'.node a mid l same e.between) (ad.last_node, tt);
      last_node = rw (final-append a mid ((l, q) ∷ [])) ad.new;
    }

-- What is to be shown of `add_list`: it puts the job behind all others.
abbrev pub Adds : Heap → PStruct → Option ℕ → Nodes → Type 0
Adds h p job nodes =
    IsRing h job nodes
    → Returns (λ job' h'. IsRing h' job' (nodes ++ (h.allocated, p) ∷ [])) (add_list job p h)

add_longer :
    (h : Heap) (a : ℕ) (p0 : PStruct) (mid : Nodes) (l : ℕ) (q p : PStruct)
    → Adds h p (some a) ((a, p0) ∷ (mid ++ (l, q) ∷ []))
add_longer h a p0 mid l q p r =
    let nodes : Nodes = (a, p0) ∷ (mid ++ (l, q) ∷ []) in
    let e = Circle-Ends h.node a p0 mid l q r.linked in
    let (avoid_mid, avoid_l) = All-split _ mid ((l, q) ∷ []) r.distinct.0 in
    let (known_mid, known_l) = All-split _ mid ((l, q) ∷ []) r.known.1 in
    Returns-mono _ _ (add_list (some a) p h)
      (λ job h' ad. record {
        points = ad.result;
        linked = Ends-Circle h'.node a p0 (mid ++ (l, q) ∷ []) h.allocated p (
            Added-Ends h a p0 mid l q p job h' e (Avoids-new h.allocated mid known_mid)
              (Distinct-unsnoc mid l q r.distinct.1) avoid_mid ad);
        distinct =
            Distinct-snoc nodes h.allocated p r.distinct (Avoids-new h.allocated nodes r.known);
        known = grown h h' nodes p ad.count r.known;
      })
      (add_list-Added h a l p p0 q (first mid l) (final a mid) e.first_node e.last_node avoid_l.0
        r.known.0 known_l.0)

add_second : (h : Heap) (a : ℕ) (p0 p : PStruct) → Adds h p (some a) ((a, p0) ∷ [])
add_second h a p0 p r =
    let new = Avoids-new h.allocated ((a, p0) ∷ []) r.known in
    Returns-mono _ _ (add_list (some a) p h)
      (λ job' h' ad. record {
        points = ad.result;
        linked = (ad.job_node, (ad.new, tt));
        distinct = Distinct-snoc ((a, p0) ∷ []) h.allocated p r.distinct new;
        known = grown h h' ((a, p0) ∷ []) p ad.count r.known;
      })
      (add_list-AddedSecond h a p p0 r.linked.0 r.known.0)

add_first : (h : Heap) (p : PStruct) → Adds h p none []
add_first h p r =
    Returns-mono _ _ (add_list none p h)
      (λ job' h' ad. record {
        points = ad.result;
        linked = (ad.new, tt);
        distinct = (tt, tt);
        known = (omega (arith, ad.count), tt);
      })
      (add_list-AddedFirst h p)

pub add_list-IsRing : (h : Heap) (p : PStruct) (job : Option ℕ) (nodes : Nodes) → Adds h p job nodes
add_list-IsRing h p job [] r = subst (λ j. Adds h p j []) (sym r.points) (add_first h p) r
add_list-IsRing h p job ((a, p0) ∷ rest) r =
    subst (λ j. Adds h p j ((a, p0) ∷ rest)) (sym r.points)
      (elim (snoc-cases rest) [
        | inl e ↦ subst (λ t. Adds h p (some a) ((a, p0) ∷ t)) (sym e) (add_second h a p0 p)
        | inr (mid, l, q, e) ↦
            subst (λ t. Adds h p (some a) ((a, p0) ∷ t)) (sym e) (add_longer h a p0 mid l q p)
      ])
      r
