-- ===== src/ReadyList/Removing.antt =====
-- `remove_list` of prj1/rr.c, and the moves of the pointer, on a circle of nodes.
use os2016spring.Base.{ℕ, inl, inr, refl, sym, subst, some, [], ◌∷◌, ◌++◌, All-append}
use os2016spring.ReadyList.{PStruct, Heap, remove_list, set_process, next_job}
use os2016spring.ReadyList.Segments.{
  Nodes, first, final, Seg-frame, Distinct-snoc, Distinct-unsnoc, All-split, snoc-cases,
}
use os2016spring.ReadyList.Steps.{
  Returns, Returns-mono, remove_list-Removed, remove_list-RemovedSecond, remove_list-only,
  set_process-Replaced, next_job_lem,
}
use os2016spring.ReadyList.Ring.{Known, IsRing, spared, Circle-Ends, Ends-Circle}

-- What is to be shown of `remove_list`: it leaves the other jobs, in their order.
abbrev Removes : Heap → ℕ → PStruct → Nodes → Type 0
Removes h a p rest =
    IsRing h (some a) ((a, p) ∷ rest) → Returns (λ job' h'. IsRing h' job' rest) (remove_list a h)

remove_only : (h : Heap) (a : ℕ) (p : PStruct) → Removes h a p []
remove_only h a p r =
    Returns-mono _ _ (remove_list a h)
      (λ job' h' (gone, count). record { points = gone; linked = tt; distinct = tt; known = tt })
      (remove_list-only h a p r.linked.0)

remove_second : (h : Heap) (a : ℕ) (p : PStruct) (b : ℕ) (q : PStruct) → Removes h a p ((b, q) ∷ [])
remove_second h a p b q r =
    Returns-mono _ _ (remove_list a h)
      (λ job' h' re. record {
        points = re.result;
        linked = (re.next_node, tt);
        distinct = (tt, tt);
        known = rw re.count r.known.1;
      })
      (remove_list-RemovedSecond h a b p q r.linked.0 r.linked.1.0 r.distinct.0.0)

remove_longer :
    (h : Heap) (a : ℕ) (p : PStruct) (b : ℕ) (q0 : PStruct) (mid : Nodes) (l : ℕ) (q1 : PStruct)
    → Removes h a p ((b, q0) ∷ (mid ++ (l, q1) ∷ []))
remove_longer h a p b q0 mid l q1 r =
    let e = Circle-Ends h.node a p ((b, q0) ∷ mid) l q1 r.linked in
    let (mid_a, l_a) = All-split _ mid ((l, q1) ∷ []) r.distinct.0.1 in
    let (mid_b, l_b) = All-split _ mid ((l, q1) ∷ []) r.distinct.1.0 in
    let mid_l = Distinct-unsnoc mid l q1 r.distinct.1.1 in
    Returns-mono _ _ (remove_list a h)
      (λ job' h' re. record {
        points = re.result;
        linked = Ends-Circle h'.node b q0 mid l q1 (record {
          first_node = re.next_node;
          between =
              Seg-frame h.node h'.node b mid l
                (spared h.node h'.node b l a mid re.others mid_b mid_l mid_a) e.between.1;
          last_node = re.last_node;
        });
        distinct = r.distinct.1;
        known = subst (λ n. Known n ((b, q0) ∷ (mid ++ (l, q1) ∷ []))) (sym re.count) r.known.1;
      })
      (remove_list-Removed h a b l p q0 q1 (first mid l) (final b mid) e.first_node e.between.0
        e.last_node r.distinct.0.0 l_a.0 (λ same. l_b.0 (sym same)))

pub remove_list-IsRing : (h : Heap) (a : ℕ) (p : PStruct) (rest : Nodes) → Removes h a p rest
remove_list-IsRing h a p [] = remove_only h a p
remove_list-IsRing h a p ((b, q0) ∷ rest) = elim (snoc-cases rest) [
  | inl e ↦ subst (λ t. Removes h a p ((b, q0) ∷ t)) (sym e) (remove_second h a p b q0)
  | inr (mid, l, q1, e) ↦
      subst (λ t. Removes h a p ((b, q0) ∷ t)) (sym e) (remove_longer h a p b q0 mid l q1)
]

-- The pointer goes to the next node: the first job is now the last one.
pub next_job-IsRing :
    (h : Heap) (a : ℕ) (p : PStruct) (rest : Nodes)
    → IsRing h (some a) ((a, p) ∷ rest)
    → Returns (λ job' h'. IsRing h' job' (rest ++ (a, p) ∷ [])) (next_job a h)
next_job-IsRing h a p [] r = rw (next_job_lem h a p a a r.linked.0) r
next_job-IsRing h a p ((b, q) ∷ rest) r =
    rw (next_job_lem h a p b (final b rest) r.linked.0) (record {
      points = refl;
      linked =
          Ends-Circle h.node b q rest a p
            (record { first_node = r.linked.1.0; between = r.linked.1.1; last_node = r.linked.0 });
      distinct = Distinct-snoc ((b, q) ∷ rest) a p r.distinct.1 r.distinct.0;
      known = All-append _ ((b, q) ∷ rest) ((a, p) ∷ []) r.known.1 (r.known.0, tt);
    })

-- The first job is replaced by what it has become.
pub set_process-IsRing :
    (h : Heap) (a : ℕ) (p p' : PStruct) (rest : Nodes)
    → IsRing h (some a) ((a, p) ∷ rest)
    → Returns (λ _ h'. IsRing h' (some a) ((a, p') ∷ rest)) (set_process a p' h)
set_process-IsRing h a p p' rest r =
    Returns-mono _ _ (set_process a p' h)
      (λ _ h' re. record {
        points = refl;
        linked = (
          re.job_node,
          Seg-frame h.node h'.node a rest a
              (spared h.node h'.node a a a rest (λ i n _ _. re.others i n) r.distinct.0 r.distinct.0
                r.distinct.0)
              r.linked.1,
        );
        distinct = r.distinct;
        known = subst (λ n. Known n ((a, p') ∷ rest)) (sym re.count) r.known;
      })
      (set_process-Replaced h a p p' (first rest a) (final a rest) r.linked.0)
