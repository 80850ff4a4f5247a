-- ===== src/ReadyList/Queue.antt =====
-- The circular list stands for a queue: each operation on it is the one on the queue.
use os2016spring.Base.{
  ℕ, ◌≡◌, refl, ap, ◌∙◌, subst, Option, none, some, List, [], ◌∷◌, ◌++◌, map, map-append,
}
use os2016spring.ReadyList.{PStruct, Heap, add_list, remove_list, process, set_process, next_job}
use os2016spring.ReadyList.Segments.{Nodes}
use os2016spring.ReadyList.Steps.{Returns, Returns-mono, process_lem}
use os2016spring.ReadyList.Ring.{front, IsRing}
use os2016spring.ReadyList.Adding.{add_list-IsRing}
use os2016spring.ReadyList.Removing.{remove_list-IsRing, next_job-IsRing, set_process-IsRing}

abbrev pub jobs : Nodes → List PStruct
jobs = map (λ m. m.1)

-- The pointer is at the first job of a circle that holds these jobs, in this order.
pub record Holds (h : Heap) (job : Option ℕ) (ps : List PStruct) : Type 0 where
  pub nodes : Nodes
  pub ring : IsRing h job nodes
  pub in_order : jobs nodes ≡ ps

-- The first node of a queue that is not empty.
record Front (h : Heap) (a : ℕ) (p : PStruct) (ps : List PStruct) : Type 0 where
  rest : Nodes
  ring : IsRing h (some a) ((a, p) ∷ rest)
  in_order : jobs rest ≡ ps

Front-nodes :
    (h : Heap) (a : ℕ) (p : PStruct) (ps : List PStruct) (nodes : Nodes)
    → IsRing h (some a) nodes
    → jobs nodes ≡ p ∷ ps
    → Front h a p ps
Front-nodes h a p ps [] r e = absurd (cc)
Front-nodes h a p ps ((b, q) ∷ rest) r e =
    let same_name : b ≡ a = cc (r.points) in
    let same_job : q ≡ p = cc in
    record {
      rest = rest;
      ring =
          subst (λ n. IsRing h (some a) ((n, p) ∷ rest)) same_name
            (subst (λ t. IsRing h (some a) ((b, t) ∷ rest)) same_job r);
      in_order = cc;
    }

Front-Holds :
    (h : Heap) (a : ℕ) (p : PStruct) (ps : List PStruct)
    → Holds h (some a) (p ∷ ps)
    → Front h a p ps
Front-Holds h a p ps v = Front-nodes h a p ps v.nodes v.ring v.in_order

front-some :
    (nodes : Nodes) (p : PStruct) (ps : List PStruct)
    → jobs nodes ≡ p ∷ ps
    → (a : ℕ) × (front nodes ≡ some a)
front-some [] p ps e = absurd (cc)
front-some ((a, q) ∷ rest) p ps e = (a, refl)

front-none : (nodes : Nodes) → jobs nodes ≡ [] → front nodes ≡ none
front-none [] e = refl
front-none ((a, q) ∷ rest) e = absurd (cc)

-- Where the circle holds a job the pointer is not NULL, and where it holds none it is.
pub Holds-some :
    (h : Heap) (job : Option ℕ) (p : PStruct) (ps : List PStruct)
    → Holds h job (p ∷ ps)
    → (a : ℕ) × (job ≡ some a)
Holds-some h job p ps v = let (a, e) = front-some v.nodes p ps v.in_order in (a, v.ring.points ∙ e)

pub Holds-none : (h : Heap) (job : Option ℕ) → Holds h job [] → job ≡ none
Holds-none h job v = v.ring.points ∙ front-none v.nodes v.in_order

jobs-append : (xs ys : Nodes) → jobs (xs ++ ys) ≡ jobs xs ++ jobs ys
jobs-append xs ys = rw map-append

-- `add_list` puts the job at the end of the queue.
pub add_list-Holds :
    (h : Heap) (job : Option ℕ) (ps : List PStruct) (p : PStruct)
    → Holds h job ps
    → Returns (λ job' h'. Holds h' job' (ps ++ p ∷ [])) (add_list job p h)
add_list-Holds h job ps p v =
    Returns-mono _ _ (add_list job p h)
      (λ job' h' r. record {
        nodes = v.nodes ++ (h.allocated, p) ∷ [];
        ring = r;
        in_order = jobs-append v.nodes ((h.allocated, p) ∷ []) ∙ ap (λ l. l ++ p ∷ []) v.in_order;
      })
      (add_list-IsRing h p job v.nodes v.ring)

-- `remove_list` takes the first job off the queue.
pub remove_list-Holds :
    (h : Heap) (a : ℕ) (p : PStruct) (ps : List PStruct)
    → Holds h (some a) (p ∷ ps)
    → Returns (λ job' h'. Holds h' job' ps) (remove_list a h)
remove_list-Holds h a p ps v =
    let f = Front-Holds h a p ps v in
    Returns-mono _ _ (remove_list a h)
      (λ job' h' r. record { nodes = f.rest; ring = r; in_order = f.in_order })
      (remove_list-IsRing h a p f.rest f.ring)

-- Going to the next node takes the first job to the end of the queue.
pub next_job-Holds :
    (h : Heap) (a : ℕ) (p : PStruct) (ps : List PStruct)
    → Holds h (some a) (p ∷ ps)
    → Returns (λ job' h'. Holds h' job' (ps ++ p ∷ [])) (next_job a h)
next_job-Holds h a p ps v =
    let f = Front-Holds h a p ps v in
    Returns-mono _ _ (next_job a h)
      (λ job' h' r. record {
        nodes = f.rest ++ (a, p) ∷ [];
        ring = r;
        in_order = jobs-append f.rest ((a, p) ∷ []) ∙ ap (λ l. l ++ p ∷ []) f.in_order;
      })
      (next_job-IsRing h a p f.rest f.ring)

-- The pointer leads to the first job, and what is written there is the first job from then on.
pub process-Holds :
    (h : Heap) (a : ℕ) (p : PStruct) (ps : List PStruct)
    → Holds h (some a) (p ∷ ps)
    → process a h ≡ some (p, h)
process-Holds h a p ps v = let f = Front-Holds h a p ps v in process_lem h a p _ _ f.ring.linked.0

pub set_process-Holds :
    (h : Heap) (a : ℕ) (p p' : PStruct) (ps : List PStruct)
    → Holds h (some a) (p ∷ ps)
    → Returns (λ _ h'. Holds h' (some a) (p' ∷ ps)) (set_process a p' h)
set_process-Holds h a p p' ps v =
    let f = Front-Holds h a p ps v in
    Returns-mono _ _ (set_process a p' h)
      (λ _ h' r. record { nodes = (a, p') ∷ f.rest; ring = r; in_order = ap (◌∷◌ p') f.in_order })
      (set_process-IsRing h a p p' f.rest f.ring)
