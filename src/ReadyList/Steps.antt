-- ===== src/ReadyList/Steps.antt =====
-- What the operations on the circular list change in the heap, by the length of the list.
use os2016spring.Base.{ℕ, suc, ◌<◌, ◌≡◌, ◌≢◌, Option, none, some, arith}
use os2016spring.ReadyList.{
  PStruct, Node, Heap, write, load, store, malloc, set_next, set_last, free, add_list, unlink,
  remove_list, process, set_process, next_job,
}

abbrev pub node : PStruct → (next last : ℕ) → Node
node p next last = record { process = p; next = next; last = last }

-- A command ends without a fault, and its result and heap are related.
abbrev pub Returns : {A : Type 0} → (A → Heap → Type 0) → Option (A × Heap) → Type 0
Returns P none = ⊥
Returns P (some (a, h)) = P a h

-- The nodes that `add_list` changes in a list of several.
pub record Added (h : Heap) (job l : ℕ) (p p0 q : PStruct) (x z : ℕ) (r : Option ℕ) (h' : Heap)
    : Type 0 where
  pub result : r ≡ some job
  pub new : h'.node h.allocated ≡ some (node p job l)
  pub last_node : h'.node l ≡ some (node q h.allocated z)
  pub job_node : h'.node job ≡ some (node p0 x h.allocated)
  pub others : (i : ℕ) → i ≢ h.allocated → i ≢ l → i ≢ job → h'.node i ≡ h.node i
  pub count : h'.allocated ≡ suc h.allocated

pub add_list-Added :
    (h : Heap) (job l : ℕ) (p p0 q : PStruct) (x z : ℕ)
    → h.node job ≡ some (node p0 x l)
    → h.node l ≡ some (node q job z)
    → l ≢ job
    → job < h.allocated
    → l < h.allocated
    → Returns (Added h job l p p0 q x z) (add_list (some job) p h)
unfolding add_list malloc set_next set_last load store write
add_list-Added h job l p p0 q x z ej el apart bj bl = ground arith

-- The list has one node, or none.
pub record AddedSecond (h : Heap) (job : ℕ) (p p0 : PStruct) (r : Option ℕ) (h' : Heap)
    : Type 0 where
  pub result : r ≡ some job
  pub new : h'.node h.allocated ≡ some (node p job job)
  pub job_node : h'.node job ≡ some (node p0 h.allocated h.allocated)
  pub count : h'.allocated ≡ suc h.allocated

pub add_list-AddedSecond :
    (h : Heap) (job : ℕ) (p p0 : PStruct)
    → h.node job ≡ some (node p0 job job)
    → job < h.allocated
    → Returns (AddedSecond h job p p0) (add_list (some job) p h)
unfolding add_list malloc set_next set_last load store write
add_list-AddedSecond h job p p0 ej bj = ground arith

pub record AddedFirst (h : Heap) (p : PStruct) (r : Option ℕ) (h' : Heap) : Type 0 where
  pub result : r ≡ some h.allocated
  pub new : h'.node h.allocated ≡ some (node p h.allocated h.allocated)
  pub count : h'.allocated ≡ suc h.allocated

pub add_list-AddedFirst : (h : Heap) (p : PStruct) → Returns (AddedFirst h p) (add_list none p h)
unfolding add_list malloc set_next set_last load store write
add_list-AddedFirst h p = ground arith

-- `remove_list` on a list of three or more, of two, and of one.
pub record Removed (h : Heap) (job b l : ℕ) (q0 q1 : PStruct) (y z : ℕ) (r : Option ℕ) (h' : Heap)
    : Type 0 where
  pub result : r ≡ some b
  pub next_node : h'.node b ≡ some (node q0 y l)
  pub last_node : h'.node l ≡ some (node q1 b z)
  pub others : (i : ℕ) → i ≢ b → i ≢ l → i ≢ job → h'.node i ≡ h.node i
  pub count : h'.allocated ≡ h.allocated

pub remove_list-Removed :
    (h : Heap) (job b l : ℕ) (p q0 q1 : PStruct) (y z : ℕ)
    → h.node job ≡ some (node p b l)
    → h.node b ≡ some (node q0 y job)
    → h.node l ≡ some (node q1 job z)
    → b ≢ job
    → l ≢ job
    → b ≢ l
    → Returns (Removed h job b l q0 q1 y z) (remove_list job h)
unfolding remove_list unlink free set_next set_last load store write
remove_list-Removed h job b l p q0 q1 y z ej eb el nb nl apart = ground arith

pub record RemovedSecond (h : Heap) (b : ℕ) (q : PStruct) (r : Option ℕ) (h' : Heap) : Type 0 where
  pub result : r ≡ some b
  pub next_node : h'.node b ≡ some (node q b b)
  pub count : h'.allocated ≡ h.allocated

pub remove_list-RemovedSecond :
    (h : Heap) (job b : ℕ) (p q : PStruct)
    → h.node job ≡ some (node p b b)
    → h.node b ≡ some (node q job job)
    → b ≢ job
    → Returns (RemovedSecond h b q) (remove_list job h)
unfolding remove_list unlink free set_next set_last load store write
remove_list-RemovedSecond h job b p q ej eb nb = ground arith

pub remove_list-only :
    (h : Heap) (job : ℕ) (p : PStruct)
    → h.node job ≡ some (node p job job)
    → Returns (λ r h'. (r ≡ none) × (h'.allocated ≡ h.allocated)) (remove_list job h)
unfolding remove_list unlink free set_next set_last load store write
remove_list-only h job p ej = ground arith

-- A job is replaced by what it has become.
pub record Replaced (h : Heap) (job : ℕ) (p : PStruct) (x z : ℕ) (h' : Heap) : Type 0 where
  pub job_node : h'.node job ≡ some (node p x z)
  pub others : (i : ℕ) → i ≢ job → h'.node i ≡ h.node i
  pub count : h'.allocated ≡ h.allocated

pub set_process-Replaced :
    (h : Heap) (job : ℕ) (p0 p : PStruct) (x z : ℕ)
    → h.node job ≡ some (node p0 x z)
    → Returns (λ _ h'. Replaced h job p x z h') (set_process job p h)
unfolding set_process load store write
set_process-Replaced h job p0 p x z ej = ground arith

pub process_lem :
    (h : Heap) (job : ℕ) (p : PStruct) (x z : ℕ)
    → h.node job ≡ some (node p x z)
    → process job h ≡ some (p, h)
unfolding process load
process_lem h job p x z ej = ground arith

pub next_job_lem :
    (h : Heap) (job : ℕ) (p : PStruct) (x z : ℕ)
    → h.node job ≡ some (node p x z)
    → next_job job h ≡ some (some x, h)
unfolding next_job load
next_job_lem h job p x z ej = ground arith

pub Returns-mono :
    {A : Type 0} (P Q : A → Heap → Type 0) (r : Option (A × Heap))
    → ((a : A) (h : Heap) → P a h → Q a h)
    → Returns P r
    → Returns Q r
Returns-mono P Q none weaken ret = ret
Returns-mono P Q (some (a, h)) weaken ret = weaken a h ret
