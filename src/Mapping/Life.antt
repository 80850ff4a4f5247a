-- ===== src/Mapping/Life.antt =====
-- The life of the objects of master_device.c and slave_device.c: files are opened and closed, areas
-- are mapped, copied by fork, faulted in and unmapped, in any order that the kernel allows.
use os2016spring.Base.{
  ℕ, ◌+◌, ◌≡◌, refl, Bool, true, false, Option, none, some, List, [], ◌∷◌, ◌++◌, ◌==◌,
  if◌then◌else◌, arith,
}
use os2016spring.Kernel.{Call, History, Kernel}
use os2016spring.Mapping.{MmapInfo, Area, Driver}

-- The objects that `kmalloc` has given and `kfree` has not taken back, by their address; whether a
-- file is open with this address as its `private_data`; the areas of all programs.
pub record World : Type 0 where
  pub objects : ℕ → Option MmapInfo
  pub is_open : ℕ → Bool
  pub areas : List Area
  pub history : History

abbrev pub fresh : World
fresh = record { objects = λ _. none; is_open = λ _. false; areas = []; history = [] }

abbrev pub update {ℓ} : {A : Type ℓ} → ℕ → A → (ℕ → A) → ℕ → A
update a x f b = if b == a then x else f b

-- What the kernel does with a file or an area; the area is given with those before and behind it.
pub data Act : Type 0 where
  opens : Act
  maps : (file : ℕ) → Area → Act
  forks : (front : List Area) → Area → (back : List Area) → Act
  faults : (front : List Area) → Area → (back : List Area) → Act
  unmaps : (front : List Area) → Area → (back : List Area) → Act
  closes : (file : ℕ) → Act

-- A pointer is followed to its object; none where it is NULL or the object is freed.
abbrev pub follow : Option ℕ → World → (ℕ → MmapInfo → Option World) → Option World
follow none w f = none
follow (some a) w f = elim (w.objects a) [ none ↦ none | some info ↦ f a info ]

-- The calls of the device that go with it; none where the device uses a pointer that is NULL or
-- points to what is freed.
unfoldable pub act : Driver → Kernel → Act → World → Option World
act d k opens w =
    let (file, h) = d.open_file k w.history in
    elim file [
      | none ↦ none
      | some (a, info) ↦ some (record w {
        objects = update a (some info) w.objects;
        is_open = update a true w.is_open;
        history = h;
      })
    ]
act d k (maps file vma) w = follow (some file) w λ a info.
    let (info', vma', _) = d.mmap a info vma in
    some (record w { objects = update a (some info') w.objects; areas = vma' ∷ w.areas })
act d k (forks front vma back) w = follow vma.vm_private_data w λ a info. some (record w {
  objects = update a (some (d.vm_open info)) w.objects;
  areas = record vma { entries = 0 } ∷ w.areas;
})
act d k (faults front vma back) w = follow vma.vm_private_data w λ a info.
    let (page, _, h) = d.vm_fault a info w.history in
    let vma' = if page then record vma { entries = vma.entries + 1 } else vma in
    some (record w { areas = front ++ vma' ∷ back; history = h })
act d k (unmaps front vma back) w = follow vma.vm_private_data w λ a info. some (record w {
  objects = update a (some (d.vm_close info)) w.objects;
  areas = front ++ back;
  history = Call.put_pages a vma.entries ∷ w.history;
})
act d k (closes file) w = follow (some file) w λ a info.
    let (left, h) = d.release a info w.history in
    some (record w {
      objects = update a left w.objects;
      is_open = update a false w.is_open;
      history = h;
    })

abbrev pub total {ℓ} : {A : Type ℓ} → (A → ℕ) → List A → ℕ
total f [] = 0
total f (x ∷ xs) = f x + total f xs

abbrev points_to : ℕ → Option ℕ → Bool
points_to a none = false
points_to a (some b) = a == b

-- Whether an area points to the object at `a`, as 1 or 0, and how many entries hold the page of it.
abbrev pub maps_to : ℕ → Area → ℕ
maps_to a vma = if points_to a vma.vm_private_data then 1 else 0

abbrev pub entries_to : ℕ → Area → ℕ
entries_to a vma = if points_to a vma.vm_private_data then vma.entries else 0

-- When the kernel does it: `kmalloc` gives what is not in use; a file is mapped while it is open;
-- it is closed when it is open and no area maps it.
abbrev pub Allowed : Kernel → Act → World → Type 0
Allowed k opens w = (a : ℕ) → k.kmalloc w.history ≡ some a → w.objects a ≡ none
Allowed k (maps file vma) w = (w.is_open file ≡ true) × (vma.entries ≡ 0)
Allowed k (forks front vma back) w = w.areas ≡ front ++ vma ∷ back
Allowed k (faults front vma back) w = w.areas ≡ front ++ vma ∷ back
Allowed k (unmaps front vma back) w = w.areas ≡ front ++ vma ∷ back
Allowed k (closes file) w = (w.is_open file ≡ true) × (total (maps_to file) w.areas ≡ 0)

pub data Reach (d : Driver) (k : Kernel) : World → Type 0 where
  loaded : Reach d k fresh
  next :
      {w w' : World} (c : Act) → Reach d k w → Allowed k c w → act d k c w ≡ some w' → Reach d k w'

-- How often the page of the object at `a` is taken, and given back.
abbrev pub taken : ℕ → History → ℕ
taken a [] = 0
taken a (Call.get_zeroed_page b ∷ h) = let n = taken a h in if a == b then n + 1 else n
taken a (Call.get_page b ∷ h) = let n = taken a h in if a == b then n + 1 else n
taken a (_ ∷ h) = taken a h

abbrev pub given_back : ℕ → History → ℕ
given_back a [] = 0
given_back a (Call.free_page (some b) ∷ h) = let n = given_back a h in if a == b then n + 1 else n
given_back a (Call.put_pages b e ∷ h) = let n = given_back a h in if a == b then n + e else n
given_back a (_ ∷ h) = given_back a h

pub total-middle {ℓ} :
    {A : Type ℓ} (f : A → ℕ) (front : List A) (x : A) (back : List A)
    → total f (front ++ x ∷ back) ≡ f x + total f (front ++ back)
total-middle f [] x back = refl
total-middle f (y ∷ front) x back = omega (arith, total-middle f front x back)

-- Where no area points to an object, no entry holds its page.
pub entries_to-unmapped :
    (a : ℕ) (areas : List Area) → total (maps_to a) areas ≡ 0 → total (entries_to a) areas ≡ 0
entries_to-unmapped a [] h = refl
entries_to-unmapped a (vma ∷ areas) h = ground (arith, entries_to-unmapped a areas)
