-- ===== src/Master/Trial/Acts.antt =====
-- What one program does to an open file of the master device and an area of it, act by act.
use os2016spring.Base.{
  ℕ, ◌+◌, ◌≡◌, ◌≢◌, refl, ap, ◌∙◌, sym, Bool, true, false, inl, inr, Option, none, some, List, [],
  ◌∷◌, ◌++◌, if◌then◌else◌, ◌==◌, Bool-cases, arith,
}
use os2016spring.Kernel.{Call, History, Kernel}
use os2016spring.Served.Writing.{self, differs}
use os2016spring.Mapping.{MmapInfo, Area}
use os2016spring.Mapping.Life.{
  World, opens, maps, faults, unmaps, closes, act, follow, update, taken, given_back,
}
use os2016spring.Mapping.Sound.{page_users}
use os2016spring.Master.Device.{
  driver, master_open, master_close, mmap_open, mmap_close, mmap_fault, mmap_mmap, info_of,
}
use os2016spring.Master.Trial.{new_area}

-- The objects, the open files and the areas are as before, and each page is given back as often as it
-- has been taken.
pub record Clean (w w' : World) : Type 0 where
  pub objects : (b : ℕ) → w'.objects b ≡ w.objects b
  pub is_open : (b : ℕ) → w'.is_open b ≡ w.is_open b
  pub areas : w'.areas ≡ w.areas
  pub pages :
      (b : ℕ)
      → taken b w'.history + given_back b w.history ≡ given_back b w'.history + taken b w.history

-- The area that `mmap_mmap` leaves of the new one, with some entries.
abbrev pub area_of : (a entries : ℕ) → Area
area_of a entries = record {
  vm_ops = true;
  dont_expand = true;
  dont_dump = true;
  vm_private_data = some a;
  entries = entries;
}

-- What each act does at an address with an object.
module _ (k : Kernel) (a : ℕ) (info : MmapInfo) (w : World) (here : w.objects a ≡ some info) where
  maps_lem :
      act driver k (maps a new_area) w
      ≡ some (record w {
        objects = update a (some (mmap_open info)) w.objects;
        areas = area_of a 0 ∷ w.areas;
      })
  unfolding act mmap_mmap
  maps_lem = rw (act, follow, here) refl

  faults_lem :
      (back : List Area) (page : Bool)
      → info.has_data ≡ page
      → act driver k (faults [] (area_of a 0) back) w
        ≡ some (record w {
          areas = area_of a (if page then 1 else 0) ∷ back;
          history = if page then Call.get_page a ∷ w.history else w.history;
        })
  unfolding act mmap_fault
  faults_lem back true e = rw (act, follow, here, mmap_fault, e) refl
  faults_lem back false e = rw (act, follow, here, mmap_fault, e) refl

  unmaps_lem :
      (entries : ℕ) (back : List Area)
      → act driver k (unmaps [] (area_of a entries) back) w
        ≡ some (record w {
          objects = update a (some (mmap_close info)) w.objects;
          areas = back;
          history = Call.put_pages a entries ∷ w.history;
        })
  unfolding act
  unmaps_lem entries back = rw (act, follow, here) refl

  closes_lem :
      (page : Bool)
      → info.has_data ≡ page
      → act driver k (closes a) w
        ≡ some (record w {
          objects = update a none w.objects;
          is_open = update a false w.is_open;
          history = Call.kfree a ∷ Call.free_page (if page then some a else none) ∷ w.history;
        })
  unfolding act master_close
  closes_lem page e = rw (act, follow, here, master_close, e) refl

-- The file `a` is open, with an object, and with these areas before those of the world before.
pub record Live (a : ℕ) (page : Bool) (entries : ℕ) (own : List Area) (w0 w : World) : Type 0 where
  pub info : MmapInfo
  pub here : w.objects a ≡ some info
  pub has_data : info.has_data ≡ page
  pub others : (b : ℕ) → b ≢ a → w.objects b ≡ w0.objects b
  pub open_others : (b : ℕ) → b ≢ a → w.is_open b ≡ w0.is_open b
  pub areas : w.areas ≡ own ++ w0.areas
  pub pages :
      (b : ℕ)
      → taken b w.history + given_back b w0.history
        ≡ given_back b w.history
          + taken b w0.history
          + (if b == a then page_users page entries else 0)

-- Away from the address an update changes nothing.
pub update-away : {A : Type 0} (a : ℕ) (x : A) (f : ℕ → A) (b : ℕ) → b ≢ a → update a x f b ≡ f b
update-away a x f b away = rw (differs b a (λ e. away (sym e))) refl

pub update-here : {A : Type 0} (a : ℕ) (x : A) (f : ℕ → A) → update a x f a ≡ x
update-here a x f = rw (self a) refl

-- Where all else is as before, the update brings back what was there.
restored :
    {A : Type 0} (a : ℕ) (x : A) (f g : ℕ → A)
    → g a ≡ x
    → ((b : ℕ) → b ≢ a → f b ≡ g b)
    → (b : ℕ) → update a x f b ≡ g b
restored a x f g was same b = elim (Bool-cases (b == a)) [
  | inl e ↦ let at : b ≡ a = ground arith in rw e (sym (ap g at ∙ was))
  | inr e ↦ rw e (same b λ at. absurd (ground (arith, e, at)))
]

-- A command succeeds, and what it leaves satisfies `P`.
abbrev pub Gives : {A : Type 0} → (A → Type 0) → Option A → Type 0
Gives P none = ⊥
Gives P (some a) = P a

module _ (k : Kernel) (a : ℕ) (w0 : World) where
  pub opens-Live :
      (page : Bool)
      → k.kmalloc w0.history ≡ some a
      → k.get_zeroed_page (Call.kmalloc ∷ w0.history) ≡ page
      → Gives (Live a page 0 [] w0) (act driver k opens w0)
  unfolding act master_open
  opens-Live true e page =
      rw (e, act, master_open, page)
        (record {
          info = info_of true (k.left_in_reference w0.history);
          here = update-here a _ w0.objects;
          has_data = refl;
          others = update-away a _ w0.objects;
          open_others = update-away a _ w0.is_open;
          areas = refl;
          pages = λ b. ground arith;
        })
  opens-Live false e page =
      rw (e, act, master_open, page)
        (record {
          info = info_of false (k.left_in_reference w0.history);
          here = update-here a _ w0.objects;
          has_data = refl;
          others = update-away a _ w0.objects;
          open_others = update-away a _ w0.is_open;
          areas = refl;
          pages = λ b. ground arith;
        })

  pub maps-Live :
      (page : Bool) (w : World)
      → Live a page 0 [] w0 w
      → Gives (Live a page 0 (area_of a 0 ∷ []) w0) (act driver k (maps a new_area) w)
  unfolding mmap_open
  maps-Live page w l = rw (maps_lem k a l.info w l.here) (record {
    info = mmap_open l.info;
    here = update-here a _ w.objects;
    has_data = l.has_data;
    others = λ b away. update-away a _ w.objects b away ∙ l.others b away;
    open_others = l.open_others;
    areas = ap (◌∷◌ (area_of a 0)) l.areas;
    pages = l.pages;
  })

  taken_pages :
      (page : Bool) (h : History)
      → ((b : ℕ)
          → taken b h + given_back b w0.history
            ≡ given_back b h + taken b w0.history + (if b == a then page_users page 0 else 0))
      → (b : ℕ)
      → taken b (if page then Call.get_page a ∷ h else h) + given_back b w0.history
        ≡ given_back b (if page then Call.get_page a ∷ h else h)
          + taken b w0.history
          + (if b == a then page_users page (if page then 1 else 0) else 0)
  taken_pages true h before b = ground (arith, before b)
  taken_pages false h before b = before b

  pub faults-Live :
      (page : Bool) (w : World)
      → Live a page 0 (area_of a 0 ∷ []) w0 w
      → Gives
          (Live a page (if page then 1 else 0) (area_of a (if page then 1 else 0) ∷ []) w0)
          (act driver k (faults [] (area_of a 0) w0.areas) w)
  faults-Live page w l = rw (faults_lem k a l.info w l.here w0.areas page l.has_data) (record {
    info = l.info;
    here = l.here;
    has_data = l.has_data;
    others = l.others;
    open_others = l.open_others;
    areas = refl;
    pages = taken_pages page w.history l.pages;
  })

  pub unmaps-Live :
      (page : Bool) (entries : ℕ) (w : World)
      → Live a page entries (area_of a entries ∷ []) w0 w
      → page_users page entries ≡ entries + page_users page 0
      → Gives (Live a page 0 [] w0) (act driver k (unmaps [] (area_of a entries) w0.areas) w)
  unfolding mmap_close
  unmaps-Live page entries w l used = rw (unmaps_lem k a l.info w l.here entries w0.areas) (record {
    info = mmap_close l.info;
    here = update-here a _ w.objects;
    has_data = l.has_data;
    others = λ b away. update-away a _ w.objects b away ∙ l.others b away;
    open_others = l.open_others;
    areas = refl;
    pages = λ b. ground (arith, l.pages b, used);
  })

  pub closes-Clean :
      (page : Bool) (w : World)
      → w0.objects a ≡ none
      → w0.is_open a ≡ false
      → Live a page 0 [] w0 w
      → Gives (Clean w0) (act driver k (closes a) w)
  closes-Clean page w free closed l = rw (closes_lem k a l.info w l.here page l.has_data) (record {
    objects = restored a none w.objects w0.objects free l.others;
    is_open = restored a false w.is_open w0.is_open closed l.open_others;
    areas = l.areas;
    pages = λ b. ground (arith, l.pages b);
  })
