-- ===== src/Mapping/Sound.antt =====
-- What holds of the objects and areas of a device between two acts of the kernel.
use os2016spring.Base.{
  ℕ, ◌+◌, ◌≡◌, refl, subst, ◌≢◌, Bool, true, false, Option, none, some, All, if◌then◌else◌,
}
use os2016spring.Kernel.{Kernel}
use os2016spring.Mapping.{MmapInfo, Area, Driver}
use os2016spring.Mapping.Life.{
  World, fresh, Act, opens, act, Reach, loaded, next, Allowed, total, maps_to, entries_to, taken,
  given_back,
}

-- Those who use the page of an object: itself and each entry, or nobody where there is no page.
abbrev pub page_users : Bool → ℕ → ℕ
page_users true e = e + 1
page_users false e = 0

-- One address: the object there, whether a file is open, the areas that point to it, the entries
-- that hold its page, and how often that is taken and given back.
abbrev pub Counted : Option MmapInfo → Bool → (areas entries t g : ℕ) → Type 0
Counted none o areas entries t g = (o ≡ false) × (areas ≡ 0) × (entries ≡ 0) × (t ≡ g)
Counted (some info) o areas entries t g =
    (o ≡ true)
    × (t ≡ g + page_users info.has_data entries)
    × (entries ≡ (if info.has_data then entries else 0))

abbrev pub Wired : Area → Type 0
Wired vma =
    (vma.vm_ops ≡ true)
    × (vma.dont_expand ≡ true)
    × (vma.dont_dump ≡ true)
    × (vma.vm_private_data ≢ none)

pub record Sound (w : World) : Type 0 where
  pub counted :
      (a : ℕ)
      → Counted
          (w.objects a)
          (w.is_open a)
          (total (maps_to a) w.areas)
          (total (entries_to a) w.areas)
          (taken a w.history)
          (given_back a w.history)
  pub wired : All Wired w.areas

-- The act succeeds and leaves all that sound, or it is an opening for which there is no memory.
abbrev pub Keeps : Kernel → Act → World → Option World → Type 0
Keeps k c w none = (c ≡ opens) × (k.kmalloc w.history ≡ none)
Keeps k c w (some w') = Sound w'

pub fresh-Sound : Sound fresh
fresh-Sound = record { counted = λ a. (refl, refl, refl, refl); wired = tt }

-- What a device has to do for this to go on: it keeps a sound world so, whatever the kernel does.
abbrev pub Shares : Driver → Type 0
Shares d = (k : Kernel) (c : Act) (w : World) → Sound w → Allowed k c w → Keeps k c w (act d k c w)

module _ {d : Driver} (shares : Shares d) {k : Kernel} where
  pub Reach-Sound : {w : World} → Reach d k w → Sound w
  Reach-Sound loaded = fresh-Sound
  Reach-Sound (next {w} c r ok e) = subst (Keeps k c w) e (shares k c w (Reach-Sound r) ok)

  pub Reach-Keeps : {w : World} (c : Act) → Reach d k w → Allowed k c w → Keeps k c w (act d k c w)
  Reach-Keeps {w} c r ok = shares k c w (Reach-Sound r) ok
