-- ===== src/Master/Pages.antt =====
-- The master device shares its pages soundly.
use os2016spring.Base.{
  ℕ, ◌+◌, ◌≡◌, refl, subst, inl, inr, some, List, ◌∷◌, ◌++◌, All, All-split, All-middle, Bool-cases,
  Option-cases, arith,
}
use os2016spring.Kernel.{Call, Kernel}
use os2016spring.Mapping.{MmapInfo, Area}
use os2016spring.Mapping.Life.{
  World, Act, opens, maps, forks, faults, unmaps, closes, act, Allowed, Reach, total, maps_to,
  entries_to, total-middle, entries_to-unmapped,
}
use os2016spring.Mapping.Sound as Sharing
use os2016spring.Mapping.Sound.{Wired, Sound, Keeps, Shares}
use os2016spring.Master.Device.{
  driver, master_open, master_close, mmap_open, mmap_close, mmap_fault, mmap_mmap,
}

opens-Keeps :
    (k : Kernel) (w : World) → Sound w → Allowed k opens w → Keeps k opens w (act driver k opens w)
unfolding act master_open
opens-Keeps k w s free = elim (Option-cases (k.kmalloc w.history)) [
  | inl e ↦ rw (e, act, Keeps) (refl, e)
  | inr (a, e) ↦ elim (Bool-cases (k.get_zeroed_page (Call.kmalloc ∷ w.history))) [
    | inl f ↦
        rw (e, f, act, master_open, Keeps)
          record { counted = λ b. ground (arith, s.counted b, free a e); wired = s.wired }
    | inr f ↦
        rw (e, f, act, master_open, Keeps)
          record { counted = λ b. ground (arith, s.counted b, free a e); wired = s.wired }
  ]
]

maps-Keeps :
    (k : Kernel) (file : ℕ) (vma : Area) (w : World)
    → Sound w
    → Allowed k (maps file vma) w
    → Keeps k (maps file vma) w (act driver k (maps file vma) w)
unfolding act mmap_mmap mmap_open
maps-Keeps k file vma w s ok = elim (Option-cases (w.objects file)) [
  | inl e ↦ absurd (ground (arith, s.counted file, e))
  | inr (info, e) ↦
      rw (e, act, Keeps)
        record {
          counted = λ b. ground (arith, s.counted b, s.counted file, e);
          wired = ((refl, refl, refl, λ q. cc), s.wired);
        }
]

closes-Keeps :
    (k : Kernel) (file : ℕ) (w : World)
    → Sound w
    → Allowed k (closes file) w
    → Keeps k (closes file) w (act driver k (closes file) w)
unfolding act master_close
closes-Keeps k file w s ok = elim (Option-cases (w.objects file)) [
  | inl e ↦ absurd (ground (arith, s.counted file, e))
  | inr (info, e) ↦ elim (Bool-cases info.has_data) [
    | inl g ↦
        rw (e, g, act, master_close, Keeps)
          record {
            counted = λ b. ground (arith, s.counted b, s.counted file, e, g, unmapped);
            wired = s.wired;
          }
    | inr g ↦
        rw (e, g, act, master_close, Keeps)
          record {
            counted = λ b. ground (arith, s.counted b, s.counted file, e, g, unmapped);
            wired = s.wired;
          }
  ]
]
  where
    unmapped : total (entries_to file) w.areas ≡ 0
    unmapped = entries_to-unmapped file w.areas ok.1

-- An area among the others, in a sound world.
module _ (k : Kernel) (front : List Area) (vma : Area) (back : List Area) (w : World) (s : Sound w)
    (here : w.areas ≡ front ++ vma ∷ back) where
  wired : Wired vma × All Wired (front ++ back)
  wired = All-split Wired front vma back (subst (All Wired) here s.wired)

  mapped : (a : ℕ) → total (maps_to a) w.areas ≡ maps_to a vma + total (maps_to a) (front ++ back)
  mapped a = rw here (total-middle (maps_to a) front vma back)

  held :
      (a : ℕ)
      → total (entries_to a) w.areas ≡ entries_to a vma + total (entries_to a) (front ++ back)
  held a = rw here (total-middle (entries_to a) front vma back)

  -- It points to an object that is not freed.
  pointed : (a : ℕ) × (info : MmapInfo) × (vma.vm_private_data ≡ some a) × (w.objects a ≡ some info)
  pointed = elim (Option-cases vma.vm_private_data) [
    | inl e ↦ absurd (wired.0.3 e)
    | inr (a, e) ↦ elim (Option-cases (w.objects a)) [
      | inl f ↦ absurd (ground (arith, s.counted a, mapped a, e, f))
      | inr (info, f) ↦ (a, info, e, f)
    ]
  ]

  forks-Keeps : Keeps k (forks front vma back) w (act driver k (forks front vma back) w)
  unfolding act mmap_open
  forks-Keeps =
      let (a, info, e, f) = pointed in
      rw (e, f, act, Keeps)
        record {
          counted = λ b. ground (arith, s.counted b, s.counted a, e, f);
          wired = ((wired.0.0, wired.0.1, wired.0.2, λ q. cc), s.wired);
        }

  unmaps-Keeps : Keeps k (unmaps front vma back) w (act driver k (unmaps front vma back) w)
  unfolding act mmap_close
  unmaps-Keeps =
      let (a, info, e, f) = pointed in
      rw (e, f, act, Keeps)
        record {
          counted = λ b. ground (arith, s.counted b, s.counted a, e, f, mapped b, held b);
          wired = wired.1;
        }

  faults-Keeps : Keeps k (faults front vma back) w (act driver k (faults front vma back) w)
  unfolding act mmap_fault
  faults-Keeps =
      let (a, info, e, f) = pointed in
      let with_entries : ℕ → Area = λ n. record vma { vm_private_data = some a; entries = n } in
      elim (Bool-cases info.has_data) [
        | inl g ↦
            rw (e, f, g, act, mmap_fault, Keeps)
              record {
                counted = λ b. ground (
                  arith,
                  s.counted b,
                  s.counted a,
                  e,
                  f,
                  g,
                  mapped b,
                  held b,
                  total-middle (maps_to b) front (with_entries (vma.entries + 1)) back,
                  total-middle (entries_to b) front (with_entries (vma.entries + 1)) back,
                );
                wired =
                    All-middle Wired front (with_entries (vma.entries + 1)) back
                      (wired.0.0, wired.0.1, wired.0.2, λ q. cc) wired.1;
              }
        | inr g ↦
            rw (e, f, g, act, mmap_fault, Keeps)
              record {
                counted = λ b. ground (
                  arith,
                  s.counted b,
                  s.counted a,
                  e,
                  f,
                  g,
                  mapped b,
                  held b,
                  total-middle (maps_to b) front (with_entries vma.entries) back,
                  total-middle (entries_to b) front (with_entries vma.entries) back,
                );
                wired =
                    All-middle Wired front (with_entries vma.entries) back
                      (wired.0.0, wired.0.1, wired.0.2, λ q. cc) wired.1;
              }
      ]

pub driver-Shares : Shares driver
driver-Shares k opens w s ok = opens-Keeps k w s ok
driver-Shares k (maps file vma) w s ok = maps-Keeps k file vma w s ok
driver-Shares k (forks front vma back) w s ok = forks-Keeps k front vma back w s ok
driver-Shares k (faults front vma back) w s ok = faults-Keeps k front vma back w s ok
driver-Shares k (unmaps front vma back) w s ok = unmaps-Keeps k front vma back w s ok
driver-Shares k (closes file) w s ok = closes-Keeps k file w s ok

-- In every world that openings, mappings, forks, faults, unmappings and closings lead to from the
-- loading of the master device, each object that `kmalloc` has given belongs to an open file; its
-- page, where it has one, is taken once for the object and once for each entry of a page table that
-- holds it, and where the object is freed, as often as it is given back; and each area has the
-- operations of the device and the bits of VM_RESERVED and points to an object that is not freed.
pub master-Sound : {k : Kernel} {w : World} → Reach driver k w → Sound w
master-Sound = Sharing.Reach-Sound driver-Shares

-- In every world that openings, mappings, forks, faults, unmappings and closings lead to from the
-- loading of the master device, whatever of that the kernel does next where it may, the device uses
-- no pointer that is NULL or points to a freed object, unless a file is opened and there is no
-- memory.
pub master-Keeps :
    {k : Kernel} {w : World} (c : Act)
    → Reach driver k w
    → Allowed k c w
    → Keeps k c w (act driver k c w)
master-Keeps = Sharing.Reach-Keeps driver-Shares
