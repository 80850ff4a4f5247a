-- ===== src/Master/Trial.antt =====
-- prj2/src/sample/user_program/test_md.c: a program that maps one page of the master device and
-- writes to it.
pub mod Acts
pub mod Clean
use os2016spring.Base.{
  ℕ, zero, suc, Bool, true, false, Option, none, some, List, [], ◌∷◌, ◌++◌, length, drop,
}
use os2016spring.Kernel.{ℤ, pos, minus_one, Bytes, Kernel}
use os2016spring.Mapping.{MmapInfo, Area}
use os2016spring.Mapping.Life.{World, opens, maps, faults, unmaps, closes, act, update}
use os2016spring.Master.Device.{driver}

-- The area that `mmap` gives to the device.
abbrev pub new_area : Area
new_area = record {
  vm_ops = false;
  dont_expand = false;
  dont_dump = false;
  vm_private_data = none;
  entries = 0;
}

-- "mm success!!!", the end of the line, and a 0.
abbrev pub message : Bytes
message = 109 ∷ 109 ∷ 32 ∷ 115 ∷ 117 ∷ 99 ∷ 99 ∷ 101 ∷ 115 ∷ 115 ∷ 33 ∷ 33 ∷ 33 ∷ 10 ∷ 0 ∷ []

abbrev pub continue_with : Option World → (World → Option (ℤ × World)) → Option (ℤ × World)
continue_with none f = none
continue_with (some w) f = f w

-- The end of a program with the file `a` open, and with an area of it or none. A mapping holds its
-- file: the release of the file comes after the end of the area, wherever the program calls `close`.
unfoldable pub exit_with : Kernel → (a : ℕ) → Option Area → ℤ → World → Option (ℤ × World)
unfolding act
exit_with k a none end w = continue_with (act driver k (closes a) w) λ w'. some (end, w')
exit_with k a (some vma) end w =
    continue_with (act driver k (unmaps [] vma (drop 1 w.areas)) w)
      λ w1. continue_with (act driver k (closes a) w1) λ w2. some (end, w2)

abbrev pub overwritten : MmapInfo → MmapInfo
overwritten info = record info { page = message ++ drop (length message) info.page }

-- The bytes are written, where the fault has brought the page in; for the areas, of which the first
-- is that of the program, and the object. Without a page `mmap_fault` answers 0 with no page, which is
-- no documented answer: what the kernel does then is a parameter.
unfoldable pub touched :
    Kernel
    → (no_page : World → Option (ℤ × World)) → (a : ℕ) → List Area
    → Option MmapInfo
    → World
    → Option (ℤ × World)
unfolding exit_with
touched k no_page a [] object w = none
touched k no_page a (vma ∷ _) none w = none
touched k no_page a (vma ∷ _) (some info) w = elim vma.entries [
  | zero ↦ no_page w
  | suc _ ↦
      exit_with k a (some vma) (pos 0)
        (record w { objects = update a (some (overwritten info)) w.objects })
]

-- `sprintf` to the start of the page, through the first of the areas.
unfoldable pub write_message :
    Kernel
    → (no_page : World → Option (ℤ × World)) → (a : ℕ) → List Area
    → World
    → Option (ℤ × World)
unfolding act touched
write_message k no_page a [] w = none
write_message k no_page a (vma ∷ back) w =
    continue_with (act driver k (faults [] vma back) w)
      λ w'. touched k no_page a w'.areas (w'.objects a) w'

-- The `mmap` of the open file, which comes to the device or fails before, and the rest of the program.
unfoldable pub map_page :
    Kernel
    → (no_page : World → Option (ℤ × World)) → (a : ℕ) → (maps_page : Bool) → World
    → Option (ℤ × World)
unfolding act write_message exit_with
map_page k no_page a false w = exit_with k a none minus_one w
map_page k no_page a true w =
    continue_with (act driver k (maps a new_area) w) λ w'. write_message k no_page a w'.areas w'

-- The `open` of the device; the file is named by the address that the device gets for it.
unfoldable pub open_device :
    Kernel
    → (no_page : World → Option (ℤ × World)) → (address : Option ℕ) → (maps_page : Bool) → World
    → Option (ℤ × World)
unfolding act map_page
open_device k no_page none maps_page w = none
open_device k no_page (some a) maps_page w =
    continue_with (act driver k opens w) (map_page k no_page a maps_page)

-- `main`, where `open` comes to the device or fails before.
unfoldable pub main :
    Kernel
    → (no_page : World → Option (ℤ × World)) → (opens_device maps_page : Bool) → World
    → Option (ℤ × World)
unfolding open_device
main k no_page false maps_page w = some (pos 1, w)
main k no_page true maps_page w = open_device k no_page (k.kmalloc w.history) maps_page w
