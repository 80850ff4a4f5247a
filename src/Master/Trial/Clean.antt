-- ===== src/Master/Trial/Clean.antt =====
-- test_md.c leaves nothing behind in the master device.
use os2016spring.Base.{
  ℕ, ◌+◌, ◌≡◌, refl, ap, ◌∙◌, subst, sym, Bool, true, false, Option, none, some, [], ◌∷◌, drop,
  if◌then◌else◌,
}
use os2016spring.Kernel.{ℤ, Call, pos, minus_one, Kernel}
use os2016spring.Mapping.{MmapInfo}
use os2016spring.Mapping.Life.{World, Reach, opens, maps, unmaps, closes, act, update}
use os2016spring.Mapping.Sound.{page_users, Counted}
use os2016spring.Master.Device.{driver}
use os2016spring.Master.Pages.{master-Sound}
use os2016spring.Master.Trial.{
  exit_with, write_message, overwritten, touched, map_page, open_device, main, new_area,
  continue_with,
}
use os2016spring.Master.Trial.Acts.{
  Clean, Live, Gives, area_of, opens-Live, maps-Live, faults-Live, unmaps-Live, closes-Clean,
  update-here, update-away,
}

-- What the program returns, where `mmap` comes to the device or not.
abbrev pub ending : (maps_page : Bool) → ℤ
ending maps_page = if maps_page then pos 0 else minus_one

-- The program returns this, and leaves nothing behind.
abbrev pub EndsClean : World → ℤ → ℤ × World → Type 0
EndsClean w0 end r = (r.0 ≡ end) × Clean w0 r.1

continue_with-Gives :
    {P : World → Type 0} (Q : ℤ × World → Type 0) (o : Option World)
    (f : World → Option (ℤ × World))
    → Gives P o
    → ((w : World) → P w → Gives Q (f w))
    → Gives Q (continue_with o f)
continue_with-Gives Q none f p next = absurd p
continue_with-Gives Q (some w) f p next = next w p

module _ (k : Kernel) (no_page : World → Option (ℤ × World)) (a : ℕ) (w0 : World) where
  -- The end of the program, with the page mapped or not.
  exit_none-Clean :
      (page : Bool) (end : ℤ) (w : World)
      → w0.objects a ≡ none
      → w0.is_open a ≡ false
      → Live a page 0 [] w0 w
      → Gives (EndsClean w0 end) (exit_with k a none end w)
  unfolding exit_with
  exit_none-Clean page end w free closed l =
      continue_with-Gives _ (act driver k (closes a) w) _ (closes-Clean k a w0 page w free closed l)
        λ w' c. (refl, c)

  exit_mapped-Clean :
      (page : Bool) (entries : ℕ) (end : ℤ) (w : World)
      → w0.objects a ≡ none
      → w0.is_open a ≡ false
      → page_users page entries ≡ entries + page_users page 0
      → Live a page entries (area_of a entries ∷ []) w0 w
      → Gives (EndsClean w0 end) (exit_with k a (some (area_of a entries)) end w)
  unfolding exit_with
  exit_mapped-Clean page entries end w free closed used l =
      continue_with-Gives (EndsClean w0 end)
        (act driver k (unmaps [] (area_of a entries) (drop 1 w.areas)) w)
        (λ w1. continue_with (act driver k (closes a) w1) λ w2. some (end, w2))
        (subst
          (λ back.
            Gives (Live a page 0 [] w0) (act driver k (unmaps [] (area_of a entries) back) w))
          (sym (ap (drop 1) l.areas)) (unmaps-Live k a w0 page entries w l used))
        λ w1 l1.
          continue_with-Gives (EndsClean w0 end) (act driver k (closes a) w1) (λ w2. some (end, w2))
            (closes-Clean k a w0 page w1 free closed l1) λ w2 c. (refl, c)

  -- The page is faulted in.
  written :
      (w : World)
      → w0.objects a ≡ none
      → w0.is_open a ≡ false
      → (l : Live a true 1 (area_of a 1 ∷ []) w0 w)
      → Gives (EndsClean w0 (pos 0)) (touched k no_page a (area_of a 1 ∷ w0.areas) (some l.info) w)
  unfolding touched
  written w free closed l =
      let info' = overwritten l.info in
      let w' = record w { objects = update a (some info') w.objects } in
      exit_mapped-Clean true 1 (pos 0) w' free closed refl (record {
        info = info';
        here = update-here a (some info') w.objects;
        has_data = l.has_data;
        others = λ b away. update-away a (some info') w.objects b away ∙ l.others b away;
        open_others = l.open_others;
        areas = l.areas;
        pages = l.pages;
      })

  write_message-Clean :
      (w : World)
      → w0.objects a ≡ none
      → w0.is_open a ≡ false
      → Live a true 0 (area_of a 0 ∷ []) w0 w
      → Gives (EndsClean w0 (pos 0)) (write_message k no_page a (area_of a 0 ∷ w0.areas) w)
  unfolding write_message
  write_message-Clean w free closed l =
      continue_with-Gives (EndsClean w0 (pos 0)) _
        (λ w1. touched k no_page a w1.areas (w1.objects a) w1) (faults-Live k a w0 true w l)
        λ w1 l1.
          subst (λ l. Gives (EndsClean w0 (pos 0)) (touched k no_page a l (w1.objects a) w1))
            (sym l1.areas)
            (subst
              (λ o.
                Gives (EndsClean w0 (pos 0)) (touched k no_page a (area_of a 1 ∷ w0.areas) o w1))
              (sym l1.here) (written w1 free closed l1))

  map_page-Clean :
      (maps_page : Bool) (w : World)
      → w0.objects a ≡ none
      → w0.is_open a ≡ false
      → Live a true 0 [] w0 w
      → Gives (EndsClean w0 (ending maps_page)) (map_page k no_page a maps_page w)
  unfolding map_page
  map_page-Clean false w free closed l = exit_none-Clean true minus_one w free closed l
  map_page-Clean true w free closed l =
      continue_with-Gives (EndsClean w0 (pos 0)) (act driver k (maps a new_area) w)
        (λ w1. write_message k no_page a w1.areas w1) (maps-Live k a w0 true w l)
        λ w1 l1.
          subst (λ l. Gives (EndsClean w0 (pos 0)) (write_message k no_page a l w1)) (sym l1.areas)
            (write_message-Clean w1 free closed l1)

-- Where no object is, no file is open.
unused-closed :
    (o : Option MmapInfo) (open_here : Bool) (n e taken_here given_here : ℕ)
    → o ≡ none
    → Counted o open_here n e taken_here given_here
    → open_here ≡ false
unused-closed none open_here n e t g at c = c.0
unused-closed (some info) open_here n e t g at c = absurd (cc)

-- For the master device in a world that openings, mappings, forks, faults, unmappings and closings
-- lead to, a `kmalloc` that gives an address that is not in use, and a page for it: test_md.c, whose
-- `open` gives the device, ends. It returns 0 where `mmap` comes to the device, and -1 where `mmap`
-- fails before. In each case the objects, the open files and the areas are as they were before, and
-- each page has been given back as often as it has been taken.
pub trial-Clean :
    (k : Kernel) (no_page : World → Option (ℤ × World)) (maps_page : Bool) (w : World) (a : ℕ)
    → Reach driver k w
    → k.kmalloc w.history ≡ some a
    → k.get_zeroed_page (Call.kmalloc ∷ w.history) ≡ true
    → w.objects a ≡ none
    → Gives (EndsClean w (ending maps_page)) (main k no_page true maps_page w)
unfolding main open_device
trial-Clean k no_page maps_page w a reached given page free =
    let closed = unused-closed _ (w.is_open a) _ _ _ _ free ((master-Sound reached).counted a) in
    subst (λ o. Gives (EndsClean w (ending maps_page)) (open_device k no_page o maps_page w))
      (sym given)
      (continue_with-Gives (EndsClean w (ending maps_page)) (act driver k opens w)
        (map_page k no_page a maps_page) (opens-Live k a w true given page)
        λ w1 l. map_page-Clean k no_page a w maps_page w1 free closed l)
