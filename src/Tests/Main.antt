-- ===== src/Tests/Main.antt =====
-- A name that is that of no policy.
use os2016spring.Base.{◌≡◌, refl, [], ◌∷◌}
use os2016spring.Os.{exit}
use os2016spring.Qsort.Insertion.{stable_qsort}
use os2016spring.Main.{find_index, main}
use os2016spring.Tests.Machine.{reliable}

lottery_run :
    main reliable stable_qsort stable_qsort stable_qsort "LOTT" (("P1", 0, 3) ∷ []) ≡ exit 0 []
unfolding main find_index
lottery_run = refl
