-- ===== src/Tests/Trial.antt =====
-- test_md.c on a device that has just been loaded.
use os2016spring.Base.{none, true, refl, []}
use os2016spring.Kernel.{pos}
use os2016spring.Mapping.Life.{fresh, loaded}
use os2016spring.Master.Trial.{main}
use os2016spring.Master.Trial.Acts.{Gives}
use os2016spring.Master.Trial.Clean.{EndsClean, trial-Clean}
use os2016spring.Tests.Transfer.{delivering}

trial-Clean_example :
    Gives (EndsClean fresh (pos 0)) (main (delivering []) (λ w. none) true true fresh)
trial-Clean_example = trial-Clean (delivering []) (λ w. none) true fresh 0 loaded refl refl refl
