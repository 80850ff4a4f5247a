-- ===== src/Served.antt =====
-- prj1: a scheduler together with its jobs. A job is child.c on the slices that are written to its
-- pipe; a `wait` of the scheduler comes back only where the job that it is for has ended.
pub mod Apart
pub mod Writing
pub mod Accounts
use os2016spring.Base.{ℕ, ◌≡◌, true, Option, none, some, List, [], ◌∷◌, ◌++◌, ◌==◌, if◌then◌else◌}
use os2016spring.Os.{Event, Trace}
use os2016spring.Child.{child, finished}

-- What is written to a pipe, in this order.
abbrev pub slices : (pipe : ℕ) → Trace → List ℕ
slices p [] = []
slices p (Event.send q n ∷ t) =
    let before = slices p t in if q == p then before ++ n ∷ [] else before
slices p (_ ∷ t) = slices p t

-- The execution time that the job on a pipe is started with.
abbrev pub asked : (pipe : ℕ) → Trace → Option ℕ
asked p [] = none
asked p (Event.spawn _ q _ e ∷ t) = let before = asked p t in if q == p then some e else before
asked p (_ ∷ t) = asked p t

-- The job on a pipe has read all that is written to it and has ended, with its execution time burned
-- to the unit.
abbrev pub IsServed : (pipe : ℕ) → Trace → Type 0
IsServed p t =
    (e : ℕ) × (asked p t ≡ some e)
    × (child (λ _. true) (slices p t) (record { execution_time = e; burned = 0 })
        ≡ finished (record { execution_time = 0; burned = e }) [])

-- Whenever a job is reaped, it has been served.
abbrev pub Served : Trace → Type 0
Served [] = Unit
Served (Event.reap p ∷ t) = IsServed p t × Served t
Served (_ ∷ t) = Served t
