-- ===== src/Results.antt =====
-- prj1: the lines that the schedulers print, against what has happened to the jobs.
pub mod Books
pub mod Printable
use os2016spring.Base.{ℕ, ◌≡◌, ◌⊎◌, Bool, true, some, List, [], ◌∷◌, ◌++◌, map, ◌==◌, if◌then◌else◌}
use os2016spring.Os.{Event, Trace, Timespec, Os, completions, is_sent}
use os2016spring.Complete.{jobs}

-- A printed line: the pid, the start and the end.
abbrev pub Result : Type 0
Result = ℕ × Timespec × Timespec

-- The results in the order in which they are printed.
abbrev pub reports : Trace → List Result
reports [] = []
reports (Event.print_result pid from to ∷ t) = reports t ++ (pid, from, to) ∷ []
reports (_ ∷ t) = reports t

-- The pids of the children that were started on a pipe.
abbrev pub pids : (pipe : ℕ) → Trace → List ℕ
pids p [] = []
pids p (Event.spawn pid q _ _ ∷ t) =
    let before = pids p t in if q == p then before ++ pid ∷ [] else before
pids p (_ ∷ t) = pids p t

-- The times that were read where the job on a pipe started, and where it was reaped.
abbrev pub starts : Os → (pipe : ℕ) → Trace → List Timespec
starts os p [] = []
starts os p (Event.start_time q ∷ t) =
    let before = starts os p t in if q == p then before ++ os.gettime t ∷ [] else before
starts os p (_ ∷ t) = starts os p t

abbrev pub finishes : Os → (pipe : ℕ) → Trace → List Timespec
finishes os p [] = []
finishes os p (Event.reap q ∷ t) =
    let before = finishes os p t in if q == p then before ++ os.gettime t ∷ [] else before
finishes os p (_ ∷ t) = finishes os p t

-- All that is known of a job; the last entry is whether a slice has been written to its pipe.
abbrev pub Facts : Type 0
Facts = List ℕ × List Timespec × List Timespec × Bool

abbrev pub facts : Os → Trace → (pipe : ℕ) → Facts
facts os t p = (pids p t, starts os p t, finishes os p t, is_sent p t)

-- What a printed line says: one child, one start and one end, of a job that has been sent a slice.
abbrev pub says : Result → Facts
says (pid, from, to) = (pid ∷ [], from ∷ [], to ∷ [], true)

-- The last call was the reading of the start of the job on a pipe.
abbrev pub HasJustStarted : (pipe : ℕ) → Trace → Type 0
HasJustStarted p [] = ⊥
HasJustStarted p (Event.start_time q ∷ _) = q ≡ p
HasJustStarted p (_ ∷ _) = ⊥

-- The pids are those that `fork` has given, and the first slice of a job is written directly behind
-- the reading of its start.
abbrev pub Truthful : Os → Trace → Type 0
Truthful os [] = Unit
Truthful os (Event.spawn pid _ _ _ ∷ t) = (os.fork t ≡ some pid) × Truthful os t
Truthful os (Event.send p _ ∷ t) = (HasJustStarted p t ⊎ (is_sent p t ≡ true)) × Truthful os t
Truthful os (_ ∷ t) = Truthful os t

-- There is one line for each completed job, in the order of the completions, and it says all that is
-- known of the job.
abbrev pub AllReported : Os → Trace → Type 0
AllReported os t = map says (reports t) ≡ map (facts os t) (jobs (completions t))

abbrev pub IsTold : Os → Trace → Type 0
IsTold os t = AllReported os t × Truthful os t
