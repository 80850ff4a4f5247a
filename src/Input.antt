-- ===== src/Input.antt =====
-- The lines of the input of prj1 as tasks, and what they sum up to.
use os2016spring.Base.{ℕ, suc, ◌+◌, ◌≤◌, ◌≡◌, ◌≢◌, refl, ap, List, [], ◌∷◌, All, length, map}
use os2016spring.Batch.{Line}
use os2016spring.Qsort.Unique.{Spread}
use os2016spring.Task.{Task}
use os2016spring.Served.Apart.{Numbered}

-- The jobs in the order of the input, with their pipes numbered on from `i`.
abbrev pub as_tasks : (i : ℕ) → List Line → List Task
as_tasks i [] = []
as_tasks i ((_, r, e) ∷ input) = record { pipe = i; ready = r; burst = e } ∷ as_tasks (suc i) input

-- The numbers of the jobs.
abbrev pub numbers : (i : ℕ) → List Line → List ℕ
numbers i [] = []
numbers i (_ ∷ input) = i ∷ numbers (suc i) input

abbrev pub total_time : List Line → ℕ
total_time [] = 0
total_time ((_, _, e) ∷ input) = e + total_time input

abbrev pub ReadyBy : ℕ → Line → Type 0
ReadyBy last (_, r, _) = r ≤ last

abbrev pub pipes : List Task → List ℕ
pipes = map (λ (x : Task). x.pipe)

-- The time that the tasks ask for.
abbrev pub demand : List Task → ℕ
demand [] = 0
demand (x ∷ xs) = x.burst + demand xs

pub as_tasks-Numbered : (i : ℕ) (input : List Line) → Numbered i (as_tasks i input)
as_tasks-Numbered i [] = tt
as_tasks-Numbered i (_ ∷ input) = (refl, as_tasks-Numbered (suc i) input)

pub pipes-as_tasks : (i : ℕ) (input : List Line) → pipes (as_tasks i input) ≡ numbers i input
pipes-as_tasks i [] = refl
pipes-as_tasks i (_ ∷ input) = ap (◌∷◌ i) (pipes-as_tasks (suc i) input)

pub demand-as_tasks : (i : ℕ) (input : List Line) → demand (as_tasks i input) ≡ total_time input
demand-as_tasks i [] = refl
demand-as_tasks i ((_, _, e) ∷ input) = ap (λ n. e + n) (demand-as_tasks (suc i) input)

pub length-as_tasks : (i : ℕ) (input : List Line) → length (as_tasks i input) ≡ length input
length-as_tasks i [] = refl
length-as_tasks i (_ ∷ input) = ap suc (length-as_tasks (suc i) input)

pub ready-as_tasks :
    (last i : ℕ) (input : List Line)
    → All (ReadyBy last) input
    → All (λ (x : Task). x.ready ≤ last) (as_tasks i input)
ready-as_tasks last i [] h = tt
ready-as_tasks last i (_ ∷ input) h = (h.0, ready-as_tasks last (suc i) input h.1)

-- The ready time of a line, and whether a line fits into a slice.
abbrev pub ready_of : Line → ℕ
ready_of (_, r, _) = r

abbrev pub ShortBy : ℕ → Line → Type 0
ShortBy quantum (_, _, e) = e ≤ quantum

ready-differs :
    (i r : ℕ) (input : List Line)
    → All (λ l. ready_of l ≢ r) input
    → All (λ (x : Task). x.ready ≢ r) (as_tasks i input)
ready-differs i r [] h = tt
ready-differs i r (_ ∷ input) h = (h.0, ready-differs (suc i) r input h.1)

pub as_tasks-Spread :
    (i : ℕ) (input : List Line)
    → Spread ready_of input
    → Spread (λ (x : Task). x.ready) (as_tasks i input)
as_tasks-Spread i [] h = tt
as_tasks-Spread i ((_, r, _) ∷ input) h =
    (ready-differs (suc i) r input h.0, as_tasks-Spread (suc i) input h.1)

pub as_tasks-short :
    (quantum i : ℕ) (input : List Line)
    → All (ShortBy quantum) input
    → All (λ (x : Task). x.burst ≤ quantum) (as_tasks i input)
as_tasks-short quantum i [] h = tt
as_tasks-short quantum i (_ ∷ input) h = (h.0, as_tasks-short quantum (suc i) input h.1)
