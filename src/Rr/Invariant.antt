-- ===== src/Rr/Invariant.antt =====
-- What holds at the head of the main loop of rr.c, and how much is left to do there.
use os2016spring.Base.{
  ℕ, ◌+◌, ◌*◌, ◌≤◌, ◌<◌, ◌≡◌, Option, none, some, List, [], ◌∷◌, ◌++◌, map, map-append, All, length,
  ltb, if◌then◌else◌, arith,
}
use os2016spring.Os.{elapsed, completions, Os, Outcome}
use os2016spring.Os.Ends.{priority_checked, Ends}
use os2016spring.Qsort.{IsSorted}
use os2016spring.Task.{Task}
use os2016spring.Complete.{Latest}
use os2016spring.Served.Accounts.{Accounts}
use os2016spring.ReadyList.{PStruct, Heap}
use os2016spring.ReadyList.Steps.{Returns}
use os2016spring.ReadyList.Queue.{Holds}
use os2016spring.Rr.{State, heap_do}
use os2016spring.Rr.Robin.{Robin}

abbrev pub task : PStruct → Task
task p = record { pipe = p.pipe; ready = p.r_time; burst = p.remain_time }

abbrev pub tasks : List PStruct → List Task
tasks = map task

pub tasks-append : (xs ys : List PStruct) → tasks (xs ++ ys) ≡ tasks xs ++ tasks ys
tasks-append xs ys = rw map-append

abbrev pub total : List PStruct → ℕ
total [] = 0
total (p ∷ ps) = p.remain_time + total ps

pub total-append : (xs ys : List PStruct) → total (xs ++ ys) ≡ total xs + total ys
total-append [] ys = omega arith
total-append (p ∷ xs) ys = omega (arith, total-append xs ys)

-- The list holds the jobs `ps`.
pub record IsValid (n : ℕ) (s : State) (ps : List PStruct) : Type 0 where
  pub holds : Holds s.heap s.cur_job ps
  pub counted : s.cur_time ≡ elapsed s.trace
  pub some_left : 0 < s.remain
  pub within : s.remain ≤ 500
  pub unfinished : All (λ (p : PStruct). 0 < p.remain_time) ps
  pub unstarted : All (λ (p : PStruct). 0 < p.remain_time) s.unforked
  pub pending : All (λ (p : PStruct). s.cur_time ≤ p.r_time) s.unforked
  pub sorted : IsSorted (λ (p : PStruct). p.r_time) s.unforked
  pub untouched : All (λ (p : PStruct). p.remain_time ≡ p.e_time) s.unforked
  pub accounts : Accounts s.trace (tasks ps) (tasks s.unforked)
  pub ends_last : ps ≡ [] → s.unforked ≡ [] → Latest s.cur_time (completions s.trace)
  pub all_counted : s.finish + (length ps + length s.unforked) ≡ n

pub snoc_nil : {A : Type 0} (xs : List A) (x : A) → ¬ (xs ++ x ∷ [] ≡ [])
snoc_nil [] x e = cc
snoc_nil (y ∷ xs) x e = cc

-- All that is completed in the end, when it is what a state allows.
abbrev pub Continues : State → List PStruct → List (ℕ × ℕ) → Type 0
Continues s ps out =
    (later : List (ℕ × ℕ)) × (out ≡ completions s.trace ++ later)
    × Robin 500 s.cur_time s.remain (tasks ps) (tasks s.unforked) later

abbrev pub Narrows : State → List PStruct → State → List PStruct → Type 0
Narrows s ps s' ps' = (out : List (ℕ × ℕ)) → Continues s' ps' out → Continues s ps out

-- Whether a job is still to arrive, and whether the next one is ahead of the clock.
abbrev pub pend : List PStruct → ℕ
pend [] = 0
pend (_ ∷ _) = 1

abbrev pub gap : ℕ → List PStruct → ℕ
gap c [] = 0
gap c (p ∷ _) = if ltb c p.r_time then 1 else 0

pub gap-pend : (c : ℕ) (u : List PStruct) → gap c u ≤ pend u
gap-pend c [] = omega arith
gap-pend c (p ∷ _) = ground arith

pub pend-le-one : (u : List PStruct) → pend u ≤ 1
pend-le-one [] = omega arith
pend-le-one (_ ∷ _) = omega arith

abbrev pub base : State → List PStruct → ℕ
base s ps = total ps + total s.unforked + length ps + 2 * length s.unforked

abbrev pub work : State → List PStruct → ℕ
work s ps = base s ps + gap s.cur_time s.unforked

-- The second half of a round.
pub record Turned (n : ℕ) (s : State) (ps : List PStruct) (s' : State) : Type 0 where
  pub queue : List PStruct
  pub valid : IsValid n s' queue
  pub narrows : Narrows s ps s' queue
  pub less : work s' queue < base s ps + pend s.unforked

-- A whole round.
pub record Went (n : ℕ) (s : State) (ps : List PStruct) (s' : State) : Type 0 where
  pub queue : List PStruct
  pub valid : IsValid n s' queue
  pub narrows : Narrows s ps s' queue
  pub less : work s' queue < work s ps

pub heap_do-Ends :
    {A B : Type 0} {os : Os} {P : B → Type 0} (Q : A → Heap → Type 0) (r : Option (A × Heap))
    (k : A → Heap → Outcome B)
    → Returns Q r
    → ((a : A) (h : Heap) → Q a h → Ends priority_checked os P (k a h))
    → Ends priority_checked os P (heap_do r k)
heap_do-Ends Q none k ret next = absurd ret
heap_do-Ends Q (some (a, h)) k ret next = next a h ret
