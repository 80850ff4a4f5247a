-- ===== src/Psjf/Invariant.antt =====
-- What holds at the head of the main loop of psjf.c, and how much is left to do there.
use os2016spring.Base.{
  ℕ, ◌+◌, ◌-◌, ◌*◌, ◌≤◌, ◌<◌, ◌≡◌, List, [], ◌∷◌, ◌++◌, map, map-append, max, All, length, ltb,
  ◌==◌, if◌then◌else◌, arith,
}
use os2016spring.Os.{elapsed}
use os2016spring.Qsort.{IsSorted}
use os2016spring.Task.{Task}
use os2016spring.Served.Accounts.{Accounts}
use os2016spring.Psjf.{RawInput, Machine, uint_add, uint_sub}

abbrev pub task : RawInput → Task
task r = record { pipe = r.pipe; ready = r.ready_time; burst = r.exec_time }

abbrev pub tasks : List RawInput → List Task
tasks = map task

pub tasks-append : (rs qs : List RawInput) → tasks (rs ++ qs) ≡ tasks rs ++ tasks qs
tasks-append rs qs = rw map-append

abbrev pub total : List RawInput → ℕ
total [] = 0
total (r ∷ rs) = r.exec_time + total rs

pub total-append : (rs qs : List RawInput) → total (rs ++ qs) ≡ total rs + total qs
total-append [] qs = omega arith
total-append (r ∷ rs) qs = omega (arith, total-append rs qs)

-- `last` is no earlier than any arrival, and `end` is below the range of an `int`.
pub record IsValid (last end : ℕ) (m : Machine) : Type 0 where
  pub counted : m.time_counter ≡ elapsed m.trace
  pub arrived : All (λ (r : RawInput). r.ready_time ≤ m.time_counter) m.ready
  pub pending : All (λ (r : RawInput). m.time_counter ≤ r.ready_time) m.unready
  pub sorted : IsSorted (λ (r : RawInput). r.ready_time) m.unready
  pub latest : All (λ (r : RawInput). r.ready_time ≤ last) m.unready
  pub room : max m.time_counter last + (total m.ready + total m.unready) ≤ end
  pub accounts : Accounts m.trace (tasks m.ready) (tasks m.unready)
  pub small : end < 2147483648

-- Below the modulus the words are numbers.
pub uint_add-small : (a b : ℕ) → a + b < 4294967296 → uint_add a b ≡ a + b
unfolding uint_add
uint_add-small a b h = omega arith

pub uint_sub-small : (a b : ℕ) → b ≤ a → a < 4294967296 → uint_sub a b ≡ a - b
unfolding uint_sub
uint_sub-small a b h k = omega arith

-- Whether the next arrival is ahead of the clock.
abbrev pub gap : ℕ → List RawInput → ℕ
gap c [] = 0
gap c (r ∷ _) = if ltb c r.ready_time then 1 else 0

-- Whether the next arrival is now.
abbrev pub due : ℕ → List RawInput → ℕ
due c [] = 0
due c (r ∷ _) = if r.ready_time == c then 1 else 0

pub gap_mono : (c c' : ℕ) (rs : List RawInput) → c ≤ c' → gap c' rs ≤ gap c rs
gap_mono c c' [] h = omega arith
gap_mono c c' (r ∷ rs) h = ground arith

pub gap-due : (c : ℕ) (rs : List RawInput) → gap c rs + due c rs ≤ 1
gap-due c [] = omega arith
gap-due c (r ∷ rs) = ground arith

-- Ends of jobs and arrivals that are still to come.
abbrev pub work : Machine → ℕ
work m = length m.ready + 2 * length m.unready + gap m.time_counter m.unready

-- An arrival that is reached is no longer ahead; one that is not past is ahead or now.
pub gap-reached :
    (c : ℕ) (r : RawInput) (rs : List RawInput) → r.ready_time ≡ c → gap c (r ∷ rs) ≡ 0
gap-reached c r rs h = ground arith

pub gap-due_pos :
    (c : ℕ) (r : RawInput) (rs : List RawInput)
    → c ≤ r.ready_time
    → 1 ≤ gap c (r ∷ rs) + due c (r ∷ rs)
gap-due_pos c r rs h = ground arith
