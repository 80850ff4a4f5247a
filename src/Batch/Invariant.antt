-- ===== src/Batch/Invariant.antt =====
-- What holds at the head of the main loops of fifo.c and sjf.c, and the view of a job as a task.
use os2016spring.Base.{ℕ, ◌≤◌, ◌<◌, ◌≡◌, List, [], ◌++◌, map, map-append, All}
use os2016spring.Os.{elapsed, completions}
use os2016spring.Qsort.{IsSorted}
use os2016spring.Task.{Task}
use os2016spring.Served.Accounts.{Accounts}
use os2016spring.Complete.{Latest}
use os2016spring.Batch.{Data, State}

abbrev pub task : Data → Task
task d = record { pipe = d.pipe; ready = d.ready_time; burst = d.execution_time }

abbrev pub tasks : List Data → List Task
tasks = map task

pub tasks-append : (ds es : List Data) → tasks (ds ++ es) ≡ tasks ds ++ tasks es
tasks-append ds es = rw map-append

abbrev pub ArrivedBy : ℕ → Data → Type 0
ArrivedBy c d = d.ready_time ≤ c

abbrev pub NotBefore : ℕ → Data → Type 0
NotBefore c d = c ≤ d.ready_time

abbrev pub After : ℕ → Data → Type 0
After c d = c < d.ready_time

-- The clock counts the time that was burnt; it has passed the arrivals of the forked jobs, and no
-- arrival of the others, which ascend.
pub record IsValid (s : State) : Type 0 where
  pub counted : s.clock ≡ elapsed s.trace
  pub arrived : All (ArrivedBy s.clock) s.forked
  pub pending : All (NotBefore s.clock) s.unforked
  pub sorted : IsSorted (λ (d : Data). d.ready_time) s.unforked
  pub accounts : Accounts s.trace (tasks s.forked) (tasks s.unforked)

-- Where no forked job is left, the last one has just ended, or none has begun.
abbrev pub EndsLast : State → Type 0
EndsLast s = s.forked ≡ [] → Latest s.clock (completions s.trace)
