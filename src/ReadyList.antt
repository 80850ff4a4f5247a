-- ===== src/ReadyList.antt =====
-- prj1/rr.c: the jobs, and the circular list of those that are ready.
-- A node is named by the number of the `malloc` that has made it, so that no name comes back; a
-- `malloc` is taken to succeed. Each node is kept with the job that it points to: no two nodes point
-- to one job.
pub mod Segments
pub mod Steps
pub mod Ring
pub mod Adding
pub mod Removing
pub mod Queue
use Prim.Native.String.{String}
use os2016spring.Base.{ℕ, suc, Option, none, some, ◌==◌, if◌then◌else◌}
use os2016spring.Os.{Timespec}

-- `p_struct`; `fd` is named by the pipe's number, `ts` by its two entries.
pub record PStruct : Type 0 where
  pub name : String
  pub r_time : ℕ
  pub e_time : ℕ
  pub started_at : Timespec
  pub finished_at : Timespec
  pub pid : ℕ
  pub remain_time : ℕ
  pub pipe : ℕ

-- `ready_list`
pub record Node : Type 0 where
  pub process : PStruct
  pub next : ℕ
  pub last : ℕ

pub record Heap : Type 0 where
  pub node : ℕ → Option Node
  pub allocated : ℕ

-- A result with the heap that it leaves; none is the use of a pointer that points to no node.
abbrev pub Result : Type 0 → Type 0
Result A = Option (A × Heap)

abbrev pub continue_with : {A B : Type 0} → Result A → (A → Heap → Result B) → Result B
continue_with none next = none
continue_with (some (a, h)) next = next a h

-- What reads and writes the nodes.
abbrev pub Access : Type 0 → Type 0
Access A = Heap → Result A

infixl 5 ◌>>=◌ ◌>>◌
abbrev pub ◌>>=◌ : {A B : Type 0} → Access A → (A → Access B) → Access B
m >>= next = λ h. continue_with (m h) next

abbrev pub ◌>>◌ : {B : Type 0} → Access (Unit {0}) → Access B → Access B
m >> next = m >>= (λ _. next)

abbrev pub yields : {A : Type 0} → A → Access A
yields a = λ h. some (a, h)

unfoldable pub write : ℕ → Option Node → Heap → Heap
write j n h = record h { node = λ i. if i == j then n else h.node i }

unfoldable pub load : ℕ → Access Node
load j h = elim (h.node j) [ none ↦ none | some n ↦ some (n, h) ]

unfoldable pub store : ℕ → Node → Access (Unit {0})
unfolding write
store j n h = some (tt, write j (some n) h)

-- `malloc` and the assignment of `process`; the other fields are written before they are read.
unfoldable pub malloc : PStruct → Access ℕ
unfolding write
malloc p h =
    let j = h.allocated in
    some (
      j,
      record (write j (some (record { process = p; next = j; last = j })) h) { allocated = suc j },
    )

unfoldable pub set_next : (j to : ℕ) → Access (Unit {0})
unfolding load store
set_next j to = do n ← load j; store j (record n { next = to })

unfoldable pub set_last : (j to : ℕ) → Access (Unit {0})
unfolding load store
set_last j to = do n ← load j; store j (record n { last = to })

unfoldable pub free : ℕ → Access (Unit {0})
unfolding load write
free j = do n ← load j; λ h. some (tt, write j none h)

-- `job->process`, read and written, and `job->next`.
unfoldable pub process : ℕ → Access PStruct
unfolding load
process job = do n ← load job; yields n.process

unfoldable pub set_process : ℕ → PStruct → Access (Unit {0})
unfolding load store
set_process job p = do n ← load job; store job (record n { process = p })

unfoldable pub next_job : ℕ → Access (Option ℕ)
unfolding load
next_job job = do n ← load job; yields (some n.next)

-- `add_list`
unfoldable pub add_list : (job : Option ℕ) → PStruct → Access (Option ℕ)
unfolding malloc set_next set_last load
add_list none p = do
  new_job ← malloc p
  set_next new_job new_job
  set_last new_job new_job
  yields (some new_job)
add_list (some job) p = do
  new_job ← malloc p
  set_next new_job job
  n ← load job
  set_last new_job n.last
  set_next n.last new_job
  set_last job new_job
  yields (some job)

-- The second half of `remove_list`, for a job that is not the only one.
unfoldable pub unlink : ℕ → Access (Option ℕ)
unfolding set_next set_last load free
unlink job = do
  n ← load job
  set_last n.next n.last
  n' ← load job
  set_next n'.last n'.next
  n'' ← load job
  free job
  yields (some n''.next)

-- `remove_list`
unfoldable pub remove_list : ℕ → Access (Option ℕ)
unfolding load free unlink
remove_list job = do n ← load job; if n.next == job then (free job >> yields none) else unlink job
