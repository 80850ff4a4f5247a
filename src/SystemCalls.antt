-- ===== src/SystemCalls.antt =====
-- prj1/linux-3.13.2: the two system calls that are added to the kernel; prj1/printtime.h and
-- prj1/p.c, which call them.
pub mod Log
use os2016spring.Base.{
  ℕ, ◌≤◌, ◌≡◌, Option, none, some, List, [], ◌∷◌, ◌++◌, length, replicate, ◌==◌, if◌then◌else◌,
}
use os2016spring.Os.{Event, Timespec, Trace}
use os2016spring.Printing.{result_text}

-- What the system calls use of the kernel. `printk` is given "%s" and a text as the codes of its
-- characters; a text of up to `line_max` of them goes to the end of the log as it is. The log is
-- taken to be large enough to keep all.
pub record Linux (State : Type 0) : Type 0 where
  pub printk : (text : List ℕ) → State → State
  pub getnstimeofday : State → Timespec
  pub log : State → List ℕ
  pub line_max : ℕ
  pub log-printk :
      (text : List ℕ) (s : State) → length text ≤ line_max → log (printk text s) ≡ log s ++ text
  pub long_enough : 99 ≤ line_max

pub data SystemCall : Type 0 where
  myprint : SystemCall
  gettime : SystemCall

-- The two lines of syscall_64.tbl; none is a system call of Linux itself.
unfoldable pub table : (number : ℕ) → Option SystemCall
table number =
    if number == 314
    then some SystemCall.myprint
    else if number == 315
    then some SystemCall.gettime
    else none

-- The answer: what is written to the argument, if anything, and the state of the kernel.
abbrev pub Answer : Type 0 → Type 0
Answer State = Option Timespec × State

module _ {State : Type 0} (linux : Linux State) where
  -- `sys_myprint`
  unfoldable pub sys_myprint : (arg : List ℕ) → State → State
  sys_myprint arg s = linux.printk arg s

  -- `sys_gettime`: what `*ts` becomes.
  unfoldable pub sys_gettime : State → Timespec
  sys_gettime s = linux.getnstimeofday s

  unfoldable pub enter : SystemCall → (arg : List ℕ) → State → Answer State
  unfolding sys_myprint sys_gettime
  enter SystemCall.myprint arg s = (none, sys_myprint arg s)
  enter SystemCall.gettime arg s = (some (sys_gettime s), s)

  -- `syscall`; none is a system call of Linux itself.
  unfoldable pub syscall : (number : ℕ) → (arg : List ℕ) → State → Option (Answer State)
  unfolding enter table
  syscall number arg s = elim (table number) [ none ↦ none | some call ↦ some (enter call arg s) ]

  -- `print_result`, and `gettime` with an argument that names the place of the time.
  unfoldable pub print_result : (pid : ℕ) → Timespec → Timespec → State → Option (Answer State)
  unfolding syscall result_text
  print_result pid from to s = syscall 314 (result_text pid from to) s

  unfoldable pub read_time : State → Option (Answer State)
  unfolding syscall
  read_time s = syscall 315 [] s

  -- `main` of p.c: sixteen times the sign =, and the end of the line.
  unfoldable pub main : State → Option (Answer State)
  unfolding syscall
  main s = syscall 314 (replicate 16 61 ++ 10 ∷ []) s

  -- The kernel behind the calls of a trace.
  unfoldable pub run : State → Trace → Option State
  unfolding print_result
  run s0 [] = some s0
  run s0 (Event.print_result pid from to ∷ t) = elim (run s0 t) [
    | none ↦ none
    | some s ↦ elim (print_result pid from to s) [ none ↦ none | some a ↦ some a.1 ]
  ]
  run s0 (_ ∷ t) = run s0 t
