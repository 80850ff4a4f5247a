-- ===== src/Child.antt =====
-- prj1/child.c: the job. It reads time slices from its pipe and burns them.
-- `execution_time` is taken down to 0 and no further: the program stops at the first slice that takes
-- it to 0 or below, and does not look at it again.
pub mod Slices
pub mod Reporting
use os2016spring.Base.{ℕ, zero, suc, ◌+◌, ◌-◌, Bool, List, [], ◌∷◌, ltb, if◌then◌else◌}

-- The variables of `main`, and the units of processor time that are burned.
pub record State : Type 0 where
  pub execution_time : ℕ
  pub burned : ℕ

-- How the program ends: with code 0 and what is not read, with code 2 at the end of the input, or
-- with code 1 where `sched_setscheduler` fails.
pub data End : Type 0 where
  finished : State → (unread : List ℕ) → End
  end_of_input : State → End
  priority_refused : State → (unread : List ℕ) → End

-- The `for` loop: one unit of time for each `j`.
unfoldable pub burn : (j : ℕ) → State → State
burn zero s = s
burn (suc j) s = burn j (record s { execution_time = s.execution_time - 1; burned = s.burned + 1 })

-- The `while` loop, on the slices that the pipe holds until its end; a negative slice is as one of
-- 0. Whether `sched_setscheduler` lowers the priority may depend on the time that is burned.
unfoldable pub child : (lowers : ℕ → Bool) → (slices : List ℕ) → State → End
unfolding burn
child lowers [] s = end_of_input s
child lowers (x ∷ slices) s =
    let s' = burn x s in
    let rest = child lowers slices s' in
    if ltb 0 s'.execution_time
    then (if lowers s'.burned then rest else priority_refused s' slices)
    else finished s' slices
