-- ===== src/Psjf/Preemptive.antt =====
-- The schedules that preemptive shortest-job-first allows.
use mathlib.Core.List.{Permᴰ}
use mathlib.Core.List.Permᴰ
use os2016spring.Base.{ℕ, ◌+◌, ◌-◌, ◌≤◌, ◌≡◌, refl, sym, subst, ◌⊎◌, List, [], ◌∷◌, All, arith}
use os2016spring.Qsort.{All-perm, length-perm}
use os2016spring.Task.{Task}

-- No other task that has arrived by `c` is shorter than `b`.
abbrev pub Least : ℕ → ℕ → List Task → Type 0
Least c b = All (λ (u : Task). u.ready ≤ c → b ≤ u.burst)

-- No task arrives strictly between `c` and `c + n`.
abbrev pub NoArrival : ℕ → ℕ → List Task → Type 0
NoArrival c n = All (λ (u : Task). (u.ready ≤ c) ⊎ (c + n ≤ u.ready))

-- `Preemptive c ts out`: from the time `c` on, what is left of the tasks may be completed as in
-- `out`. The shortest task that has arrived runs, and at each arrival the choice is made anew.
pub data Preemptive : ℕ → List Task → List (ℕ × ℕ) → Type 0 where
  done : {c : ℕ} → Preemptive c [] []
  -- a part of the shortest task
  slice :
      {c : ℕ} {ts : List Task} {out : List (ℕ × ℕ)} (n : ℕ) (t : Task) (rest : List Task)
      → Permᴰ ts (t ∷ rest)
      → t.ready ≤ c
      → n ≤ t.burst
      → Least c t.burst rest
      → NoArrival c n rest
      → Preemptive (c + n) (record t { burst = t.burst - n } ∷ rest) out
      → Preemptive c ts out
  -- all that is left of the shortest task
  finish :
      {c : ℕ} {ts : List Task} {out : List (ℕ × ℕ)} (t : Task) (rest : List Task)
      → Permᴰ ts (t ∷ rest)
      → t.ready ≤ c
      → Least c t.burst rest
      → NoArrival c t.burst rest
      → Preemptive (c + t.burst) rest out
      → Preemptive c ts ((t.pipe, c + t.burst) ∷ out)
  -- nothing has arrived before `c'`
  idle :
      {c c' : ℕ} {ts : List Task} {out : List (ℕ × ℕ)}
      → c ≤ c'
      → All (λ (u : Task). c' ≤ u.ready) ts
      → Preemptive c' ts out
      → Preemptive c ts out

nil_of_perm : {ts : List Task} → Permᴰ ts [] → ts ≡ []
nil_of_perm {ts = []} p = refl
nil_of_perm {ts = t ∷ ts} p = absurd (omega (arith, length-perm p))

-- The order in which the tasks are listed does not matter.
pub Preemptive-perm :
    {c : ℕ} {ts us : List Task} {out : List (ℕ × ℕ)}
    → Permᴰ ts us
    → Preemptive c us out
    → Preemptive c ts out
Preemptive-perm {c} p done = subst (λ l. Preemptive c l []) (sym (nil_of_perm p)) done
Preemptive-perm p (slice n t rest q h le least none_in next) =
    slice n t rest (Permᴰ.trans p q) h le least none_in next
Preemptive-perm p (finish t rest q h least none_in next) =
    finish t rest (Permᴰ.trans p q) h least none_in next
Preemptive-perm p (idle le none_yet next) =
    idle le (All-perm _ (Permᴰ.symm p) none_yet) (Preemptive-perm p next)
