-- ===== src/Sjf/Shortest.antt =====
-- The schedules that shortest-job-first allows.
use mathlib.Core.List.{Permᴰ}
use mathlib.Core.List.Permᴰ
use os2016spring.Base.{ℕ, ◌+◌, ◌≤◌, ◌≡◌, refl, sym, subst, List, [], ◌∷◌, All, arith}
use os2016spring.Qsort.{All-perm, length-perm}
use os2016spring.Task.{Task}

-- `Shortest c ts out`: from the time `c` on, the tasks `ts` may be completed as in `out`.
pub data Shortest : ℕ → List Task → List (ℕ × ℕ) → Type 0 where
  done : {c : ℕ} → Shortest c [] []
  -- an arrived task, no longer than any other that has arrived, runs to its end
  dispatch :
      {c : ℕ} {ts : List Task} {out : List (ℕ × ℕ)} (t : Task) (rest : List Task)
      → Permᴰ ts (t ∷ rest)
      → t.ready ≤ c
      → All (λ (u : Task). u.ready ≤ c → t.burst ≤ u.burst) rest
      → Shortest (c + t.burst) rest out
      → Shortest c ts ((t.pipe, c + t.burst) ∷ out)
  -- nothing has arrived before `c'`
  idle :
      {c c' : ℕ} {ts : List Task} {out : List (ℕ × ℕ)}
      → c ≤ c'
      → All (λ (u : Task). c' ≤ u.ready) ts
      → Shortest c' ts out
      → Shortest c ts out

nil_of_perm : {ts : List Task} → Permᴰ ts [] → ts ≡ []
nil_of_perm {ts = []} p = refl
nil_of_perm {ts = t ∷ ts} p = absurd (omega (arith, length-perm p))

-- The order in which the tasks are listed does not matter.
pub Shortest-perm :
    {c : ℕ} {ts us : List Task} {out : List (ℕ × ℕ)}
    → Permᴰ ts us
    → Shortest c us out
    → Shortest c ts out
Shortest-perm {c} p done = subst (λ l. Shortest c l []) (sym (nil_of_perm p)) done
Shortest-perm p (dispatch t rest q h least next) = dispatch t rest (Permᴰ.trans p q) h least next
Shortest-perm p (idle le none_yet next) =
    idle le (All-perm _ (Permᴰ.symm p) none_yet) (Shortest-perm p next)
