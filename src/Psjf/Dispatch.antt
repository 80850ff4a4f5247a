-- ===== src/Psjf/Dispatch.antt =====
-- The second half of the main loop's body: the shortest forked job runs to its end or up to the
-- next arrival.
use mathlib.Core.List.{Permᴰ}
use mathlib.Core.List.Permᴰ
use os2016spring.Base.{
  ℕ, zero, suc, ◌+◌, ◌-◌, ◌≤◌, ◌<◌, ◌≡◌, refl, ap, ◌∙◌, inl, inr, List, [], ◌∷◌, ◌++◌, All,
  All-append, Bool-cases, arith,
}
use os2016spring.Os.{Os, Trace, completions, elapsed}
use os2016spring.Qsort.{IsSorted, All-perm}
use os2016spring.Served.Writing.{Sends, Sends-slice, Quiet-refl, Quiet-start_time}
use os2016spring.Served.Accounts.{Accounts, Accounts-perm}
use os2016spring.Psjf.{RawInput, Machine, uint_sub, record_start, send_to_child}
use os2016spring.Psjf.Preemptive.{Preemptive, slice, Least, NoArrival, Preemptive-perm}
use os2016spring.Psjf.Invariant.{task, tasks, tasks-append, total, IsValid, due, work}

-- The completions that may follow from a state on.
abbrev pub Continues : Machine → List (ℕ × ℕ) → Type 0
Continues m out =
    (later : List (ℕ × ℕ)) × (out ≡ completions m.trace ++ later)
    × Preemptive m.time_counter (tasks (m.ready ++ m.unready)) later

-- Whatever may follow from `m'` on may follow from `m` on.
abbrev pub Narrows : Machine → Machine → Type 0
Narrows m m' = (out : List (ℕ × ℕ)) → Continues m' out → Continues m out

pub record Sent (r : RawInput) (n : ℕ) (t : Trace) (s : RawInput × Trace) : Type 0 where
  pub pipe : s.0.pipe ≡ r.pipe
  pub ready_time : s.0.ready_time ≡ r.ready_time
  pub exec_time : s.0.exec_time ≡ uint_sub r.exec_time n
  pub burnt : elapsed s.1 ≡ elapsed t + n
  pub same : completions s.1 ≡ completions t
  pub sends : Sends r.pipe (n ∷ []) t s.1

pub send_to_child-Sent :
    (os : Os) (r : RawInput) (n : ℕ) (t : Trace) → Sent r n t (send_to_child os r n t)
unfolding send_to_child record_start
send_to_child-Sent os r n t = elim (Bool-cases r.recorded) [
  | inl old ↦
      simp (old, record_start)
        (record {
          pipe = refl;
          ready_time = refl;
          exec_time = refl;
          burnt = refl;
          same = refl;
          sends = Sends-slice r.pipe n r.pid 99 (Quiet-refl t);
        })
  | inr new ↦
      simp (new, record_start)
        (record {
          pipe = refl;
          ready_time = refl;
          exec_time = refl;
          burnt = refl;
          same = refl;
          sends = Sends-slice r.pipe n r.pid 99 (Quiet-start_time r.pipe t);
        })
]

pub total-perm : {rs qs : List RawInput} → Permᴰ rs qs → total rs ≡ total qs
total-perm Permᴰ.nil = refl
total-perm (Permᴰ.cons {l₁ = l} e p) =
    omega (arith, total-perm p, ap (λ (r : RawInput). r.exec_time) e)
total-perm (Permᴰ.swap e f) =
    omega (arith, ap (λ (r : RawInput). r.exec_time) e, ap (λ (r : RawInput). r.exec_time) f)
total-perm (Permᴰ.trans p q) = total-perm p ∙ total-perm q

Least-forked :
    (c b : ℕ) (rs : List RawInput)
    → All (λ (r : RawInput). b ≤ r.exec_time) rs
    → Least c b (tasks rs)
Least-forked c b [] h = tt
Least-forked c b (r ∷ rs) h = (λ le. h.0, Least-forked c b rs h.1)

-- A job that arrives after a part `n` of the slice is no competitor, unless nothing is to be run.
Least-unforked :
    (c b n : ℕ) (rs : List RawInput)
    → (n ≡ 0 → b ≡ 0)
    → All (λ (r : RawInput). c + n ≤ r.ready_time) rs
    → Least c b (tasks rs)
Least-unforked c b n [] z h = tt
Least-unforked c b n (r ∷ rs) z h =
    (λ le. let none : b ≡ 0 = z (omega arith) in omega arith, Least-unforked c b n rs z h.1)

NoArrival-forked :
    (c n : ℕ) (rs : List RawInput)
    → All (λ (r : RawInput). r.ready_time ≤ c) rs
    → NoArrival c n (tasks rs)
NoArrival-forked c n [] h = tt
NoArrival-forked c n (r ∷ rs) h = (inl h.0, NoArrival-forked c n rs h.1)

NoArrival-unforked :
    (c n : ℕ) (rs : List RawInput)
    → All (λ (r : RawInput). c + n ≤ r.ready_time) rs
    → NoArrival c n (tasks rs)
NoArrival-unforked c n [] h = tt
NoArrival-unforked c n (r ∷ rs) h = (inr h.0, NoArrival-unforked c n rs h.1)

pub perm-tasks :
    {rs qs : List RawInput} (u : List RawInput)
    → Permᴰ rs qs
    → Permᴰ (tasks (rs ++ u)) (tasks (qs ++ u))
perm-tasks u p = Permᴰ.map task (Permᴰ.append_right u p)

-- What the second half of the body does: the state stays valid, no completion is allowed that was
-- not before, and less is left to do.
pub record Ran (last end : ℕ) (m m' : Machine) : Type 0 where
  pub valid : IsValid last end m'
  pub narrows : Narrows m m'
  pub less : work m' < work m + due m.time_counter m.unready

-- In the order in which the queue is sorted.
pub Accounts-sorted :
    (m : Machine) (queue : List RawInput)
    → Permᴰ queue m.ready
    → Accounts m.trace (tasks m.ready) (tasks m.unready)
    → Accounts m.trace (tasks queue) (tasks m.unready)
Accounts-sorted m queue p = Accounts-perm (tasks m.unready) (Permᴰ.map task (Permᴰ.symm p))

module _ (os : Os) (last end : ℕ) (m : Machine) (v : IsValid last end m) (r : RawInput)
    (rest : List RawInput) (p : Permᴰ (r ∷ rest) m.ready)
    (order : IsSorted (λ (q : RawInput). q.exec_time) (r ∷ rest)) where
  pub arrived_sorted : All (λ (q : RawInput). q.ready_time ≤ m.time_counter) (r ∷ rest)
  arrived_sorted = All-perm _ (Permᴰ.symm p) v.arrived

  pub fits : m.time_counter + (r.exec_time + total rest + total m.unready) ≤ end
  fits = omega (arith, total-perm p, v.room)

  pub least :
      (n : ℕ)
      → (n ≡ 0 → r.exec_time ≡ 0)
      → All (λ (q : RawInput). m.time_counter + n ≤ q.ready_time) m.unready
      → Least m.time_counter r.exec_time (tasks (rest ++ m.unready))
  least n z h = rw (tasks-append rest m.unready) (
      All-append _ (tasks rest) (tasks m.unready)
        (Least-forked m.time_counter r.exec_time rest order.0)
        (Least-unforked m.time_counter r.exec_time n m.unready z h))

  pub none_in :
      (n : ℕ)
      → All (λ (q : RawInput). m.time_counter + n ≤ q.ready_time) m.unready
      → NoArrival m.time_counter n (tasks (rest ++ m.unready))
  none_in n h = rw (tasks-append rest m.unready) (
      All-append _ (tasks rest) (tasks m.unready)
        (NoArrival-forked m.time_counter n rest arrived_sorted.1)
        (NoArrival-unforked m.time_counter n m.unready h))

  -- A slice of no length changes nothing; a longer one is a slice of the shortest task.
  pub slice_of :
      (n : ℕ) (out : List (ℕ × ℕ))
      → n ≤ r.exec_time
      → All (λ (q : RawInput). m.time_counter + n ≤ q.ready_time) m.unready
      → Preemptive
          (m.time_counter + n)
          (record { pipe = r.pipe; ready = r.ready_time; burst = r.exec_time - n }
            ∷ tasks (rest ++ m.unready))
          out
      → Preemptive m.time_counter (tasks (m.ready ++ m.unready)) out
  slice_of zero out le h next =
      let c : m.time_counter + 0 ≡ m.time_counter = omega arith in
      let b : r.exec_time - 0 ≡ r.exec_time = omega arith in
      Preemptive-perm (perm-tasks m.unready (Permᴰ.symm p)) (rw (c, b) at next)
  slice_of (suc n) out le h next =
      slice (suc n) (task r) (tasks (rest ++ m.unready)) (perm-tasks m.unready (Permᴰ.symm p))
        arrived_sorted.0 le (least (suc n) (λ e. absurd (omega arith)) h) (none_in (suc n) h) next
