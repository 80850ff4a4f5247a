-- ===== src/Sjf/Choosing.antt =====
-- The job that stands at `Index` behind the sorting is as short as any that is forked.
use Prim.Native.Nat.{compare}
use mathlib.Core.List.{Permᴰ}
use mathlib.Core.List.Permᴰ
use os2016spring.Base.{
  ℕ, suc, ◌+◌, ◌≤◌, ◌<◌, ◌≡◌, refl, sym, ap, subst, Bool, true, false, inl, inr, List, [], ◌∷◌,
  ◌++◌, All, All-append, Bool-cases, length, arith,
}
use os2016spring.Os.{Os, completions}
use os2016spring.Qsort.{Qsort, IsSorted, All-perm, length-perm}
use os2016spring.Served.Writing.{Quiet-start_time}
use os2016spring.Served.Accounts.{Accounts, Accounts-Quiet, Accounts-perm}
use os2016spring.Batch.{Data, State}
use os2016spring.Task.{Task}
use os2016spring.Batch.Invariant.{IsValid, ArrivedBy, After, task, tasks, tasks-append}
use os2016spring.Batch.Forking.{IsFresh}
use os2016spring.Sjf.{sjf_cmp, mark_first, choose_of, choose}
use os2016spring.Sjf.Shortest.{Shortest, dispatch, Shortest-perm}

pub sjf_cmp-compares : (a b : Data) → sjf_cmp a b ≡ compare a.execution_time b.execution_time
unfolding sjf_cmp
sjf_cmp-compares a b = ground arith

-- What may still be completed. A job that has started goes on to its end.
abbrev pub PendingAt : Bool → Data → (rest unforked : List Data) → ℕ → List (ℕ × ℕ) → Type 0
PendingAt true d rest u c out = Shortest c (tasks (d ∷ (rest ++ u))) out
PendingAt false d rest u c out =
    (later : List (ℕ × ℕ)) × (out ≡ (d.pipe, c + d.execution_time) ∷ later)
    × Shortest (c + d.execution_time) (tasks (rest ++ u)) later

abbrev pub Pending : (forked unforked : List Data) → ℕ → List (ℕ × ℕ) → Type 0
Pending [] u c out = Shortest c (tasks u) out
Pending (d ∷ rest) u c out = PendingAt d.flag d rest u c out

-- Where no job has started, every schedule of the tasks may follow.
pub Pending-fresh :
    (f u : List Data) (c : ℕ) (out : List (ℕ × ℕ))
    → All IsFresh f
    → Pending f u c out ≡ Shortest c (tasks (f ++ u)) out
Pending-fresh [] u c out h = refl
Pending-fresh (d ∷ rest) u c out h = ap (λ b. PendingAt b d rest u c out) h.0

pub record Chosen (s s' : State) : Type 0 where
  pub head : Data
  pub rest : List Data
  pub is_head : s'.forked ≡ head ∷ rest
  pub flag : head.flag ≡ false
  pub fresh : All IsFresh rest
  pub length_same : length s'.forked ≡ length s.forked
  pub unforked : s'.unforked ≡ s.unforked
  pub clock : s'.clock ≡ s.clock
  pub completed : completions s'.trace ≡ completions s.trace
  pub valid : IsValid s'
  pub back :
      (later : List (ℕ × ℕ))
      → Shortest (s.clock + head.execution_time) (tasks (rest ++ s.unforked)) later
      → Pending s.forked s.unforked s.clock ((head.pipe, s.clock + head.execution_time) ∷ later)

-- Jobs that have not arrived are no competitors.
not_competing :
    (c b : ℕ) (u : List Data)
    → All (After c) u
    → All (λ (t : Task). t.ready ≤ c → b ≤ t.burst) (tasks u)
not_competing c b [] h = tt
not_competing c b (d ∷ u) h = (λ le. absurd (omega (arith, h.0)), not_competing c b u h.1)

competing :
    (c b : ℕ) (f : List Data)
    → All (λ (d : Data). b ≤ d.execution_time) f
    → All (λ (t : Task). t.ready ≤ c → b ≤ t.burst) (tasks f)
competing c b [] h = tt
competing c b (d ∷ f) h = (λ le. h.0, competing c b f h.1)

perm-tasks :
    {ds es : List Data} (u : List Data) → Permᴰ ds es → Permᴰ (tasks (ds ++ u)) (tasks (es ++ u))
perm-tasks u p = Permᴰ.map task (Permᴰ.append_right u p)

-- A head that is as short as the rest is dispatched.
dispatch-sorted :
    (c : ℕ) (f : List Data) (d : Data) (rest u : List Data) (out : List (ℕ × ℕ))
    → Permᴰ (d ∷ rest) f
    → IsSorted (λ (e : Data). e.execution_time) (d ∷ rest)
    → d.ready_time ≤ c
    → All (After c) u
    → Shortest (c + d.execution_time) (tasks (rest ++ u)) out
    → Shortest c (tasks (f ++ u)) ((d.pipe, c + d.execution_time) ∷ out)
dispatch-sorted c f d rest u out p sorted arrived strict next =
    dispatch (task d) (tasks (rest ++ u)) (perm-tasks u (Permᴰ.symm p)) arrived
      (rw (tasks-append rest u) (
        All-append _ (tasks rest) (tasks u) (competing c d.execution_time rest sorted.0)
          (not_competing c d.execution_time u strict)))
      next

pub Pending-running :
    (d : Data) (rest u : List Data) (c : ℕ) (later : List (ℕ × ℕ))
    → d.flag ≡ false
    → Shortest (c + d.execution_time) (tasks (rest ++ u)) later
    → Pending (d ∷ rest) u c ((d.pipe, c + d.execution_time) ∷ later)
Pending-running d rest u c later old next =
    subst (λ b. PendingAt b d rest u c ((d.pipe, c + d.execution_time) ∷ later)) (sym old)
      (later, refl, next)

module _ (os : Os) (q : Qsort Data) (s : State) (v : IsValid s)
    (strict : All (After s.clock) s.unforked) where
  mark_first-Chosen :
      (l : List Data)
      → Permᴰ l s.forked
      → IsSorted (λ (e : Data). e.execution_time) l
      → All IsFresh s.forked
      → 0 < length s.forked
      → Chosen s (mark_first os l s)
  unfolding mark_first
  mark_first-Chosen [] p sorted fresh some_left = absurd (omega (arith, length-perm p))
  mark_first-Chosen (d ∷ rest) p sorted fresh some_left =
      let all_fresh = All-perm IsFresh (Permᴰ.symm p) fresh in
      let arrived = All-perm (ArrivedBy s.clock) (Permᴰ.symm p) v.arrived in
      record {
        head = record d { started_at = os.gettime s.trace; flag = false };
        rest = rest;
        is_head = refl;
        flag = refl;
        fresh = all_fresh.1;
        length_same = length-perm p;
        unforked = refl;
        clock = refl;
        completed = refl;
        valid = record {
          counted = v.counted;
          arrived = arrived;
          pending = v.pending;
          sorted = v.sorted;
          accounts =
              Accounts-Quiet (tasks (d ∷ rest)) (tasks s.unforked) (Quiet-start_time d.pipe s.trace)
                (Accounts-perm (tasks s.unforked) (Permᴰ.map task (Permᴰ.symm p)) v.accounts);
        };
        back = λ later next.
            subst (λ (T : Type 0). T)
              (sym (
                Pending-fresh s.forked s.unforked s.clock
                  ((d.pipe, s.clock + d.execution_time) ∷ later) fresh))
              (dispatch-sorted s.clock s.forked d rest s.unforked later p sorted arrived.0 strict
                next);
      }

  go_on-Chosen :
      (d : Data) (rest : List Data)
      → s.forked ≡ d ∷ rest
      → d.flag ≡ false
      → All IsFresh rest
      → Chosen s (record s { forked = d ∷ q.sort sjf_cmp rest })
  go_on-Chosen d rest f old fresh =
      let p = q.perm sjf_cmp (λ d. d.execution_time) sjf_cmp-compares rest in
      let arrived : All (ArrivedBy s.clock) (d ∷ rest) = rw f at v.arrived in
      record {
        head = d;
        rest = q.sort sjf_cmp rest;
        is_head = refl;
        flag = old;
        fresh = All-perm IsFresh (Permᴰ.symm p) fresh;
        length_same = rw f (ap suc (length-perm p));
        unforked = refl;
        clock = refl;
        completed = refl;
        valid = record {
          counted = v.counted;
          arrived = (arrived.0, All-perm (ArrivedBy s.clock) (Permᴰ.symm p) arrived.1);
          pending = v.pending;
          sorted = v.sorted;
          accounts =
              Accounts-perm (tasks s.unforked) (Permᴰ.cons refl (Permᴰ.map task (Permᴰ.symm p)))
                (subst (λ l. Accounts s.trace (tasks l) (tasks s.unforked)) f v.accounts);
        };
        back = λ later next.
            subst
              (λ fs. Pending fs s.unforked s.clock ((d.pipe, s.clock + d.execution_time) ∷ later))
              (sym f)
              (Pending-running d rest s.unforked s.clock later old
                (Shortest-perm (perm-tasks s.unforked (Permᴰ.symm p)) next));
      }

  choose_of-Chosen :
      (d : Data) (rest : List Data)
      → s.forked ≡ d ∷ rest
      → All IsFresh rest
      → Chosen s (choose_of os q (d ∷ rest) s)
  unfolding choose_of
  choose_of-Chosen d rest f fresh = elim (Bool-cases d.flag) [
    | inl new ↦
        simp (new, choose_of)
          (mark_first-Chosen (q.sort sjf_cmp (d ∷ rest))
            (subst (λ fs. Permᴰ (q.sort sjf_cmp (d ∷ rest)) fs) (sym f)
              (q.perm sjf_cmp (λ d. d.execution_time) sjf_cmp-compares (d ∷ rest)))
            (q.sorted sjf_cmp (λ d. d.execution_time) sjf_cmp-compares (d ∷ rest))
            (subst (λ fs. All IsFresh fs) (sym f) (new, fresh))
            (omega (arith, ap (λ (l : List Data). length l) f)))
    | inr old ↦ simp (old, choose_of) (go_on-Chosen d rest f old fresh)
  ]

  -- With a forked job, the choice can be continued only to schedules that were allowed before.
  pub choose-Chosen :
      (d : Data) (rest : List Data)
      → s.forked ≡ d ∷ rest
      → All IsFresh rest
      → Chosen s (choose os q s)
  unfolding choose
  choose-Chosen d rest f fresh =
      subst (λ fs. Chosen s (choose_of os q fs s)) (sym f) (choose_of-Chosen d rest f fresh)
