-- ===== src/Rr/Starting.antt =====
-- The variables of rr.c before its main loop.
use Prim.Native.Nat.{compare}
use mathlib.Core.List.{Permᴰ}
use mathlib.Core.List.Permᴰ
use os2016spring.Base.{
  ℕ, suc, ◌≤◌, ◌<◌, ◌≡◌, refl, sym, subst, ap, ◌∙◌, List, [], ◌∷◌, All, length, arith,
}
use os2016spring.Os.{Event}
use os2016spring.Qsort.{Qsort, All-perm, length-perm}
use os2016spring.Batch.{Line}
use os2016spring.Served.Apart.{Apart, Apart-perm, Numbered-Apart}
use os2016spring.Served.Accounts.{Accounts-new}
use os2016spring.Input.{as_tasks, total_time, as_tasks-Numbered}
use os2016spring.ReadyList.{PStruct}
use os2016spring.ReadyList.Queue.{Holds}
use os2016spring.Rr.{State, rr_cmp, read_structs, start, fuel_for}
use os2016spring.Rr.Invariant.{task, tasks, total, IsValid, gap-pend, pend-le-one, work}

pub rr_cmp-compares : (a b : PStruct) → rr_cmp a b ≡ compare a.r_time b.r_time
unfolding rr_cmp
rr_cmp-compares a b = ground arith

-- Every job has something to do.
abbrev pub HasTime : Line → Type 0
HasTime (_, _, e) = 0 < e

pub length-read_structs : (i : ℕ) (input : List Line) → length (read_structs i input) ≡ length input
unfolding read_structs
length-read_structs i [] = refl
length-read_structs i ((n, r, e) ∷ input) = ap suc (length-read_structs (suc i) input)

total-read_structs : (i : ℕ) (input : List Line) → total (read_structs i input) ≡ total_time input
unfolding read_structs
total-read_structs i [] = refl
total-read_structs i ((n, r, e) ∷ input) = omega (arith, total-read_structs (suc i) input)

unstarted_input :
    (i : ℕ) (input : List Line)
    → All HasTime input
    → All (λ (p : PStruct). 0 < p.remain_time) (read_structs i input)
unfolding read_structs
unstarted_input i [] h = tt
unstarted_input i ((n, r, e) ∷ input) h = (h.0, unstarted_input (suc i) input h.1)

untouched_input :
    (i : ℕ) (input : List Line)
    → All (λ (p : PStruct). p.remain_time ≡ p.e_time) (read_structs i input)
unfolding read_structs
untouched_input i [] = tt
untouched_input i ((n, r, e) ∷ input) = (refl, untouched_input (suc i) input)

pub tasks-read_structs :
    (i : ℕ) (input : List Line) → tasks (read_structs i input) ≡ as_tasks i input
unfolding read_structs
tasks-read_structs i [] = refl
tasks-read_structs i ((n, r, e) ∷ input) =
    ap (◌∷◌ (record { pipe = i; ready = r; burst = e })) (tasks-read_structs (suc i) input)

from_zero : (ps : List PStruct) → All (λ (p : PStruct). 0 ≤ p.r_time) ps
from_zero [] = tt
from_zero (p ∷ ps) = (omega arith, from_zero ps)

total-perm : {xs ys : List PStruct} → Permᴰ xs ys → total xs ≡ total ys
total-perm Permᴰ.nil = refl
total-perm (Permᴰ.cons e p) = omega (arith, total-perm p, ap (λ (q : PStruct). q.remain_time) e)
total-perm (Permᴰ.swap e f) =
    omega (arith, ap (λ (q : PStruct). q.remain_time) e, ap (λ (q : PStruct). q.remain_time) f)
total-perm (Permᴰ.trans p q) = total-perm p ∙ total-perm q

module _ (q : Qsort PStruct) (input : List Line) where
  unfoldable pub arrivals : List PStruct
  arrivals = q.sort rr_cmp (read_structs 0 input)

  pub arrivals_perm : Permᴰ arrivals (read_structs 0 input)
  unfolding arrivals
  arrivals_perm = q.perm rr_cmp (λ p. p.r_time) rr_cmp-compares (read_structs 0 input)

  -- The jobs have pipes of their own.
  pub arrivals-Apart : Apart (tasks arrivals)
  arrivals-Apart = Apart-perm (Permᴰ.map task (Permᴰ.symm arrivals_perm)) (
      subst Apart (sym (tasks-read_structs 0 input))
        (Numbered-Apart 0 _ (as_tasks-Numbered 0 input)))

  unfoldable pub begun : State
  begun = start arrivals (Event.set_priority 0 98 ∷ [])

  pub arrivals_untouched : All (λ (p : PStruct). p.remain_time ≡ p.e_time) arrivals
  arrivals_untouched = All-perm _ (Permᴰ.symm arrivals_perm) (untouched_input 0 input)

  -- The list is empty.
  pub begun-Holds : Holds begun.heap begun.cur_job []
  unfolding begun
  begun-Holds = record {
    nodes = [];
    ring = record { points = refl; linked = tt; distinct = tt; known = tt };
    in_order = refl;
  }

  pub begun-IsValid : All HasTime input → IsValid (length input) begun []
  unfolding begun arrivals
  begun-IsValid h = record {
    holds = begun-Holds;
    counted = refl;
    some_left = omega arith;
    within = omega arith;
    unfinished = tt;
    unstarted = All-perm _ (Permᴰ.symm arrivals_perm) (unstarted_input 0 input h);
    pending = from_zero _;
    sorted = q.sorted rr_cmp (λ p. p.r_time) rr_cmp-compares (read_structs 0 input);
    untouched = arrivals_untouched;
    accounts =
        Accounts-new (Event.set_priority 0 98 ∷ []) (tasks arrivals) (λ _. refl) tt arrivals-Apart;
    ends_last = λ _ _ bound h'. omega arith;
    all_counted = omega (arith, length-perm arrivals_perm, length-read_structs 0 input);
  }

  pub begun-work : work begun [] < fuel_for input
  unfolding begun
  begun-work = omega (
    arith,
    total-perm arrivals_perm,
    total-read_structs 0 input,
    length-perm arrivals_perm,
    length-read_structs 0 input,
    gap-pend 0 arrivals,
    pend-le-one arrivals,
  )
