-- ===== src/Batch/Input.antt =====
-- The jobs as they are read and sorted: the state before the main loop is valid.
use Prim.Native.Nat.{compare}
use mathlib.Core.List.{Permᴰ}
use mathlib.Core.List.Permᴰ
use os2016spring.Base.{ℕ, suc, ◌≡◌, refl, sym, subst, ◌∙◌, List, [], ◌∷◌, All, length, ap, arith}
use os2016spring.Os.{Trace, Event, completions}
use os2016spring.Qsort.{Qsort, All-perm, length-perm}
use os2016spring.Served.{Served}
use os2016spring.Served.Apart.{Apart, Apart-perm, Numbered-Apart}
use os2016spring.Served.Accounts.{Accounts-new}
use os2016spring.Input.{as_tasks, as_tasks-Numbered}
use os2016spring.Batch.{Data, Line, cmp, read_file, start, print_results}
use os2016spring.Batch.Invariant.{IsValid, task, tasks, NotBefore}
use os2016spring.Batch.Forking.{IsFresh}

pub cmp-compares : (a b : Data) → cmp a b ≡ compare a.ready_time b.ready_time
unfolding cmp
cmp-compares a b = ground arith

read_file-IsFresh : (i : ℕ) (input : List Line) → All IsFresh (read_file i input)
unfolding read_file
read_file-IsFresh i [] = tt
read_file-IsFresh i ((name, r, e) ∷ input) = (refl, read_file-IsFresh (suc i) input)

length-read_file : (i : ℕ) (input : List Line) → length (read_file i input) ≡ length input
unfolding read_file
length-read_file i [] = refl
length-read_file i ((name, r, e) ∷ input) = ap suc (length-read_file (suc i) input)

NotBefore-zero : (ds : List Data) → All (NotBefore 0) ds
NotBefore-zero [] = tt
NotBefore-zero (d ∷ ds) = (omega arith, NotBefore-zero ds)

pub tasks-read_file : (i : ℕ) (input : List Line) → tasks (read_file i input) ≡ as_tasks i input
unfolding read_file
tasks-read_file i [] = refl
tasks-read_file i ((n, r, e) ∷ input) =
    ap (◌∷◌ (record { pipe = i; ready = r; burst = e })) (tasks-read_file (suc i) input)

module _ (q : Qsort Data) (input : List Line) where
  -- The sorted array is a rearrangement of what was read.
  pub sorted_perm : Permᴰ (q.sort cmp (read_file 0 input)) (read_file 0 input)
  sorted_perm = q.perm cmp (λ d. d.ready_time) cmp-compares (read_file 0 input)

  pub IsFresh-input : All IsFresh (q.sort cmp (read_file 0 input))
  IsFresh-input = All-perm IsFresh (Permᴰ.symm sorted_perm) (read_file-IsFresh 0 input)

  pub length-sorted_input : length (q.sort cmp (read_file 0 input)) ≡ length input
  length-sorted_input = length-perm sorted_perm ∙ length-read_file 0 input

  pub start-IsValid : IsValid (start (q.sort cmp (read_file 0 input)))
  start-IsValid = record {
    counted = refl;
    arrived = tt;
    pending = NotBefore-zero _;
    sorted = q.sorted cmp (λ d. d.ready_time) cmp-compares (read_file 0 input);
    accounts =
        Accounts-new (Event.set_priority 0 98 ∷ []) _ (λ _. refl) tt
          (Apart-perm (Permᴰ.map task (Permᴰ.symm sorted_perm)) (
            subst Apart (sym (tasks-read_file 0 input))
              (Numbered-Apart 0 _ (as_tasks-Numbered 0 input))));
  }

-- The results are printed after the last completion.
pub completions-print_results :
    (ds : List Data) (t : Trace) → completions (print_results ds t) ≡ completions t
unfolding print_results
completions-print_results [] t = refl
completions-print_results (d ∷ ds) t =
    completions-print_results ds (Event.print_result d.pid d.started_at d.finished_at ∷ t)

pub Served-print_results : (ds : List Data) (t : Trace) → Served t → Served (print_results ds t)
unfolding print_results
Served-print_results [] t h = h
Served-print_results (d ∷ ds) t h =
    Served-print_results ds (Event.print_result d.pid d.started_at d.finished_at ∷ t) h
