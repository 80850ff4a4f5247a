-- ===== src/Batch/Forking.antt =====
-- `executeFork` moves the jobs whose time has come behind the forked ones and changes no task.
use os2016spring.Base.{
  ℕ, ◌≡◌, refl, ◌∙◌, ap, sym, subst, true, false, inl, inr, List, [], ◌∷◌, ◌++◌, append_assoc,
  append-nil, All, All-append, Bool-cases, Option-cases, ◌==◌, arith,
}
use os2016spring.Os.{Os, completions, Event}
use os2016spring.Os.Ends
use os2016spring.Os.Ends.{priority_checked, Ends, ends, fork_failed}
use os2016spring.Served.Accounts.{Accounts, Accounts-spawn}
use os2016spring.Batch.{Data, State, fork_one, execute_forks, execute_fork}
use os2016spring.Batch.Invariant.{IsValid, tasks, tasks-append, task, After, NotBefore}
use os2016spring.Qsort.{All-gt}

abbrev pub IsFresh : Data → Type 0
IsFresh d = d.flag ≡ true

-- Only the job at `Index` may have started.
abbrev pub RestFresh : List Data → Type 0
RestFresh [] = Unit
RestFresh (d ∷ rest) = All IsFresh rest

pub RestFresh-append : (f new : List Data) → RestFresh f → All IsFresh new → RestFresh (f ++ new)
RestFresh-append [] [] h k = tt
RestFresh-append [] (n ∷ new) h k = k.1
RestFresh-append (d ∷ f) new h k = All-append IsFresh f new h k

pub RestFresh-all : (f : List Data) → All IsFresh f → RestFresh f
RestFresh-all [] h = tt
RestFresh-all (d ∷ f) h = h.1

-- `new` are the jobs that were forked.
pub record Forked (s s' : State) : Type 0 where
  pub new : List Data
  pub finished : s'.finished ≡ s.finished
  pub forked : s'.forked ≡ s.forked ++ new
  pub unforked : tasks (new ++ s'.unforked) ≡ tasks s.unforked
  pub fresh : All IsFresh new
  pub still_fresh : All IsFresh s'.unforked
  pub completed : completions s'.trace ≡ completions s.trace
  pub clock : s'.clock ≡ s.clock
  pub valid : IsValid s'
  pub strict : All (After s'.clock) s'.unforked

-- The state after one round of `executeFork`.
abbrev forked_one : State → Data → List Data → ℕ → State
forked_one s d ds p = record s {
  forked = s.forked ++ record d { pid = p } ∷ [];
  unforked = ds;
  trace = Event.spawn p d.pipe d.name d.execution_time ∷ s.trace;
}

none_to_fork : (s : State) → s.unforked ≡ [] → IsValid s → Forked s s
none_to_fork s u v = record {
  new = [];
  finished = refl;
  forked = append_nil_sym;
  unforked = refl;
  fresh = tt;
  still_fresh = rw u tt;
  completed = refl;
  clock = refl;
  valid = v;
  strict = rw u tt;
}
  where
    append_nil_sym : s.forked ≡ s.forked ++ []
    append_nil_sym = rw append-nil

none_yet :
    (s : State) (d : Data) (ds : List Data)
    → s.unforked ≡ d ∷ ds
    → All IsFresh (d ∷ ds)
    → (s.clock == d.ready_time) ≡ false
    → IsValid s
    → Forked s s
none_yet s d ds u f miss v =
    let (le, _) : All (NotBefore s.clock) (d ∷ ds) = rw u at v.pending in
    let order = rw u at v.sorted in
    record {
      new = [];
      finished = refl;
      forked = rw append-nil;
      unforked = refl;
      fresh = tt;
      still_fresh = rw u f;
      completed = refl;
      clock = refl;
      valid = v;
      strict = rw u (ground arith, All-gt (λ (e : Data). e.ready_time) d ds (ground arith) order.0);
    }

forked_one-IsValid :
    (s : State) (d : Data) (ds : List Data) (p : ℕ)
    → s.unforked ≡ d ∷ ds
    → (s.clock == d.ready_time) ≡ true
    → IsValid s
    → IsValid (forked_one s d ds p)
forked_one-IsValid s d ds p u hit v =
    let pend : All (NotBefore s.clock) (d ∷ ds) = rw u at v.pending in
    let order = rw u at v.sorted in
    record {
      counted = v.counted;
      arrived = All-append _ s.forked _ v.arrived (ground arith, tt);
      pending = pend.1;
      sorted = order.1;
      accounts =
          subst (λ f. Accounts (forked_one s d ds p).trace f (tasks ds))
            (sym (tasks-append s.forked (record d { pid = p } ∷ [])))
            (Accounts-spawn s.trace (tasks s.forked) (tasks ds) p d.name (task d)
              (subst (λ l. Accounts s.trace (tasks s.forked) (tasks l)) u v.accounts));
    }

Forked-more :
    (s s' : State) (d : Data) (ds : List Data) (p : ℕ)
    → s.unforked ≡ d ∷ ds
    → d.flag ≡ true
    → Forked (forked_one s d ds p) s'
    → Forked s s'
Forked-more s s' d ds p u f h = record {
  new = record d { pid = p } ∷ h.new;
  finished = h.finished;
  forked = h.forked ∙ append_assoc s.forked _ _;
  unforked = rw u (ap (◌∷◌ (task d)) h.unforked);
  fresh = (f, h.fresh);
  still_fresh = h.still_fresh;
  completed = h.completed;
  clock = h.clock;
  valid = h.valid;
  strict = h.strict;
}

module _ {os : Os} where
  execute_forks-Forked :
      (ds : List Data) (s : State)
      → s.unforked ≡ ds
      → All IsFresh ds
      → IsValid s
      → Ends priority_checked os (Forked s) (execute_forks os ds s)
  unfolding execute_forks
  execute_forks-Forked [] s u f v = ends (none_to_fork s u v)
  execute_forks-Forked (d ∷ ds) s u f v = elim (Bool-cases (s.clock == d.ready_time)) [
    | inr miss ↦ rw (miss, execute_forks) (ends (none_yet s d ds u f miss v))
    | inl hit ↦ elim (Option-cases (os.fork s.trace)) [
      | inl e ↦ rw (hit, execute_forks, e, fork_one) (fork_failed s.trace e)
      | inr (p, e) ↦
          rw (hit, execute_forks, e, fork_one)
            (Ends.mono
              (execute_forks-Forked ds (forked_one s d ds p) refl f.1
                (forked_one-IsValid s d ds p u hit v))
              λ s' h. Forked-more s s' d ds p u f.0 h)
    ]
  ]

  pub execute_fork-Forked :
      (s : State)
      → All IsFresh s.unforked
      → IsValid s
      → Ends priority_checked os (Forked s) (execute_fork os s)
  unfolding execute_fork
  execute_fork-Forked s f v = execute_forks-Forked s.unforked s refl f v

-- The tasks of the jobs that are left are the same, in the same order.
pub tasks-Forked :
    (s s' : State) → Forked s s' → tasks (s'.forked ++ s'.unforked) ≡ tasks (s.forked ++ s.unforked)
tasks-Forked s s' h =
    rw (h.forked, append_assoc s.forked h.new s'.unforked)
      (tasks-append s.forked (h.new ++ s'.unforked)
        ∙ ap (◌++◌ (tasks s.forked)) h.unforked
        ∙ sym (tasks-append s.forked s.unforked))
