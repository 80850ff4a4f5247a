-- ===== src/Results/Printable.antt =====
-- The pids and times of the printed lines are in the ranges that the operating system keeps.
use os2016spring.Base.{
  ℕ, ◌<◌, ◌≡◌, sym, ap, subst, some, inl, inr, List, [], ◌∷◌, ◌++◌, map, All, All-append,
  Bool-cases, ◌==◌, if◌then◌else◌,
}
use os2016spring.Os.{Event, Trace, Os, completions}
use os2016spring.Complete.{jobs}
use os2016spring.Printing.Line.{IsTime}
use os2016spring.Results.{Result, pids, starts, finishes, facts, says, Truthful, reports, IsTold}

-- `pid_t` has 32 bits, and a time has less than 10^9 nanoseconds.
pub record InRange (os : Os) : Type 0 where
  pub pid : (t : Trace) (pid : ℕ) → os.fork t ≡ some pid → pid < 2147483648
  pub time : (t : Trace) → IsTime (os.gettime t)

-- The pid and the times of a result are in the ranges of their types.
abbrev pub IsPrintable : Result → Type 0
IsPrintable (pid, from, to) = (pid < 2147483648) × IsTime from × IsTime to

-- A list that may have got one more element.
All-snoc_if :
    {A : Type 0} (P : A → Type 0) (q p : ℕ) (before : List A) (a : A)
    → All P before
    → P a
    → All P (if q == p then before ++ a ∷ [] else before)
All-snoc_if P q p before a h new = elim (Bool-cases (q == p)) [
  | inl e ↦ rw e (All-append P before (a ∷ []) h (new, tt))
  | inr e ↦ rw e h
]

module _ (os : Os) (range : InRange os) (p : ℕ) where
  pids-small : (t : Trace) → Truthful os t → All (λ pid. pid < 2147483648) (pids p t)
  pids-small [] h = tt
  pids-small (Event.spawn pid q _ _ ∷ t) h =
      All-snoc_if _ q p (pids p t) pid (pids-small t h.1) (range.pid t pid h.0)
  pids-small (Event.tick ∷ t) h = pids-small t h
  pids-small (Event.send _ _ ∷ t) h = pids-small t h.1
  pids-small (Event.set_priority _ _ ∷ t) h = pids-small t h
  pids-small (Event.start_time _ ∷ t) h = pids-small t h
  pids-small (Event.reap _ ∷ t) h = pids-small t h
  pids-small (Event.print_result _ _ _ ∷ t) h = pids-small t h

  starts-IsTime : (t : Trace) → All IsTime (starts os p t)
  starts-IsTime [] = tt
  starts-IsTime (Event.start_time q ∷ t) =
      All-snoc_if _ q p (starts os p t) (os.gettime t) (starts-IsTime t) (range.time t)
  starts-IsTime (Event.spawn _ _ _ _ ∷ t) = starts-IsTime t
  starts-IsTime (Event.tick ∷ t) = starts-IsTime t
  starts-IsTime (Event.send _ _ ∷ t) = starts-IsTime t
  starts-IsTime (Event.set_priority _ _ ∷ t) = starts-IsTime t
  starts-IsTime (Event.reap _ ∷ t) = starts-IsTime t
  starts-IsTime (Event.print_result _ _ _ ∷ t) = starts-IsTime t

  finishes-IsTime : (t : Trace) → All IsTime (finishes os p t)
  finishes-IsTime [] = tt
  finishes-IsTime (Event.reap q ∷ t) =
      All-snoc_if _ q p (finishes os p t) (os.gettime t) (finishes-IsTime t) (range.time t)
  finishes-IsTime (Event.spawn _ _ _ _ ∷ t) = finishes-IsTime t
  finishes-IsTime (Event.tick ∷ t) = finishes-IsTime t
  finishes-IsTime (Event.send _ _ ∷ t) = finishes-IsTime t
  finishes-IsTime (Event.set_priority _ _ ∷ t) = finishes-IsTime t
  finishes-IsTime (Event.start_time _ ∷ t) = finishes-IsTime t
  finishes-IsTime (Event.print_result _ _ _ ∷ t) = finishes-IsTime t

module _ (os : Os) (range : InRange os) (t : Trace) (true_pids : Truthful os t) where
  said-IsPrintable : (r : Result) (p : ℕ) → says r ≡ facts os t p → IsPrintable r
  said-IsPrintable (pid, from, to) p e = (
    (subst (All (λ n. n < 2147483648)) (sym (ap (λ k. k.0) e))
        (pids-small os range p t true_pids)).0,
    (subst (All IsTime) (sym (ap (λ k. k.1) e)) (starts-IsTime os range p t)).0,
    (subst (All IsTime) (sym (ap (λ k. k.2) e)) (finishes-IsTime os range p t)).0,
  )

  all_said-IsPrintable :
      (rs : List Result) (ps : List ℕ) → map says rs ≡ map (facts os t) ps → All IsPrintable rs
  all_said-IsPrintable [] ps e = tt
  all_said-IsPrintable (r ∷ rs) [] e = absurd (cc)
  all_said-IsPrintable (r ∷ rs) (p ∷ ps) e =
      (said-IsPrintable r p (cc), all_said-IsPrintable rs ps (cc))

pub IsTold-IsPrintable :
    (os : Os) (t : Trace) → InRange os → IsTold os t → All IsPrintable (reports t)
IsTold-IsPrintable os t range (told, true_pids) =
    all_said-IsPrintable os range t true_pids (reports t) (jobs (completions t)) told
