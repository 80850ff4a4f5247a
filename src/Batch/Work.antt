-- ===== src/Batch/Work.antt =====
-- How much is left to do at the head of the main loop: enough fuel for it.
use os2016spring.Base.{
  ℕ, ◌+◌, ◌*◌, ◌≤◌, ◌<◌, ◌≡◌, refl, ap, List, [], ◌∷◌, ◌++◌, length, ◌∙◌, true, length-append,
  length-map, ltb, All, if◌then◌else◌, arith,
}
use os2016spring.Batch.{Data, State, is_left}
use os2016spring.Task.{Task}
use os2016spring.Batch.Invariant.{tasks, task, After}
use os2016spring.Batch.Waiting.{Waited, target}
use os2016spring.Batch.Forking.{Forked}
use os2016spring.Batch.Assigning.{Assigned, completed, interrupted}

-- Whether the next arrival is ahead of the clock.
abbrev pub gap : ℕ → List Data → ℕ
gap c [] = 0
gap c (d ∷ _) = if ltb c d.ready_time then 1 else 0

-- Ends of jobs and arrivals that are still to come.
abbrev pub work : State → ℕ
work s = length s.forked + 2 * length s.unforked + gap s.clock s.unforked

length-tasks : (ds es : List Data) → tasks ds ≡ tasks es → length ds ≡ length es
length-tasks ds es e =
    omega (arith, length-map task ds, length-map task es, ap (λ (l : List Task). length l) e)

-- After `waitLoop` the next arrival is not ahead of the clock where no job is forked.
gap-target : (f u : List Data) (c : ℕ) → gap (target f u c) u ≤ gap c u
gap-target [] [] c = omega arith
gap-target [] (d ∷ u) c = ground arith
gap-target (e ∷ f) u c = omega arith

pub work-Waited : (s s' : State) → Waited s s' → work s' ≤ work s
work-Waited s s' w =
    rw (w.forked, w.unforked, w.clock) (omega (arith, gap-target s.forked s.unforked s.clock))

gap-tasks : (c : ℕ) (ds es : List Data) → tasks ds ≡ tasks es → gap c ds ≡ gap c es
gap-tasks c [] [] e = refl
gap-tasks c [] (_ ∷ _) e = absurd (cc)
gap-tasks c (_ ∷ _) [] e = absurd (cc)
gap-tasks c (d ∷ ds) (d' ∷ es) e = let same : d.ready_time ≡ d'.ready_time = ground arith in rw same

pub gap-le-one : (c : ℕ) (ds : List Data) → gap c ds ≤ 1
gap-le-one c [] = omega arith
gap-le-one c (d ∷ ds) = ground arith

gap_mono : (c c' : ℕ) (ds : List Data) → c ≤ c' → gap c' ds ≤ gap c ds
gap_mono c c' [] h = omega arith
gap_mono c c' (d ∷ ds) h = ground arith

work-new :
    (new u u' : List Data) (c n : ℕ)
    → tasks (new ++ u') ≡ tasks u
    → n + length new + 2 * length u' + gap c u' ≤ n + 2 * length u + gap c u
work-new [] u u' c n e = omega (arith, length-tasks u' u e, gap-tasks c u' u e)
work-new (d ∷ new) u u' c n e = omega (
  arith,
  length-tasks (d ∷ (new ++ u')) u e,
  length-append new u',
  gap-le-one c u',
  gap-le-one c u,
)

pub work-Forked : (s s' : State) → Forked s s' → work s' ≤ work s
work-Forked s s' h =
    rw (h.forked, h.clock, length-append s.forked h.new)
      (omega (arith, work-new h.new s.unforked s'.unforked s.clock (length s.forked) h.unforked))

-- The work depends on the lengths and on the clock alone.
pub work-eq :
    (s s' : State)
    → length s'.forked ≡ length s.forked
    → s'.unforked ≡ s.unforked
    → s'.clock ≡ s.clock
    → work s' ≡ work s
work-eq s s' f u c = rw (f, u, c)

-- A job that ends, or an arrival that is reached, leaves less to do.
pub work-Assigned :
    (s s' : State) (d : Data) (rest : List Data)
    → s.forked ≡ d ∷ rest
    → All (After s.clock) s.unforked
    → Assigned s s' d rest
    → work s' < work s
work-Assigned s s' d rest f strict (completed f' u' c' _ _) =
    rw (f', u', f) (omega (arith, gap_mono s.clock s'.clock s.unforked (omega arith)))
work-Assigned s s' d rest f strict (interrupted _ next later t f' _ _ _ _ u' u c' _ _ _) =
    let (ahead, _) : All (After s.clock) (next ∷ later) = rw u at strict in
    rw (f', u', f, u) (ground (arith, ahead))

-- Where a job is left, one is forked once the clock stands at its arrival.
pub record HasHead (s : State) : Type 0 where
  pub head : Data
  pub rest : List Data
  pub is_head : s.forked ≡ head ∷ rest

head_of_new :
    (d : Data) (u new u' : List Data) (c : ℕ)
    → tasks (new ++ u') ≡ tasks (d ∷ u)
    → d.ready_time ≡ c
    → All (After c) u'
    → (n : Data) × (ns : List Data) × (new ≡ n ∷ ns)
head_of_new d u (n ∷ ns) u' c e reach strict = (n, ns, refl)
head_of_new d u [] [] c e reach strict = absurd (cc)
head_of_new d u [] (d' ∷ u') c e reach strict =
    let same : d'.ready_time ≡ d.ready_time = ground arith in absurd (omega (arith, strict.0))

HasHead-of :
    (f u : List Data) (s s1 s2 : State)
    → s.forked ≡ f
    → s.unforked ≡ u
    → is_left f u ≡ true
    → Waited s s1
    → Forked s1 s2
    → HasHead s2
HasHead-of (d ∷ f) u s s1 s2 ef eu left w h = record {
  head = d;
  rest = f ++ h.new;
  is_head = rw (h.forked, w.forked, ef);
}
HasHead-of [] [] s s1 s2 ef eu left w h = absurd (cc)
HasHead-of [] (d ∷ u) s s1 s2 ef eu left w h =
    let clock : s1.clock ≡ d.ready_time = rw (ef, eu) at w.clock in
    let un : tasks (h.new ++ s2.unforked) ≡ tasks (d ∷ u) =
      h.unforked ∙ ap tasks (w.unforked ∙ eu) in
    let (n, ns, e) =
      head_of_new d u h.new s2.unforked s2.clock un (omega (arith, h.clock)) h.strict in
    record { head = n; rest = ns; is_head = rw (h.forked, w.forked, ef, e) }

pub Forked-HasHead :
    (s s1 s2 : State) → is_left s.forked s.unforked ≡ true → Waited s s1 → Forked s1 s2 → HasHead s2
Forked-HasHead s s1 s2 left w h = HasHead-of s.forked s.unforked s s1 s2 refl refl left w h
