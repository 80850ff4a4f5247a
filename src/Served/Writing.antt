-- ===== src/Served/Writing.antt =====
-- What is written to the pipes from one trace to another.
use os2016spring.Base.{
  ℕ, ◌≡◌, ◌≢◌, refl, sym, ap, inl, inr, true, false, List, [], ◌∷◌, ◌++◌, append-nil, ◌==◌,
  Bool-cases, arith,
}
use os2016spring.Os.{Event, Trace, Timespec}
use os2016spring.Served.{slices, asked, Served}

-- What happens between two traces, when `sent` is all that is written to the pipe `p`, no other pipe
-- is written to, and no job is started.
pub record Sends (p : ℕ) (sent : List ℕ) (t t' : Trace) : Type 0 where
  pub own : slices p t' ≡ slices p t ++ sent
  pub others : (q : ℕ) → q ≢ p → slices q t' ≡ slices q t
  pub same_asked : (q : ℕ) → asked q t' ≡ asked q t
  pub keeps : Served t → Served t'

-- Nothing is written, and no job is started or reaped.
pub record Quiet (t t' : Trace) : Type 0 where
  pub same_slices : (q : ℕ) → slices q t' ≡ slices q t
  pub same_asked : (q : ℕ) → asked q t' ≡ asked q t
  pub keeps : Served t → Served t'

pub Quiet-refl : (t : Trace) → Quiet t t
Quiet-refl t = record { same_slices = λ _. refl; same_asked = λ _. refl; keeps = λ h. h }

pub Quiet-tick : (t : Trace) → Quiet t (Event.tick ∷ t)
Quiet-tick t = record { same_slices = λ _. refl; same_asked = λ _. refl; keeps = λ h. h }

pub Quiet-print_result :
    (pid : ℕ) (from to : Timespec) (t : Trace) → Quiet t (Event.print_result pid from to ∷ t)
Quiet-print_result pid from to t = record {
  same_slices = λ _. refl;
  same_asked = λ _. refl;
  keeps = λ h. h;
}

pub Quiet-start_time : (p : ℕ) (t : Trace) → Quiet t (Event.start_time p ∷ t)
Quiet-start_time p t = record { same_slices = λ _. refl; same_asked = λ _. refl; keeps = λ h. h }

pub self : (n : ℕ) → (n == n) ≡ true
self n = ground arith

pub differs : (p q : ℕ) → q ≢ p → (p == q) ≡ false
differs p q h = elim (Bool-cases (p == q)) [ inl e ↦ absurd (h (ground arith)) | inr e ↦ e ]

pub Sends-none : (p : ℕ) (t : Trace) → Sends p [] t t
Sends-none p t = record {
  own = sym (append-nil _);
  others = λ _ _. refl;
  same_asked = λ _. refl;
  keeps = λ h. h;
}

-- A slice is written, and the job is raised.
pub Sends-slice :
    (p n pid priority : ℕ) {t t' : Trace}
    → Quiet t t'
    → Sends p (n ∷ []) t (Event.set_priority pid priority ∷ Event.send p n ∷ t')
Sends-slice p n pid priority {t' = t'} quiet = record {
  own = rw (self p) (ap (λ l. l ++ n ∷ []) (quiet.same_slices p));
  others = λ q h. rw (differs p q h) (quiet.same_slices q);
  same_asked = quiet.same_asked;
  keeps = quiet.keeps;
}
