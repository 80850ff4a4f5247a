-- ===== src/Child/Reporting.antt =====
-- prj1/child2.c: the job of child.c with messages of its progress. The slices are not negative.
use os2016spring.Base.{
  ℕ, ◌≡◌, refl, ap, Bool, inl, inr, List, [], ◌∷◌, ◌++◌, ltb, if◌then◌else◌, Bool-cases,
}
use os2016spring.Child.{State, End, finished, end_of_input, priority_refused, burn, child}

-- What it prints, each with the numbers that are not the same in all of its messages.
pub data Message : Type 0 where
  greeting : Message
  read_error : Message
  slice : (x execution_time : ℕ) → Message
  finish : (execution_time : ℕ) → Message
  set_sched_error : Message

-- The `while` loop.
unfoldable pub report : (lowers : ℕ → Bool) → (slices : List ℕ) → State → End × List Message
unfolding burn
report lowers [] s = (end_of_input s, read_error ∷ [])
report lowers (x ∷ slices) s =
    let s' = burn x s in
    let (rest, said) = report lowers slices s' in
    let before = slice x s.execution_time in
    let behind = finish s'.execution_time in
    if ltb 0 s'.execution_time
    then if lowers s'.burned
      then (rest, before ∷ behind ∷ said)
      else (priority_refused s' slices, before ∷ behind ∷ set_sched_error ∷ [])
    else (finished s' slices, before ∷ [])

-- `main`
unfoldable pub child2 : (lowers : ℕ → Bool) → (slices : List ℕ) → State → End × List Message
unfolding report
child2 lowers slices s = let (end, said) = report lowers slices s in (end, greeting ∷ said)

-- The slices that are reported, and those that are not read.
abbrev pub reported : List Message → List ℕ
reported [] = []
reported (slice x _ ∷ said) = x ∷ reported said
reported (_ ∷ said) = reported said

abbrev pub unread : End → List ℕ
unread (finished _ slices) = slices
unread (end_of_input _) = []
unread (priority_refused _ slices) = slices

report-child :
    (lowers : ℕ → Bool) (slices : List ℕ) (s : State)
    → ((report lowers slices s).0 ≡ child lowers slices s)
      × (reported (report lowers slices s).1 ++ unread (child lowers slices s) ≡ slices)
unfolding report child
report-child lowers [] s = (refl, refl)
report-child lowers (x ∷ slices) s =
    let (same, all) = report-child lowers slices (burn x s) in
    elim (Bool-cases (ltb 0 (burn x s).execution_time)) [
      | inr e ↦ rw (e, report, child) (refl, refl)
      | inl e ↦ elim (Bool-cases (lowers (burn x s).burned)) [
        | inr f ↦ rw (e, f, report, child) (refl, refl)
        | inl f ↦ rw (e, f, report, child) (same, ap (λ l. x ∷ l) all)
      ]
    ]

-- On any slices, child2.c ends as child.c does, with the same code, after burning as much; and the
-- slices that its messages report are, in order, those that it has read: with those that are left
-- unread behind them they are all that it was sent.
pub child2-child :
    (lowers : ℕ → Bool) (slices : List ℕ) (s : State)
    → ((child2 lowers slices s).0 ≡ child lowers slices s)
      × (reported (child2 lowers slices s).1 ++ unread (child2 lowers slices s).0 ≡ slices)
unfolding child2
child2-child lowers slices s = let (same, all) = report-child lowers slices s in (same, rw same all)
