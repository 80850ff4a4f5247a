-- ===== src/Pipe/Jobs.antt =====
-- Whenever a scheduler reaps a job, child.c on the text of its pipe has ended.
use os2016spring.Base.{
  ℕ, suc, ◌+◌, ◌≤◌, ◌<◌, ◌≡◌, refl, ap, ◌∙◌, true, inl, inr, some, List, [], ◌∷◌, All, All-front,
  All-back, length, length-append, ltb, ◌==◌, Bool-cases, arith,
}
use os2016spring.Os.{Event, Trace, elapsed, completions}
use os2016spring.Complete.{InTime}
use os2016spring.Printing.{plain}
use os2016spring.Child.{State, finished, child}
use os2016spring.Child.Slices.{sum, behind, burn-behind}
use os2016spring.Served.{slices, asked, IsServed, Served}
use os2016spring.Served.Accounts.{sum-append}
use os2016spring.Pipe.{job}
use os2016spring.Pipe.Reading.{IsInt, IsRead, text_of, on_text, atoi-plain, read_child-slices}

-- The job on a pipe, started with its execution time as a text, has read all the text that is written
-- to it but a space, and has ended, with its execution time burned to the unit.
abbrev pub IsServedText : (write : ℕ → List ℕ) → (pipe : ℕ) → Trace → Type 0
IsServedText write p t =
    (e : ℕ) × (asked p t ≡ some e)
    × (job (λ _. true) (plain e) (text_of write (slices p t))
        ≡ some (finished (record { execution_time = 0; burned = e }) (32 ∷ [])))

-- Whenever a job is reaped, it has been served.
abbrev pub ServedText : (write : ℕ → List ℕ) → Trace → Type 0
ServedText write [] = Unit
ServedText write (Event.reap p ∷ t) = IsServedText write p t × ServedText write t
ServedText write (_ ∷ t) = ServedText write t

-- What is sent to one job takes no more than all the time.
sum-slices : (p : ℕ) (t : Trace) → sum (slices p t) ≤ elapsed t
sum-slices p [] = omega arith
sum-slices p (Event.send q n ∷ t) = elim (Bool-cases (q == p)) [
  | inl e ↦ rw e (omega (arith, sum-append (slices p t) (n ∷ []), sum-slices p t))
  | inr e ↦ rw e (omega (arith, sum-slices p t))
]
sum-slices p (Event.tick ∷ t) = omega (arith, sum-slices p t)
sum-slices p (Event.spawn _ _ _ _ ∷ t) = sum-slices p t
sum-slices p (Event.set_priority _ _ ∷ t) = sum-slices p t
sum-slices p (Event.start_time _ ∷ t) = sum-slices p t
sum-slices p (Event.reap _ ∷ t) = sum-slices p t
sum-slices p (Event.print_result _ _ _ ∷ t) = sum-slices p t

summands-IsInt : (xs : List ℕ) → sum xs < 2147483648 → All IsInt xs
summands-IsInt [] h = tt
summands-IsInt (x ∷ xs) h = (omega arith, summands-IsInt xs (omega arith))

-- A job burns no more than it is sent.
child-burned :
    (xs : List ℕ) (s s' : State) (unread : List ℕ)
    → child (λ _. true) xs s ≡ finished s' unread
    → s'.burned ≤ s.burned + sum xs
unfolding child
child-burned [] s s' unread e = absurd (cc)
child-burned (x ∷ xs) s s' unread e = elim (Bool-cases (ltb 0 (behind x s).execution_time)) [
  | inl more ↦
      let later : child (λ _. true) xs (behind x s) ≡ finished s' unread =
        rw (burn-behind x s, more) at e in
      omega (arith, child-burned xs (behind x s) s' unread later)
  | inr done ↦
      let now : finished (behind x s) xs ≡ finished s' unread = rw (burn-behind x s, done) at e in
      let same : behind x s ≡ s' = cc in omega (arith, ap (λ (z : State). z.burned) same)
]

module _ (write : ℕ → List ℕ) (form : IsRead write) where
  slices_fit : (xs : List ℕ) → length xs ≤ length (text_of write xs)
  slices_fit [] = omega arith
  slices_fit (x ∷ xs) =
      omega (arith, length-append (write x) (text_of write xs), form.long x, slices_fit xs)

  IsServed-IsServedText :
      (p : ℕ) (t : Trace) → elapsed t < 2147483648 → IsServed p t → IsServedText write p t
  unfolding job
  IsServed-IsServedText p t short (e, started, ended) =
      let s : State = record { execution_time = e; burned = 0 } in
      let xs = slices p t in
      let small : sum xs < 2147483648 = omega (arith, sum-slices p t) in
      let burned : e ≤ sum xs =
        omega (arith, child-burned xs s (record { execution_time = 0; burned = e }) [] ended) in
      (
        e,
        started,
        rw (atoi-plain e (omega arith)) (
            read_child-slices write form (λ _. true) xs (suc (length (text_of write xs)))
              (text_of write xs) s (omega (arith, slices_fit xs)) (summands-IsInt xs small) refl
            ∙ ap (λ x. some (on_text write x)) ended),
      )

  pub Served-ServedText :
      (end : ℕ) (t : Trace)
      → end < 2147483648
      → InTime end (completions t)
      → Served t
      → ServedText write t
  Served-ServedText end [] small in_time h = tt
  Served-ServedText end (Event.reap p ∷ t) small in_time h = (
    IsServed-IsServedText p t
        (omega (arith, (All-back _ (completions t) ((p, elapsed t) ∷ []) in_time).0)) h.0,
    Served-ServedText end t small (All-front _ (completions t) _ in_time) h.1,
  )
  Served-ServedText end (Event.tick ∷ t) small in_time h = Served-ServedText end t small in_time h
  Served-ServedText end (Event.spawn _ _ _ _ ∷ t) small in_time h =
      Served-ServedText end t small in_time h
  Served-ServedText end (Event.send _ _ ∷ t) small in_time h =
      Served-ServedText end t small in_time h
  Served-ServedText end (Event.set_priority _ _ ∷ t) small in_time h =
      Served-ServedText end t small in_time h
  Served-ServedText end (Event.start_time _ ∷ t) small in_time h =
      Served-ServedText end t small in_time h
  Served-ServedText end (Event.print_result _ _ _ ∷ t) small in_time h =
      Served-ServedText end t small in_time h
