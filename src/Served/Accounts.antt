-- ===== src/Served/Accounts.antt =====
-- What a scheduler owes to its jobs: the rest of the execution time that each was started with.
use Prim.Native.String.{String}
use mathlib.Core.List.{Permᴰ}
use mathlib.Core.List.Permᴰ
use os2016spring.Base.{
  ℕ, zero, suc, ◌+◌, ◌<◌, ◌≡◌, ◌≢◌, refl, sym, ap, ◌∙◌, subst, true, some, List, [], ◌∷◌, ◌++◌,
  append_assoc, All, All-append, All-map, All-zip, All-front, All-back, arith,
}
use os2016spring.Os.{Event, Trace}
use os2016spring.Qsort.{All-perm}
use os2016spring.Task.{Task}
use os2016spring.Child.{child, burn, finished}
use os2016spring.Child.Slices.{sum, child-served}
use os2016spring.Served.Writing.{Sends, Quiet, self, differs}
use os2016spring.Served.Apart.{Apart, Apart-perm}
use os2016spring.Served.{slices, asked, IsServed, Served}

-- What the job has been sent and what is left of it make up its execution time.
abbrev pub Owes : Trace → Task → Type 0
Owes t x =
    (asked x.pipe t ≡ some (sum (slices x.pipe t) + x.burst)) × (x.burst ≡ 0 → slices x.pipe t ≡ [])

pub record Accounts (t : Trace) (running waiting : List Task) : Type 0 where
  pub owed : All (Owes t) running
  pub fresh : All (λ (x : Task). slices x.pipe t ≡ []) waiting
  pub apart : Apart (running ++ waiting)
  pub served : Served t

pub sum-append : (xs ys : List ℕ) → sum (xs ++ ys) ≡ sum xs + sum ys
sum-append [] ys = omega arith
sum-append (x ∷ xs) ys = omega (arith, sum-append xs ys)

Owes-other :
    {p : ℕ} {sent : List ℕ} {t t' : Trace}
    → Sends p sent t t'
    → (y : Task) → y.pipe ≢ p
    → Owes t y
    → Owes t' y
Owes-other s y h o =
    let same = s.others y.pipe h in
    (s.same_asked y.pipe ∙ o.0 ∙ ap (λ l. some (sum l + y.burst)) (sym same), λ z. same ∙ o.1 z)

fresh-other :
    {p : ℕ} {sent : List ℕ} {t t' : Trace}
    → Sends p sent t t'
    → (y : Task) → y.pipe ≢ p
    → slices y.pipe t ≡ []
    → slices y.pipe t' ≡ []
fresh-other s y h o = s.others y.pipe h ∙ o

nothing_written :
    (t : Trace) (xs : List Task)
    → ((p : ℕ) → slices p t ≡ [])
    → All (λ (x : Task). slices x.pipe t ≡ []) xs
nothing_written t [] h = tt
nothing_written t (x ∷ xs) h = (h x.pipe, nothing_written t xs h)

-- Before any job is started.
pub Accounts-new :
    (t : Trace) (waiting : List Task)
    → ((p : ℕ) → slices p t ≡ [])
    → Served t
    → Apart waiting
    → Accounts t [] waiting
Accounts-new t waiting h served apart = record {
  owed = tt;
  fresh = nothing_written t waiting h;
  apart = apart;
  served = served;
}

-- The list may be taken in another order.
pub Accounts-perm :
    {t : Trace} {xs ys : List Task} (w : List Task)
    → Permᴰ xs ys
    → Accounts t xs w
    → Accounts t ys w
Accounts-perm w p a = record {
  owed = All-perm _ p a.owed;
  fresh = a.fresh;
  apart = Apart-perm (Permᴰ.append_right w p) a.apart;
  served = a.served;
}

Owes-Quiet : {t t' : Trace} → Quiet t t' → (x : Task) → Owes t x → Owes t' x
Owes-Quiet quiet x o =
    let same = quiet.same_slices x.pipe in
    (quiet.same_asked x.pipe ∙ o.0 ∙ ap (λ l. some (sum l + x.burst)) (sym same), λ z. same ∙ o.1 z)

-- A job is started.
pub Accounts-spawn :
    (t : Trace) (queue waiting : List Task) (pid : ℕ) (name : String) (x : Task)
    → Accounts t queue (x ∷ waiting)
    → Accounts (Event.spawn pid x.pipe name x.burst ∷ t) (queue ++ x ∷ []) waiting
Accounts-spawn t queue waiting pid name x a =
    let t' = Event.spawn pid x.pipe name x.burst ∷ t in
    let away = All-front _ queue waiting (Apart-perm (Permᴰ.middle x queue waiting) a.apart).0 in
    let keep : (y : Task) → y.pipe ≢ x.pipe → Owes t y → Owes t' y =
      λ y h o. (rw (differs x.pipe y.pipe h) o.0, o.1) in
    record {
      owed =
          All-append (Owes t') queue (x ∷ []) (All-zip keep queue away a.owed)
            ((rw (self x.pipe, a.fresh.0) (ap some (omega arith)), λ _. a.fresh.0), tt);
      fresh = a.fresh.1;
      apart = subst Apart (sym (append_assoc queue (x ∷ []) waiting)) a.apart;
      served = a.served;
    }

-- What is quiet changes no account.
pub Accounts-Quiet :
    {t t' : Trace} (queue waiting : List Task)
    → Quiet t t'
    → Accounts t queue waiting
    → Accounts t' queue waiting
Accounts-Quiet queue waiting quiet a = record {
  owed = All-map (Owes-Quiet quiet) queue a.owed;
  fresh = All-map (λ (x : Task) e. quiet.same_slices x.pipe ∙ e) waiting a.fresh;
  apart = a.apart;
  served = quiet.keeps a.served;
}

-- A slice of all that is left ends the job.
ends_job :
    (before : List ℕ) (b : ℕ)
    → (b ≡ 0 → before ≡ [])
    → child (λ _. true) (before ++ b ∷ []) (record { execution_time = sum before + b; burned = 0 })
      ≡ finished (record { execution_time = 0; burned = sum before + b }) []
unfolding child burn
ends_job before zero h =
    subst
      (λ l.
        child (λ _. true) (l ++ 0 ∷ []) (record { execution_time = sum l + 0; burned = 0 })
        ≡ finished (record { execution_time = 0; burned = sum l + 0 }) [])
      (sym (h refl)) refl
ends_job before (suc b) h =
    child-served (λ _. true) before (suc b) [] (sum before + suc b) (λ _. refl) (omega arith)
      (omega arith)

module _ {t t' : Trace} (queue waiting : List Task) (x : Task) {sent : List ℕ}
    (a : Accounts t (x ∷ queue) waiting) (s : Sends x.pipe sent t t') where
  rest_owed : All (Owes t') queue
  rest_owed = All-zip (Owes-other s) queue (All-front _ queue waiting a.apart.0) a.owed.1

  rest_fresh : All (λ (y : Task). slices y.pipe t' ≡ []) waiting
  rest_fresh = All-zip (fresh-other s) waiting (All-back _ queue waiting a.apart.0) a.fresh

  -- The first job is sent some of its time.
  pub Accounts-sent :
      (b : ℕ)
      → 0 < b
      → sum sent + b ≡ x.burst
      → Accounts t' (record x { burst = b } ∷ queue) waiting
  Accounts-sent b some_left part =
      let total : sum (slices x.pipe t) + x.burst ≡ sum (slices x.pipe t') + b =
        omega (arith, sum-append (slices x.pipe t) sent, ap sum s.own) in
      record {
        owed = (
          (s.same_asked x.pipe ∙ a.owed.0.0 ∙ ap some total, λ z. absurd (omega arith)),
          rest_owed,
        );
        fresh = rest_fresh;
        apart = a.apart;
        served = s.keeps a.served;
      }

  -- The first job is sent all that is left, and is reaped.
  pub Accounts-reaped :
      (q : ℕ) → q ≡ x.pipe → sent ≡ x.burst ∷ [] → Accounts (Event.reap q ∷ t') queue waiting
  Accounts-reaped q same all =
      let before = slices x.pipe t in
      let read : slices x.pipe t' ≡ before ++ x.burst ∷ [] = s.own ∙ ap (λ l. before ++ l) all in
      let job : IsServed x.pipe t' = (
        sum before + x.burst,
        s.same_asked x.pipe ∙ a.owed.0.0,
        rw read (ends_job before x.burst a.owed.0.1),
      ) in
      record {
        owed = rest_owed;
        fresh = rest_fresh;
        apart = a.apart.1;
        served = (subst (λ p. IsServed p t') (sym same) job, s.keeps a.served);
      }
