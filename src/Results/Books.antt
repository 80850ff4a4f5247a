-- ===== src/Results/Books.antt =====
-- What is known of the jobs that are left, and the lines that are due for the others.
use Prim.Native.String.{String}
use mathlib.Core.List.{Permᴰ}
use mathlib.Core.List.Permᴰ
use os2016spring.Base.{
  some, true, false, inl, inr, ℕ, ◌≡◌, ◌≢◌, refl, sym, ap, ◌∙◌, subst, List, [], ◌∷◌, ◌++◌, map,
  map-append, All, All-append, All-map, All-zip, append_assoc,
}
use os2016spring.Os.{Event, Trace, Timespec, Os, completions}
use os2016spring.Qsort.{All-perm}
use os2016spring.Qsort.Unique.{Spread, Spread-perm, All-map_of}
use os2016spring.Complete.{jobs}
use os2016spring.Served.Writing.{self, differs}
use os2016spring.Results.{Result, Facts, facts, reports, says, Truthful}

-- A job that is left, by its pipe, and what is known of it.
abbrev pub Entry : Type 0
Entry = ℕ × Facts

abbrev pub pipe_of : Entry → ℕ
pipe_of e = e.0

-- Of a job that is still to be started.
abbrev pub unknown : Facts
unknown = ([], [], [], false)

-- The entry tells what has happened.
abbrev pub Tells : Os → Trace → Entry → Type 0
Tells os t e = facts os t e.0 ≡ e.1

-- The job has not been completed.
abbrev pub IsLeft : List (ℕ × ℕ) → Entry → Type 0
IsLeft out e = All (λ p. p ≢ e.0) (jobs out)

-- `due` are the lines of the completed jobs.
pub record Books (os : Os) (t : Trace) (left : List Entry) (due : List Result) : Type 0 where
  pub tells : All (Tells os t) left
  pub apart : Spread pipe_of left
  pub away : All (IsLeft (completions t)) left
  pub results : map says due ≡ map (facts os t) (jobs (completions t))
  pub truthful : Truthful os t

jobs-append : (xs ys : List (ℕ × ℕ)) → jobs (xs ++ ys) ≡ jobs xs ++ jobs ys
jobs-append xs ys = rw map-append

map-same :
    {A B : Type 0} (f g : A → B) (xs : List A) → All (λ x. f x ≡ g x) xs → map f xs ≡ map g xs
map-same f g [] h = refl
map-same f g (x ∷ xs) h = rw (h.0, map-same f g xs h.1)

module _ {os : Os} {due : List Result} where
  -- The order of the entries does not matter.
  pub Books-perm :
      {t : Trace} {xs ys : List Entry} → Permᴰ xs ys → Books os t xs due → Books os t ys due
  Books-perm p b = record {
    tells = All-perm _ p b.tells;
    apart = Spread-perm pipe_of p b.apart;
    away = All-perm _ p b.away;
    results = b.results;
    truthful = b.truthful;
  }

  -- A call that changes no fact.
  pub Books-silent :
      {t t' : Trace} (left : List Entry)
      → ((p : ℕ) → facts os t' p ≡ facts os t p)
      → completions t' ≡ completions t
      → (Truthful os t → Truthful os t')
      → Books os t left due
      → Books os t' left due
  Books-silent {t = t} {t' = t'} left same done keeps b = record {
    tells = All-map {P = Tells os t} {Q = Tells os t'} (λ e h. same e.0 ∙ h) left b.tells;
    apart = b.apart;
    away = subst (λ out. All (IsLeft out) left) (sym done) b.away;
    results =
        b.results ∙ rw done (map-same _ _ _ (anywhere (jobs (completions t)) (λ p. sym (same p))));
    truthful = keeps b.truthful;
  }
    where
      anywhere : {P : ℕ → Type 0} (ps : List ℕ) → ((p : ℕ) → P p) → All P ps
      anywhere [] h = tt
      anywhere (p ∷ ps) h = (h p, anywhere ps h)

  -- A call that concerns one job that is left.
  pub Books-update :
      {t t' : Trace} (p : ℕ) (known known' : Facts) (left : List Entry)
      → facts os t' p ≡ known'
      → ((q : ℕ) → q ≢ p → facts os t' q ≡ facts os t q)
      → completions t' ≡ completions t
      → (Truthful os t → Truthful os t')
      → Books os t ((p, known) ∷ left) due
      → Books os t' ((p, known') ∷ left) due
  Books-update {t = t} {t' = t'} p known known' left new others done keeps b =
      let keep : (e : Entry) → Tells os t e → e.0 ≢ p → Tells os t' e =
        λ e h away. others e.0 away ∙ h in
      record {
        tells = (new, All-zip keep left b.tells.1 b.apart.0);
        apart = b.apart;
        away = subst (λ out. All (IsLeft out) ((p, known) ∷ left)) (sym done) b.away;
        results =
            b.results
            ∙ rw done (
                map-same _ _ _
                  (All-map (λ q away. sym (others q away)) (jobs (completions t)) b.away.0));
        truthful = keeps b.truthful;
      }

  -- A job is started, and taken behind those that are.
  pub Books-spawn :
      {t : Trace} (p pid : ℕ) (name : String) (time : ℕ) (front back : List Entry)
      → os.fork t ≡ some pid
      → Books os t (front ++ (p, unknown) ∷ back) due
      → Books os
          (Event.spawn pid p name time ∷ t)
          ((front ++ (p, (pid ∷ [], [], [], false)) ∷ []) ++ back)
          due
  Books-spawn {t = t} p pid name time front back given b =
      let b' = Books-perm (Permᴰ.middle (p, unknown) front back) b in
      let own : facts os (Event.spawn pid p name time ∷ t) p ≡ (pid ∷ [], [], [], false) =
        rw (self p) (ap (λ (k : Facts). (k.0 ++ pid ∷ [], k.1, k.2, k.3)) b'.tells.0) in
      let started =
        Books-update {t' = Event.spawn pid p name time ∷ t} p unknown (pid ∷ [], [], [], false)
          (front ++ back) own (λ q away. rw (differs p q away) refl) refl (λ h. (given, h)) b' in
      subst (λ l. Books os (Event.spawn pid p name time ∷ t) l due)
        (sym (append_assoc front ((p, (pid ∷ [], [], [], false)) ∷ []) back))
        (Books-perm (Permᴰ.symm (Permᴰ.middle (p, (pid ∷ [], [], [], false)) front back)) started)

  -- The start of a job is read, and its first slice is written.
  pub Books-start :
      {t : Trace} (p pid n : ℕ) (left : List Entry)
      → Books os t ((p, (pid ∷ [], [], [], false)) ∷ left) due
      → Books os
          (Event.send p n ∷ Event.start_time p ∷ t)
          ((p, (pid ∷ [], os.gettime t ∷ [], [], true)) ∷ left)
          due
  Books-start {t = t} p pid n left b =
      let t' = Event.send p n ∷ Event.start_time p ∷ t in
      let own : facts os t' p ≡ (pid ∷ [], os.gettime t ∷ [], [], true) =
        rw (self p) (ap (λ (k : Facts). (k.0, k.1 ++ os.gettime t ∷ [], k.2, true)) b.tells.0) in
      Books-update {t' = t'} p (pid ∷ [], [], [], false) (pid ∷ [], os.gettime t ∷ [], [], true)
        left own (λ q away. rw (differs p q away) refl) refl (λ h. (inl refl, h)) b

  -- A further slice is written.
  pub Books-send :
      {t : Trace} (p pid n : ℕ) (from : Timespec) (left : List Entry)
      → Books os t ((p, (pid ∷ [], from ∷ [], [], true)) ∷ left) due
      → Books os (Event.send p n ∷ t) ((p, (pid ∷ [], from ∷ [], [], true)) ∷ left) due
  Books-send {t = t} p pid n from left b =
      let known : Facts = (pid ∷ [], from ∷ [], [], true) in
      let own : facts os (Event.send p n ∷ t) p ≡ known =
        rw (self p) (ap (λ (k : Facts). (k.0, k.1, k.2, true)) b.tells.0) in
      Books-update {t' = Event.send p n ∷ t} p known known left own
        (λ q away. rw (differs p q away) refl) refl
        (λ h. (inr (ap (λ (k : Facts). k.3) b.tells.0), h)) b

  -- The job is reaped, and its line is due.
  pub Books-reap :
      {t : Trace} (p pid : ℕ) (from : Timespec) (left : List Entry)
      → Books os t ((p, (pid ∷ [], from ∷ [], [], true)) ∷ left) due
      → Books os (Event.reap p ∷ t) left (due ++ (pid, from, os.gettime t) ∷ [])
  Books-reap {t = t} p pid from left b = record {
    tells = All-zip keep left b.tells.1 b.apart.0;
    apart = b.apart.1;
    away = All-zip further left b.away.1 b.apart.0;
    results =
        map-append says due _
        ∙ before
        ∙ ap (λ l. map (facts os t') (jobs (completions t)) ++ l) (ap (λ k. k ∷ []) (sym own))
        ∙ sym (
            ap (map (facts os t')) (jobs-append (completions t) _)
            ∙ map-append (facts os t') (jobs (completions t)) _);
    truthful = b.truthful;
  }
    where
      t' : Trace
      t' = Event.reap p ∷ t

      keep : (e : Entry) → Tells os t e → e.0 ≢ p → Tells os t' e
      keep e h away = rw (differs p e.0 away) h

      further : (e : Entry) → IsLeft (completions t) e → e.0 ≢ p → IsLeft (completions t') e
      further e h away = rw jobs-append (All-append _ _ _ h ((λ same. away (sym same)), tt))

      own : facts os t' p ≡ says (pid, from, os.gettime t)
      own = rw (self p) (ap (λ (k : Facts). (k.0, k.1, k.2 ++ os.gettime t ∷ [], k.3)) b.tells.0)

      same_else : (q : ℕ) → q ≢ p → facts os t q ≡ facts os t' q
      same_else q away = rw (differs p q away)

      before :
          map says due ++ says (pid, from, os.gettime t) ∷ []
          ≡ map (facts os t') (jobs (completions t)) ++ says (pid, from, os.gettime t) ∷ []
      before =
          ap (λ l. l ++ says (pid, from, os.gettime t) ∷ [])
            (b.results ∙ map-same _ _ _ (All-map same_else (jobs (completions t)) b.away.0))

-- The job is reaped, and its line is printed at once.
pub Books-reap_print :
    {os : Os} {t : Trace} (p pid : ℕ) (from : Timespec) (left : List Entry)
    → Books os t ((p, (pid ∷ [], from ∷ [], [], true)) ∷ left) (reports t)
    → Books os
        (Event.print_result pid from (os.gettime t) ∷ Event.reap p ∷ t)
        left
        (reports t ++ (pid, from, os.gettime t) ∷ [])
Books-reap_print p pid from left b =
    Books-silent left (λ _. refl) refl (λ h. h) (Books-reap p pid from left b)

module _ {A : Type 0} (pipe : A → ℕ) where
  abbrev pub to_start : List A → List Entry
  to_start = map (λ a. (pipe a, unknown))

  abbrev first_call : Trace
  first_call = Event.set_priority 0 98 ∷ []

  to_start-Tells : (os : Os) (xs : List A) → All (Tells os first_call) (to_start xs)
  to_start-Tells os [] = tt
  to_start-Tells os (x ∷ xs) = (refl, to_start-Tells os xs)

  to_start-Spread : (xs : List A) → Spread pipe xs → Spread pipe_of (to_start xs)
  to_start-Spread [] h = tt
  to_start-Spread (x ∷ xs) h =
      (All-map_of (λ b. (pipe b, unknown)) (λ e. e.0 ≢ pipe x) xs h.0, to_start-Spread xs h.1)

  to_start-IsLeft : (xs : List A) → All (IsLeft []) (to_start xs)
  to_start-IsLeft [] = tt
  to_start-IsLeft (x ∷ xs) = (tt, to_start-IsLeft xs)

  -- Before any job is started.
  pub Books-new : (os : Os) (xs : List A) → Spread pipe xs → Books os first_call (to_start xs) []
  Books-new os xs h = record {
    tells = to_start-Tells os xs;
    apart = to_start-Spread xs h;
    away = to_start-IsLeft xs;
    results = refl;
    truthful = tt;
  }
