-- ===== src/Sjf/Rounds.antt =====
-- What a round of sjf.c does to the schedules that may follow.
use os2016spring.Base.{
  ℕ, ◌+◌, ◌-◌, ◌≤◌, ◌<◌, ◌≡◌, sym, ap, ◌∙◌, subst, Bool, true, false, List, [], ◌∷◌, ◌++◌,
  append_assoc, All, arith,
}
use os2016spring.Os.{Os, completions}
use os2016spring.Os.Ends
use os2016spring.Os.Ends.{priority_checked, Ends, ends}
use os2016spring.Qsort.{Qsort}
use os2016spring.Batch.{Data, State, is_left, wait_loop}
use os2016spring.Task.{Task}
use os2016spring.Batch.Invariant.{IsValid, EndsLast, task, tasks, tasks-append}
use os2016spring.Batch.Waiting.{Waited, wait_loop-Waited, target}
use os2016spring.Batch.Forking.{
  Forked, IsFresh, RestFresh, RestFresh-append, RestFresh-all, execute_fork-Forked,
}
use os2016spring.Batch.Assigning.{
  Assigned, completed, interrupted, assign-Assigned, Assigned-IsValid, Assigned-unforked,
  Assigned-EndsLast,
}
use os2016spring.Batch.Work.{work, work-Waited, work-Forked, work-Assigned, work-eq, Forked-HasHead}
use os2016spring.Sjf.{choose, round}
use os2016spring.Sjf.Shortest.{Shortest, idle}
use os2016spring.Sjf.Choosing.{PendingAt, Pending, Pending-fresh, Chosen, choose-Chosen}

-- The completions that may follow from a state on.
abbrev pub Continues : State → List (ℕ × ℕ) → Type 0
Continues s out =
    (later : List (ℕ × ℕ)) × (out ≡ completions s.trace ++ later)
    × Pending s.forked s.unforked s.clock later

-- Whatever may follow from `s'` on may follow from `s` on.
unfoldable pub Narrows : State → State → Type 0
Narrows s s' = (out : List (ℕ × ℕ)) → Continues s' out → Continues s out

Pending-target :
    (f u : List Data) (c : ℕ) (out : List (ℕ × ℕ))
    → c ≤ target f u c
    → All (λ (t : Task). target f u c ≤ t.ready) (tasks u)
    → Pending f u (target f u c) out
    → Pending f u c out
Pending-target [] [] c out le none_yet h = h
Pending-target [] (d ∷ u) c out le none_yet h = idle le none_yet h
Pending-target (e ∷ f) u c out le none_yet h = h

ready_after :
    (c : ℕ) (u : List Data)
    → All (λ (d : Data). c ≤ d.ready_time) u
    → All (λ (t : Task). c ≤ t.ready) (tasks u)
ready_after c [] h = tt
ready_after c (d ∷ u) h = (h.0, ready_after c u h.1)

target-ge : (f u : List Data) (c : ℕ) → All (λ (d : Data). c ≤ d.ready_time) u → c ≤ target f u c
target-ge [] [] c h = omega arith
target-ge [] (d ∷ u) c h = h.0
target-ge (e ∷ f) u c h = omega arith

Waited-Narrows : (s s' : State) → IsValid s → Waited s s' → Narrows s s'
unfolding Narrows
Waited-Narrows s s' v w out (later, e, p) =
    let pending : All (λ (d : Data). target s.forked s.unforked s.clock ≤ d.ready_time) s.unforked =
      rw (w.clock, w.unforked) at w.valid.pending in
    (
      later,
      rw w.completed at e,
      Pending-target s.forked s.unforked s.clock later
          (target-ge s.forked s.unforked s.clock v.pending) (ready_after _ s.unforked pending)
          (rw (w.forked, w.unforked, w.clock) at p),
    )

Pending-new :
    (f new u u' : List Data) (c : ℕ) (out : List (ℕ × ℕ))
    → All IsFresh new
    → tasks (new ++ u') ≡ tasks u
    → Pending (f ++ new) u' c out
    → Pending f u c out
Pending-new [] new u u' c out fresh same p =
    subst (λ ts. Shortest c ts out) same
      (subst (λ (T : Type 0). T) (Pending-fresh new u' c out fresh) p)
Pending-new (d ∷ f) new u u' c out fresh same p = at_head d.flag p
  where
    moved : tasks ((f ++ new) ++ u') ≡ tasks (f ++ u)
    moved =
        ap tasks (append_assoc f new u')
        ∙ tasks-append f (new ++ u')
        ∙ ap (◌++◌ (tasks f)) same
        ∙ sym (tasks-append f u)

    at_head : (b : Bool) → PendingAt b d (f ++ new) u' c out → PendingAt b d f u c out
    at_head true h = subst (λ ts. Shortest c (task d ∷ ts) out) moved h
    at_head false (later, e, h) =
        (later, e, subst (λ ts. Shortest (c + d.execution_time) ts later) moved h)

Forked-Narrows : (s s' : State) → Forked s s' → Narrows s s'
unfolding Narrows
Forked-Narrows s s' h out (later, e, p) = (
  later,
  rw h.completed at e,
  Pending-new s.forked h.new s.unforked s'.unforked s.clock later h.fresh h.unforked
      (rw (h.forked, h.clock) at p),
)

-- The job at the head ends next, at the time that its execution time gives.
abbrev EndsNext : State → Data → List Data → List (ℕ × ℕ) → Type 0
EndsNext s d rest out =
    (later : List (ℕ × ℕ)) × (out
      ≡ completions s.trace ++ (d.pipe, s.clock + d.execution_time) ∷ later)
    × Shortest (s.clock + d.execution_time) (tasks (rest ++ s.unforked)) later

PendingAt-false :
    (b : Bool) (d : Data) (rest u : List Data) (c : ℕ) (out : List (ℕ × ℕ))
    → b ≡ false
    → PendingAt b d rest u c out
    → PendingAt false d rest u c out
PendingAt-false true d rest u c out e h = absurd (cc)
PendingAt-false false d rest u c out e h = h

Assigned-EndsNext :
    (s s' : State) (d : Data) (rest : List Data)
    → d.flag ≡ false
    → All IsFresh rest
    → Assigned s s' d rest
    → (out : List (ℕ × ℕ)) → Continues s' out
    → EndsNext s d rest out
Assigned-EndsNext s s' d rest old fresh (completed f' u' c' ended _) out (later, e, p) =
    let q : Pending rest s.unforked (s.clock + d.execution_time) later = rw (f', u', c') at p in
    (
      later,
      e
          ∙ ap (λ l. l ++ later) ended
          ∙ append_assoc (completions s.trace) _ later
          ∙ ap (λ c. completions s.trace ++ (d.pipe, c) ∷ later) c',
      subst (λ (T : Type 0). T)
          (Pending-fresh rest s.unforked (s.clock + d.execution_time) later fresh) q,
    )
Assigned-EndsNext s s' d rest old fresh
      (interrupted d' next _ t f' same flag' pos less u' u reach c' ended _) out (later, e, p) =
    let q : Pending (d' ∷ rest) s.unforked s'.clock later = rw (f', u') at p in
    let (later', e', r) =
      PendingAt-false d'.flag d' rest s.unforked s'.clock later (flag' ∙ old) q in
    let pipe : d'.pipe ≡ d.pipe = ground arith in
    let burst : d'.execution_time ≡ d.execution_time - t = ground arith in
    let time : s'.clock + d'.execution_time ≡ s.clock + d.execution_time = omega arith in
    (
      later',
      e
          ∙ ap (λ l. l ++ later) ended
          ∙ ap (◌++◌ (completions s.trace)) (
              e'
              ∙ ap (λ n. (n, s'.clock + d'.execution_time) ∷ later') pipe
              ∙ ap (λ n. (d.pipe, n) ∷ later') time),
      subst (λ c. Shortest c (tasks (rest ++ s.unforked)) later') time r,
    )

Chosen-Narrows :
    (s s' : State) (c : Chosen s s') (out : List (ℕ × ℕ))
    → EndsNext s' c.head c.rest out
    → Continues s out
Chosen-Narrows s s' c out (later, e, p) =
    let q : Shortest (s.clock + c.head.execution_time) (tasks (c.rest ++ s.unforked)) later =
      rw (c.clock, c.unforked) at p in
    (
      (c.head.pipe, s.clock + c.head.execution_time) ∷ later,
      rw (c.completed, c.clock) at e,
      c.back later q,
    )

unfoldable pub IsSound : State → Type 0
IsSound s = IsValid s × All IsFresh s.unforked × RestFresh s.forked × EndsLast s

Assigned-RestFresh :
    (s s' : State) (d : Data) (rest : List Data)
    → All IsFresh rest
    → Assigned s s' d rest
    → RestFresh s'.forked
Assigned-RestFresh s s' d rest fresh (completed f' _ _ _ _) = rw f' (RestFresh-all rest fresh)
Assigned-RestFresh s s' d rest fresh (interrupted _ _ _ _ f' _ _ _ _ _ _ _ _ _ _) = rw f' fresh

-- The four phases of a round one after the other.
phases-Narrow :
    (s s1 s2 s3 s4 : State) (c : Chosen s2 s3)
    → IsValid s
    → Waited s s1
    → (h : Forked s1 s2) → Assigned s3 s4 c.head c.rest
    → IsSound s4 × Narrows s s4 × (work s4 < work s)
unfolding IsSound Narrows
phases-Narrow s s1 s2 s3 s4 c v w h a =
    let same = Assigned-unforked a ∙ c.unforked in
    (
      (
        Assigned-IsValid a,
        rw same h.still_fresh,
        Assigned-RestFresh s3 s4 c.head c.rest c.fresh a,
        Assigned-EndsLast a,
      ),
      λ out k. Waited-Narrows s s1 v w out (
          Forked-Narrows s1 s2 h out (
            Chosen-Narrows s2 s3 c out
              (Assigned-EndsNext s3 s4 c.head c.rest c.flag c.fresh a out k))),
      omega (
        arith,
        work-Waited s s1 w,
        work-Forked s1 s2 h,
        work-eq s2 s3 c.length_same c.unforked c.clock,
        work-Assigned s3 s4 c.head c.rest c.is_head (rw (c.unforked, c.clock) h.strict) a,
      ),
    )

pub round-Narrows :
    (os : Os) (q : Qsort Data) (s : State)
    → IsSound s
    → is_left s.forked s.unforked ≡ true
    → Ends priority_checked os (λ s'. IsSound s' × Narrows s s' × (work s' < work s)) (round os q s)
unfolding round IsSound Narrows
round-Narrows os q s (v, fresh, flags, _) left =
    let s1 = wait_loop s in
    let w = wait_loop-Waited s v in
    Ends.bind (execute_fork-Forked s1 (rw w.unforked fresh) w.valid) λ s2 h.
      let at = Forked-HasHead s s1 s2 left w h in
      let flags2 : RestFresh s2.forked =
        rw h.forked (RestFresh-append s1.forked h.new (rw w.forked flags) h.fresh) in
      let flags2' : RestFresh (at.head ∷ at.rest) = rw at.is_head at flags2 in
      let c = choose-Chosen os q s2 h.valid h.strict at.head at.rest at.is_head flags2' in
      Ends.mono
        (assign-Assigned os (choose os q s2) c.head c.rest c.valid
          (rw (c.unforked, c.clock) h.strict) c.is_head)
        λ s4 a. phases-Narrow s s1 s2 (choose os q s2) s4 c v w h a
