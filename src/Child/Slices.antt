-- ===== src/Child/Slices.antt =====
-- When the job is done, from the slices that it is sent.
use os2016spring.Base.{
  ℕ, zero, suc, ◌+◌, ◌-◌, ◌≤◌, ◌<◌, ◌≡◌, refl, sym, ap, ◌∙◌, append-nil, Bool, true, false, List,
  [], ◌∷◌, ◌++◌, ltb, arith,
}
use os2016spring.Child.{State, finished, end_of_input, burn, child}

abbrev pub sum : List ℕ → ℕ
sum [] = 0
sum (x ∷ xs) = x + sum xs

-- The state behind a burning of `n` units.
abbrev pub behind : ℕ → State → State
behind n s = record s { execution_time = s.execution_time - n; burned = s.burned + n }

State-ext : (s s' : State) → s.execution_time ≡ s'.execution_time → s.burned ≡ s'.burned → s ≡ s'
State-ext s s' e f = λ i. record { execution_time = e i; burned = f i }

pub burn-behind : (n : ℕ) (s : State) → burn n s ≡ behind n s
unfolding burn
burn-behind zero s = State-ext s (behind zero s) (omega arith) (omega arith)
burn-behind (suc n) s =
    burn-behind n (behind 1 s)
    ∙ State-ext (behind n (behind 1 s)) (behind (suc n) s) (omega arith) (omega arith)

-- One slice that leaves some of the job to do, and one that does not.
child-goes_on :
    (lowers : ℕ → Bool) (x : ℕ) (slices : List ℕ) (s : State)
    → ((n : ℕ) → lowers n ≡ true)
    → x < s.execution_time
    → child lowers (x ∷ slices) s ≡ child lowers slices (behind x s)
unfolding child
child-goes_on lowers x slices s all h =
    let left : ltb 0 (s.execution_time - x) ≡ true = ground arith in
    rw (burn-behind x s, left, all (s.burned + x)) refl

child-finishes :
    (lowers : ℕ → Bool) (x : ℕ) (slices : List ℕ) (s : State)
    → s.execution_time ≤ x
    → child lowers (x ∷ slices) s ≡ finished (behind x s) slices
unfolding child
child-finishes lowers x slices s h =
    let none_left : ltb 0 (s.execution_time - x) ≡ false = ground arith in
    rw (burn-behind x s, none_left) refl

-- Slices that leave some of the job to do are all burned, and it waits for the next one.
child-front :
    (lowers : ℕ → Bool) (front rest : List ℕ) (s : State)
    → ((n : ℕ) → lowers n ≡ true)
    → sum front < s.execution_time
    → child lowers (front ++ rest) s ≡ child lowers rest (behind (sum front) s)
child-front lowers [] rest s all h =
    ap (child lowers rest) (State-ext s (behind 0 s) (omega arith) (omega arith))
child-front lowers (x ∷ front) rest s all h =
    child-goes_on lowers x (front ++ rest) s all (omega arith)
    ∙ child-front lowers front rest (behind x s) all (omega arith)
    ∙ ap (child lowers rest) (
        State-ext (behind (sum front) (behind x s)) (behind (x + sum front) s) (omega arith)
          (omega arith))

-- Where the priority can be lowered, the job ends with the first slice by which the slices so far
-- sum up to its execution time: with code 0, after burning their sum, with the later slices unread.
pub child-served :
    (lowers : ℕ → Bool) (front : List ℕ) (x : ℕ) (rest : List ℕ) (time : ℕ)
    → ((n : ℕ) → lowers n ≡ true)
    → sum front < time
    → time ≤ sum front + x
    → child lowers (front ++ x ∷ rest) (record { execution_time = time; burned = 0 })
      ≡ finished (record { execution_time = 0; burned = sum front + x }) rest
child-served lowers front x rest time all before reached =
    let s : State = record { execution_time = time; burned = 0 } in
    child-front lowers front (x ∷ rest) s all before
    ∙ child-finishes lowers x rest (behind (sum front) s) (omega arith)
    ∙ ap (λ s'. finished s' rest)
        (State-ext (behind x (behind (sum front) s))
          (record { execution_time = 0; burned = sum front + x }) (omega arith) (omega arith))

-- Where the priority can be lowered, slices that sum up to less than the execution time do not end
-- the job: it burns them all and asks for more, until its input ends and it fails.
pub child-starved :
    (lowers : ℕ → Bool) (slices : List ℕ) (time : ℕ)
    → ((n : ℕ) → lowers n ≡ true)
    → sum slices < time
    → child lowers slices (record { execution_time = time; burned = 0 })
      ≡ end_of_input (record { execution_time = time - sum slices; burned = sum slices })
unfolding child
child-starved lowers slices time all short =
    let s : State = record { execution_time = time; burned = 0 } in
    ap (λ l. child lowers l s) (sym (append-nil slices))
    ∙ child-front lowers slices [] s all short
    ∙ ap end_of_input (
        State-ext (behind (sum slices) s)
          (record { execution_time = time - sum slices; burned = sum slices }) refl (omega arith))
