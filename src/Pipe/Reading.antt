-- ===== src/Pipe/Reading.antt =====
-- The job reads from the text of its pipe the slices that were written.
use os2016spring.Base.{
  ℕ, zero, suc, ◌+◌, ◌-◌, ◌/◌, ◌%◌, ◌<◌, ◌≡◌, refl, sym, ap, ◌∙◌, subst, Bool, true, false, inl,
  inr, some, List, [], ◌∷◌, ◌++◌, append_assoc, append-nil, All, length, length-append,
  length-replicate, replicate, take-all, length-take, ltb, Bool-cases, arith,
}
use os2016spring.Printing.{decimal, plain}
use os2016spring.Printing.Line.{
  read_number, is_digit, read_number-plain, read_number-decimal, length-plain,
}
use os2016spring.Child.{State, End, end_of_input, priority_refused, finished, burn, child}
use os2016spring.Pipe.{
  assign_text, run_job_text, is_space, skip, scan_digits, scan, read_child, atoi,
}

-- The range of an `int`.
abbrev pub IsInt : ℕ → Type 0
IsInt n = n < 2147483648

-- The first character of a number is a digit.
StartsDigit : List ℕ → Type 0
StartsDigit text =
    (c : ℕ) × (rest : List ℕ) × (text ≡ c ∷ rest) × (is_digit c ≡ true) × (is_space c ≡ false)

digit-StartsDigit : (n : ℕ) (text : List ℕ) → n < 10 → StartsDigit ((48 + n) ∷ text)
unfolding StartsDigit
digit-StartsDigit n text h = (48 + n, text, refl, ground arith, ground arith)

one_more-StartsDigit :
    (digits n : ℕ) (text : List ℕ)
    → StartsDigit (decimal digits (n / 10) ++ (48 + n % 10) ∷ text)
    → StartsDigit (decimal (suc digits) n ++ text)
unfolding decimal
one_more-StartsDigit digits n text front = elim (Bool-cases (ltb n 10)) [
  | inl small ↦ rw (small, decimal) (digit-StartsDigit n text (ground arith))
  | inr large ↦
      rw (large, decimal)
        (subst StartsDigit (sym (append_assoc (decimal digits (n / 10)) ((48 + n % 10) ∷ []) text))
          front)
]

decimal-StartsDigit : (digits n : ℕ) (text : List ℕ) → StartsDigit (decimal (suc digits) n ++ text)
unfolding decimal
decimal-StartsDigit zero n text =
    one_more-StartsDigit zero n text (digit-StartsDigit (n % 10) text (omega arith))
decimal-StartsDigit (suc digits) n text =
    one_more-StartsDigit (suc digits) n text
      (decimal-StartsDigit digits (n / 10) ((48 + n % 10) ∷ text))

scan-StartsDigit : (text : List ℕ) → StartsDigit text → scan text ≡ some (read_number 0 text)
unfolding scan scan_digits StartsDigit
scan-StartsDigit text (c, rest, e, digit, no_space) = rw e (rw (no_space, digit) refl)

-- The argument of a job is read.
pub atoi-plain : (n : ℕ) → IsInt n → atoi (plain n) ≡ n
unfolding atoi plain StartsDigit
atoi-plain n h =
    let (c, rest, e, digit, no_space) = decimal-StartsDigit 19 n [] in
    let same : plain n ≡ c ∷ rest = sym (append-nil (plain n)) ∙ e in
    let skipped : skip (plain n) ≡ plain n ++ [] = rw same (rw (no_space, append-nil) refl) in
    ap (λ l. (read_number 0 l).0) skipped
    ∙ ap (λ (r : ℕ × List ℕ). r.0) (read_number-decimal 20 n [] (omega arith))

-- A number that stands in front is read.
scan-plain : (n : ℕ) (text : List ℕ) → IsInt n → scan (plain n ++ 32 ∷ text) ≡ some (n, 32 ∷ text)
unfolding plain
scan-plain n text h =
    scan-StartsDigit (plain n ++ 32 ∷ text) (decimal-StartsDigit 19 n (32 ∷ text))
    ∙ ap some (read_number-plain n 32 text (omega arith) refl)

-- What is written for a slice is read as the slice, up to the space behind it.
pub record IsRead (write : ℕ → List ℕ) : Type 0 where
  pub reads : (n : ℕ) (rest : List ℕ) → IsInt n → scan (write n ++ rest) ≡ some (n, 32 ∷ rest)
  pub long : (n : ℕ) → 0 < length (write n)

pub assign_text-IsRead : IsRead assign_text
unfolding assign_text
assign_text-IsRead = record {
  reads = λ n rest h. ap scan (append_assoc (plain n) (32 ∷ []) rest) ∙ scan-plain n rest h;
  long = λ n. omega (arith, length-append (plain n) (32 ∷ []));
}

scan-spaces : (k : ℕ) (text : List ℕ) → scan (replicate k 32 ++ text) ≡ scan text
unfolding scan
scan-spaces zero text = refl
scan-spaces (suc k) text = scan-spaces k text

run_job_text-whole :
    (n : ℕ)
    → IsInt n
    → run_job_text n ≡ replicate (12 - length (plain n)) 32 ++ (plain n ++ 32 ∷ [])
unfolding run_job_text
run_job_text-whole n h = take-all 13 _ (
    omega (
      arith,
      length-append (replicate (12 - length (plain n)) 32) (plain n ++ 32 ∷ []),
      length-append (plain n) (32 ∷ []),
      length-replicate {A = ℕ} (12 - length (plain n)) 32,
      length-plain 9 n (omega arith),
    ))

run_job_text-read :
    (n : ℕ) (rest : List ℕ) → IsInt n → scan (run_job_text n ++ rest) ≡ some (n, 32 ∷ rest)
run_job_text-read n rest h =
    ap (λ l. scan (l ++ rest)) (run_job_text-whole n h)
    ∙ ap scan (append_assoc (replicate (12 - length (plain n)) 32) (plain n ++ 32 ∷ []) rest)
    ∙ scan-spaces (12 - length (plain n)) ((plain n ++ 32 ∷ []) ++ rest)
    ∙ ap scan (append_assoc (plain n) (32 ∷ []) rest)
    ∙ scan-plain n rest h

pub run_job_text-IsRead : IsRead run_job_text
unfolding run_job_text
run_job_text-IsRead = record {
  reads = run_job_text-read;
  long = λ n.
      let text = replicate (12 - length (plain n)) 32 ++ (plain n ++ 32 ∷ []) in
      omega (
        arith,
        length-take 13 text,
        length-append (replicate (12 - length (plain n)) 32) (plain n ++ 32 ∷ []),
        length-append (plain n) (32 ∷ []),
      );
}

module _ (write : ℕ → List ℕ) where
  -- The slices as they are written, one behind the other.
  abbrev pub text_of : List ℕ → List ℕ
  text_of [] = []
  text_of (x ∷ slices) = write x ++ text_of slices

  -- The end of the job, with the text that is unread in place of the slices: the space behind the
  -- last slice that was read, and the others.
  abbrev pub on_text : End → End
  on_text (finished s unread) = finished s (32 ∷ text_of unread)
  on_text (end_of_input s) = end_of_input s
  on_text (priority_refused s unread) = priority_refused s (32 ∷ text_of unread)

  module _ (form : IsRead write) (lowers : ℕ → Bool) where
    pub read_child-slices :
        (slices : List ℕ) (fuel : ℕ) (text : List ℕ) (s : State)
        → length slices < fuel
        → All IsInt slices
        → scan text ≡ scan (text_of slices)
        → read_child lowers fuel text s ≡ some (on_text (child lowers slices s))
    unfolding read_child child
    read_child-slices slices zero text s room h e = absurd (omega arith)
    read_child-slices [] (suc fuel) text s room h e = rw (e, read_child) refl
    read_child-slices (x ∷ slices) (suc fuel) text s room h e =
        let found : scan text ≡ some (x, 32 ∷ text_of slices) =
          e ∙ form.reads x (text_of slices) h.0 in
        let s' = burn x s in
        let room' : length slices < fuel = omega arith in
        let go_on =
          read_child-slices slices fuel (32 ∷ text_of slices) s' room' h.1
            (scan-spaces 1 (text_of slices)) in
        rw (found, read_child)
          (elim (Bool-cases (ltb 0 s'.execution_time)) [
            | inr done ↦ rw done refl
            | inl more ↦ elim (Bool-cases (lowers s'.burned)) [
              | inr refused ↦ rw (more, refused) refl
              | inl lowered ↦ rw (more, lowered) go_on
            ]
          ])

-- Slices below 2^31 that are written behind one another, in the form of fifo.c, sjf.c and psjf.c or
-- in that of rr.c, are read by child.c one by one: on their text, with more fuel than there are
-- slices, it ends as it does on the slices, in the same state; what is unread is the space behind the
-- last slice that it has read, and the text of the slices that it has not.
pub read_child-child :
    (lowers : ℕ → Bool) (slices : List ℕ) (fuel : ℕ) (s : State)
    → All IsInt slices
    → length slices < fuel
    → (read_child lowers fuel (text_of assign_text slices) s
        ≡ some (on_text assign_text (child lowers slices s)))
      × (read_child lowers fuel (text_of run_job_text slices) s
          ≡ some (on_text run_job_text (child lowers slices s)))
read_child-child lowers slices fuel s h room = (
  read_child-slices assign_text assign_text-IsRead lowers slices fuel _ s room h refl,
  read_child-slices run_job_text run_job_text-IsRead lowers slices fuel _ s room h refl,
)
