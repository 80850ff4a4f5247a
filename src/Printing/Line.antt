-- ===== src/Printing/Line.antt =====
-- The line of a result fits into its buffer and can be read back.
use os2016spring.Base.{
  ℕ, zero, suc, ◌+◌, ◌-◌, ◌*◌, ◌/◌, ◌%◌, ◌≤◌, ◌<◌, ◌≡◌, refl, sym, ap, ◌∙◌, Bool, true, false, inl,
  inr, List, [], ◌∷◌, ◌++◌, append_assoc, length, length-append, length-replicate, replicate, take,
  drop, take-length, drop-length, append-nil, subst, ltb, leb, ◌&&◌, Bool-cases, if◌then◌else◌,
  arith,
}
use os2016spring.Os.{Timespec}
use os2016spring.Printing.{decimal, plain, padded, time_text, heading, result_text}

-- 10 to the power `k`.
abbrev pub power : ℕ → ℕ
power zero = 1
power (suc k) = 10 * power k

length-decimal : (digits k n : ℕ) → n < power (suc k) → length (decimal digits n) ≤ suc k
unfolding decimal
length-decimal zero k n h = omega arith
length-decimal (suc digits) zero n h =
    let small : ltb n 10 ≡ true = ground arith in rw (small, decimal) (omega arith)
length-decimal (suc digits) (suc k) n h = elim (Bool-cases (ltb n 10)) [
  | inl small ↦ rw (small, decimal) (omega arith)
  | inr large ↦
      rw (large, decimal)
        (omega (
          arith,
          length-append (decimal digits (n / 10)) ((48 + n % 10) ∷ []),
          length-decimal digits k (n / 10) (omega arith),
        ))
]

-- A number is read up to the first character that is no digit.
abbrev pub read_number : (so_far : ℕ) → List ℕ → ℕ × List ℕ
read_number n [] = (n, [])
read_number n (c ∷ text) =
    let rest = read_number (n * 10 + (c - 48)) text in
    if leb 48 c && leb c 57 then rest else (n, c ∷ text)

-- A digit goes on with the number.
read_number-digit :
    (n d : ℕ) (text : List ℕ)
    → d < 10
    → read_number n ((48 + d) ∷ text) ≡ read_number (n * 10 + d) text
read_number-digit n d text h =
    let digit : (leb 48 (48 + d) && leb (48 + d) 57) ≡ true = ground arith in
    let value : n * 10 + (48 + d - 48) ≡ n * 10 + d = omega arith in rw (digit, value)

pub read_number-decimal :
    (digits n : ℕ) (text : List ℕ)
    → n < power digits
    → read_number 0 (decimal digits n ++ text) ≡ read_number n text
unfolding decimal
read_number-decimal zero n text h =
    let nothing : 0 ≡ n = omega arith in ap (λ m. read_number m text) nothing
read_number-decimal (suc digits) n text h = elim (Bool-cases (ltb n 10)) [
  | inl small ↦
      let value : 0 * 10 + n ≡ n = omega arith in
      rw (small, decimal)
        (read_number-digit 0 n text (ground arith) ∙ ap (λ m. read_number m text) value)
  | inr large ↦
      let value : n / 10 * 10 + n % 10 ≡ n = omega arith in
      rw (large, decimal)
        (ap (read_number 0) (append_assoc (decimal digits (n / 10)) ((48 + n % 10) ∷ []) text)
          ∙ read_number-decimal digits (n / 10) ((48 + n % 10) ∷ text) (omega arith)
          ∙ read_number-digit (n / 10) (n % 10) text (omega arith)
          ∙ ap (λ m. read_number m text) value)
]

-- The end of a number.
abbrev pub is_digit : ℕ → Bool
is_digit c = leb 48 c && leb c 57

read_number-end :
    (n c : ℕ) (text : List ℕ) → is_digit c ≡ false → read_number n (c ∷ text) ≡ (n, c ∷ text)
read_number-end n c text e = rw e

-- The range of a `long`.
abbrev pub IsLong : ℕ → Type 0
IsLong n = n < 9223372036854775808

pub read_number-plain :
    (n c : ℕ) (text : List ℕ)
    → IsLong n
    → is_digit c ≡ false
    → read_number 0 (plain n ++ c ∷ text) ≡ (n, c ∷ text)
unfolding plain
read_number-plain n c text h e =
    read_number-decimal 20 n (c ∷ text) (omega arith) ∙ read_number-end n c text e

read_number-zeros :
    (k : ℕ) (text : List ℕ) → read_number 0 (replicate k 48 ++ text) ≡ read_number 0 text
read_number-zeros zero text = refl
read_number-zeros (suc k) text =
    read_number-digit 0 0 (replicate k 48 ++ text) (omega arith) ∙ read_number-zeros k text

read_number-padded : (n : ℕ) → IsLong n → read_number 0 (padded n) ≡ (n, [])
unfolding padded plain
read_number-padded n h =
    read_number-zeros (9 - length (plain n)) (plain n)
    ∙ ap (read_number 0) (sym (append-nil (plain n)))
    ∙ read_number-decimal 20 n [] (omega arith)

-- To read a time, with nine digits of nanoseconds, and a whole line back.
read_time : List ℕ → Timespec × List ℕ
read_time text =
    let (sec, text1) = read_number 0 text in
    let (nsec, _) = read_number 0 (take 9 (drop 1 text1)) in
    (record { tv_sec = sec; tv_nsec = nsec }, drop 9 (drop 1 text1))

pub read_result : List ℕ → ℕ × Timespec × Timespec
read_result text =
    let (pid, text1) = read_number 0 (drop 11 text) in
    let (from, text2) = read_time (drop 1 text1) in
    let (to, _) = read_time (drop 1 text2) in (pid, from, to)

-- The fields of a time that the kernel gives.
pub record IsTime (t : Timespec) : Type 0 where
  pub seconds : IsLong t.tv_sec
  pub nanoseconds : t.tv_nsec < 1000000000

pub length-plain : (k n : ℕ) → n < power (suc k) → length (plain n) ≤ suc k
unfolding plain
length-plain k n h = length-decimal 20 k n h

-- Nine digits, where the number has no more.
length-padded : (n : ℕ) → n < 1000000000 → length (padded n) ≡ 9
unfolding padded
length-padded n h = omega (
  arith,
  length-plain 8 n (omega arith),
  length-append (replicate (9 - length (plain n)) 48) (plain n),
  length-replicate {A = ℕ} (9 - length (plain n)) 48,
)

length-time_text : (t : Timespec) → IsTime t → length (time_text t) ≤ 29
unfolding time_text
length-time_text t h = omega (
  arith,
  length-append (plain t.tv_sec) (46 ∷ padded t.tv_nsec),
  length-plain 18 t.tv_sec (omega (arith, h.seconds)),
  length-padded t.tv_nsec h.nanoseconds,
)

take_nine : (xs ys : List ℕ) → length xs ≡ 9 → take 9 (xs ++ ys) ≡ xs
take_nine xs ys e = subst (λ k. take k (xs ++ ys) ≡ xs) e (take-length xs ys)

drop_nine : (xs ys : List ℕ) → length xs ≡ 9 → drop 9 (xs ++ ys) ≡ ys
drop_nine xs ys e = subst (λ k. drop k (xs ++ ys) ≡ ys) e (drop-length xs ys)

read_time-text :
    (t : Timespec) (text : List ℕ) → IsTime t → read_time (time_text t ++ text) ≡ (t, text)
unfolding read_time time_text
read_time-text t text h =
    let nsec : IsLong t.tv_nsec = omega (arith, h.nanoseconds) in
    let nine = length-padded t.tv_nsec h.nanoseconds in
    rw (
      append_assoc (plain t.tv_sec) (46 ∷ padded t.tv_nsec) text,
      read_number-plain t.tv_sec 46 (padded t.tv_nsec ++ text) h.seconds refl,
      take_nine (padded t.tv_nsec) text nine,
      drop_nine (padded t.tv_nsec) text nine,
      read_number-padded t.tv_nsec nsec,
    )

length-line :
    (a b c : List ℕ)
    → length (heading ++ (a ++ 32 ∷ (b ++ 32 ∷ (c ++ 10 ∷ []))))
      ≡ 14 + (length a + (length b + length c))
length-line a b c = omega (
  arith,
  length-append a (32 ∷ (b ++ 32 ∷ (c ++ 10 ∷ []))),
  length-append b (32 ∷ (c ++ 10 ∷ [])),
  length-append c (10 ∷ []),
)

module _ (pid : ℕ) (from to : Timespec) (p : pid < 2147483648) (f : IsTime from)
    (t : IsTime to) where
  -- For a pid below 2^31 and times whose seconds are below 2^63 and whose nanoseconds are below
  -- 10^9, the line of a result can be read back: it tells the pid and both times.
  pub read_result-result_text : read_result (result_text pid from to) ≡ (pid, from, to)
  unfolding read_result result_text
  read_result-result_text = rw (
    read_number-plain pid 32 (time_text from ++ 32 ∷ (time_text to ++ 10 ∷ [])) (omega arith) refl,
    read_time-text from (32 ∷ (time_text to ++ 10 ∷ [])) f,
    read_time-text to (10 ∷ []) t,
  )

  -- For a pid below 2^31 and times whose seconds are below 2^63 and whose nanoseconds are below
  -- 10^9, the line of a result and the 0 at its end fit into the 100 bytes of `str`.
  pub length-result_text : length (result_text pid from to) + 1 ≤ 100
  unfolding result_text
  length-result_text = omega (
    arith,
    length-line (plain pid) (time_text from) (time_text to),
    length-plain 9 pid (omega arith),
    length-time_text from f,
    length-time_text to t,
  )
