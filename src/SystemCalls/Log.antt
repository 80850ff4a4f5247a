-- ===== src/SystemCalls/Log.antt =====
-- The log of the kernel behind a scheduler, read back.
use os2016spring.Base.{
  ℕ, zero, suc, ◌-◌, ◌≡◌, ◌≢◌, refl, sym, ap, ◌∙◌, Option, none, some, true, false, inl, inr, List,
  [], ◌∷◌, ◌++◌, append_assoc, append-nil, map, All, All-append, All-front, All-back, length,
  replicate, ltb, ◌==◌, Bool-cases, arith, ◌/◌,
}
use os2016spring.Os.{Event, Trace, Timespec}
use os2016spring.Served.Writing.{differs}
use os2016spring.Printing.{decimal, plain, padded, time_text, heading, result_text}
use os2016spring.Printing.Line.{read_result, read_result-result_text, length-result_text}
use os2016spring.Results.{Result, reports}
use os2016spring.Results.Printable.{IsPrintable}
use os2016spring.SystemCalls.{Linux, Answer, table, sys_myprint, enter, syscall, print_result, run}

-- The lines of a text, each with its end; `so_far` is the beginning of the first one.
abbrev cut : (so_far : List ℕ) → List ℕ → List (List ℕ)
cut so_far [] = []
cut so_far (c ∷ text) = elim (c == 10) [
  | true ↦ (so_far ++ 10 ∷ []) ∷ cut [] text
  | false ↦ cut (so_far ++ c ∷ []) text
]

-- To read the results back from the log.
abbrev pub read_log : List ℕ → List Result
read_log text = map read_result (cut [] text)

-- The lines of the results, one behind the other.
abbrev text_of : List Result → List ℕ
text_of [] = []
text_of ((pid, from, to) ∷ rs) = result_text pid from to ++ text_of rs

abbrev OneLine : List ℕ → Type 0
OneLine = All (λ c. c ≢ 10)

cut-line :
    (so_far body rest : List ℕ)
    → OneLine body
    → cut so_far (body ++ 10 ∷ rest) ≡ (so_far ++ (body ++ 10 ∷ [])) ∷ cut [] rest
cut-line so_far [] rest h = refl
cut-line so_far (c ∷ body) rest h =
    rw (differs c 10 (λ e. h.0 (sym e)), cut)
      (cut-line (so_far ++ c ∷ []) body rest h.1
        ∙ ap (λ l. l ∷ cut [] rest) (append_assoc so_far (c ∷ []) (body ++ 10 ∷ [])))

decimal-OneLine : (digits n : ℕ) → OneLine (decimal digits n)
unfolding decimal
decimal-OneLine zero n = tt
decimal-OneLine (suc digits) n = elim (Bool-cases (ltb n 10)) [
  | inl small ↦ rw (small, decimal) ((λ e. omega arith), tt)
  | inr large ↦
      rw (large, decimal)
        (All-append _ (decimal digits (n / 10)) _ (decimal-OneLine digits (n / 10))
          ((λ e. omega arith), tt))
]

zeros-OneLine : (k : ℕ) → OneLine (replicate k 48)
zeros-OneLine zero = tt
zeros-OneLine (suc k) = ((λ e. omega arith), zeros-OneLine k)

time_text-OneLine : (t : Timespec) → OneLine (time_text t)
unfolding time_text plain padded
time_text-OneLine t = All-append _ (plain t.tv_sec) _ (decimal-OneLine 20 t.tv_sec) (
  (λ e. omega arith),
  All-append _ (replicate (9 - length (plain t.tv_nsec)) 48) _
      (zeros-OneLine (9 - length (plain t.tv_nsec))) (decimal-OneLine 20 t.tv_nsec),
)

-- The line of a result without its end.
abbrev body : Result → List ℕ
body (pid, from, to) = heading ++ (plain pid ++ 32 ∷ (time_text from ++ 32 ∷ time_text to))

body-OneLine : (r : Result) → OneLine (body r)
unfolding plain
body-OneLine (pid, from, to) = All-append _ heading _ (ground arith) (
    All-append _ (plain pid) _ (decimal-OneLine 20 pid) (
      (λ e. omega arith),
      All-append _ (time_text from) _ (time_text-OneLine from)
          ((λ e. omega arith), time_text-OneLine to),
    ))

body-result_text :
    (pid : ℕ) (from to : Timespec) (rest : List ℕ)
    → result_text pid from to ++ rest ≡ body (pid, from, to) ++ 10 ∷ rest
unfolding result_text
body-result_text pid from to rest = simp append_assoc refl

-- The results can be read back from their lines.
read_log-text_of : (rs : List Result) → All IsPrintable rs → read_log (text_of rs) ≡ rs
read_log-text_of [] h = refl
read_log-text_of ((pid, from, to) ∷ rs) (h, hs) =
    ap (λ l. map read_result (cut [] l)) (body-result_text pid from to (text_of rs))
    ∙ ap (map read_result)
        (cut-line [] (body (pid, from, to)) (text_of rs) (body-OneLine (pid, from, to)))
    ∙ ap (λ l. read_result l ∷ read_log (text_of rs)) (sym whole)
    ∙ ap (λ r. r ∷ read_log (text_of rs)) (read_result-result_text pid from to h.0 h.1 h.2)
    ∙ ap (λ l. (pid, from, to) ∷ l) (read_log-text_of rs hs)
  where
    whole : result_text pid from to ≡ body (pid, from, to) ++ 10 ∷ []
    whole = sym (append-nil (result_text pid from to)) ∙ body-result_text pid from to []

text_of-append : (rs qs : List Result) → text_of (rs ++ qs) ≡ text_of rs ++ text_of qs
text_of-append [] qs = refl
text_of-append ((pid, from, to) ∷ rs) qs =
    ap (λ l. result_text pid from to ++ l) (text_of-append rs qs)
    ∙ sym (append_assoc (result_text pid from to) (text_of rs) (text_of qs))

module _ {State : Type 0} (linux : Linux State) (s0 : State) where
  -- A scheduler has run, and the log holds these results behind what it has held before.
  Holds : Trace → Type 0
  Holds t =
      (s : State) × (run linux s0 t ≡ some s) × (linux.log s ≡ linux.log s0 ++ text_of (reports t))

  print_result-log :
      (pid : ℕ) (from to : Timespec) (s : State)
      → IsPrintable (pid, from, to)
      → (s' : State) × (print_result linux pid from to s ≡ some (none, s'))
        × (linux.log s' ≡ linux.log s ++ result_text pid from to)
  unfolding print_result syscall table enter sys_myprint
  print_result-log pid from to s h = (
    linux.printk (result_text pid from to) s,
    refl,
    linux.log-printk (result_text pid from to) s
        (omega (arith, length-result_text pid from to h.0 h.1 h.2, linux.long_enough)),
  )

  run-Holds : (t : Trace) → All IsPrintable (reports t) → Holds t
  unfolding run Holds
  run-Holds [] h = (s0, refl, sym (append-nil (linux.log s0)))
  run-Holds (Event.tick ∷ t) h = run-Holds t h
  run-Holds (Event.spawn _ _ _ _ ∷ t) h = run-Holds t h
  run-Holds (Event.send _ _ ∷ t) h = run-Holds t h
  run-Holds (Event.set_priority _ _ ∷ t) h = run-Holds t h
  run-Holds (Event.start_time _ ∷ t) h = run-Holds t h
  run-Holds (Event.reap _ ∷ t) h = run-Holds t h
  run-Holds (Event.print_result pid from to ∷ t) h =
      let (s, ran, held) = run-Holds t (All-front IsPrintable (reports t) _ h) in
      let one = (All-back IsPrintable (reports t) ((pid, from, to) ∷ []) h).0 in
      let (s', printed, more) = print_result-log pid from to s one in
      (
        s',
        rw ran (
            ap (λ (o : Option (Answer State)). elim o [ none ↦ none | some a ↦ some a.1 ]) printed),
        more
            ∙ ap (λ l. l ++ result_text pid from to) held
            ∙ append_assoc (linux.log s0) (text_of (reports t)) (result_text pid from to)
            ∙ ap (λ l. linux.log s0 ++ l)
                (sym (
                  text_of-append (reports t) ((pid, from, to) ∷ [])
                  ∙ ap (λ l. text_of (reports t) ++ l) (append-nil (result_text pid from to)))),
      )

-- When the log of the kernel is empty, and a scheduler prints results whose pids are below 2^31, whose
-- seconds are below 2^63 and whose nanoseconds are below 10^9, each call of `print_result` comes back
-- from the kernel, and in the end its log, cut into lines and read back, tells the results in the
-- order in which they were printed.
pub read_log-run :
    {State : Type 0} (linux : Linux State) (s0 : State) (t : Trace)
    → linux.log s0 ≡ []
    → All IsPrintable (reports t)
    → (s : State) × (run linux s0 t ≡ some s) × (read_log (linux.log s) ≡ reports t)
unfolding Holds
read_log-run linux s0 t empty h =
    let (s, ran, held) = run-Holds linux s0 t h in
    (
      s,
      ran,
      ap read_log (held ∙ ap (λ l. l ++ text_of (reports t)) empty)
          ∙ read_log-text_of (reports t) h,
    )
