-- ===== src/Pipe.antt =====
-- prj1: a time slice on its way, as the codes of its characters. fifo.c, sjf.c and psjf.c write it in
-- one form, rr.c in another, and child.c reads it with scanf.
pub mod Reading
pub mod Jobs
use os2016spring.Base.{
  ℕ, zero, suc, ◌-◌, Bool, Option, none, some, List, [], ◌∷◌, ◌++◌, length, replicate, take, ltb,
  leb, ◌==◌, ◌&&◌, ◌||◌, if◌then◌else◌,
}
use os2016spring.Printing.{plain}
use os2016spring.Printing.Line.{read_number, is_digit}
use os2016spring.Child.{State, End, end_of_input, priority_refused, finished, burn}

-- `sprintf` with "%d " and the `write` of all that it has made, in `assign` and in `SendToChild`.
unfoldable pub assign_text : (time : ℕ) → List ℕ
assign_text time = plain time ++ 32 ∷ []

-- `sprintf` with "%12d " and the `write` of 13 characters, in `run_job`.
unfoldable pub run_job_text : (time : ℕ) → List ℕ
run_job_text time = take 13 (replicate (12 - length (plain time)) 32 ++ (plain time ++ 32 ∷ []))

-- White space, which `scanf` skips.
abbrev pub is_space : ℕ → Bool
is_space c = c == 32 || (leb 9 c && leb c 13)

abbrev pub skip : List ℕ → List ℕ
skip [] = []
skip (c ∷ text) = let rest = skip text in if is_space c then rest else c ∷ text

-- `scanf` with "%d" where no sign is written: the number and what is behind it, or none where its
-- answer is EOF or 0.
unfoldable pub scan_digits : List ℕ → Option (ℕ × List ℕ)
scan_digits [] = none
scan_digits (c ∷ text) = if is_digit c then some (read_number 0 (c ∷ text)) else none

unfoldable pub scan : List ℕ → Option (ℕ × List ℕ)
unfolding scan_digits
scan text = scan_digits (skip text)

-- The `while` loop of child.c on the text that its pipe holds until the end, on fuel; what is unread
-- at the end is text.
unfoldable pub read_child : (lowers : ℕ → Bool) → (fuel : ℕ) → (text : List ℕ) → State → Option End
unfolding scan burn
read_child lowers zero text s = none
read_child lowers (suc fuel) text s = elim (scan text) [
  | none ↦ some (end_of_input s)
  | some (x, rest) ↦
      let s' = burn x s in
      let later = read_child lowers fuel rest s' in
      if ltb 0 s'.execution_time
      then (if lowers s'.burned then later else some (priority_refused s' rest))
      else some (finished s' rest)
]

-- `atoi` of a text without a sign.
unfoldable pub atoi : List ℕ → ℕ
atoi text = (read_number 0 (skip text)).0

-- `main` of child.c with its last argument, which the schedulers write with "%d", and the text of its
-- pipe; a slice has at least one character, so that the fuel is enough.
unfoldable pub job : (lowers : ℕ → Bool) → (arg text : List ℕ) → Option End
unfolding atoi read_child
job lowers arg text =
    read_child lowers (suc (length text)) text (record { execution_time = atoi arg; burned = 0 })
