-- ===== src/Printing.antt =====
-- prj1/printtime.h: the line that reports the times of a job, as the codes of its characters.
pub mod Line
use os2016spring.Base.{
  ℕ, zero, suc, ◌+◌, ◌-◌, ◌/◌, ◌%◌, Bool, true, false, List, [], ◌∷◌, ◌++◌, length, replicate, ltb,
}
use os2016spring.Os.{Timespec}

-- The decimal digits of a number, `digits` of them at most; a `long` has no more than 20.
unfoldable pub decimal : (digits : ℕ) → ℕ → List ℕ
decimal zero n = []
decimal (suc digits) n = elim (ltb n 10) [
  | true ↦ (48 + n) ∷ []
  | false ↦ decimal digits (n / 10) ++ (48 + n % 10) ∷ []
]

-- `%d` and `%ld` of a number that is not negative, and `%09ld`.
unfoldable pub plain : ℕ → List ℕ
plain n = decimal 20 n

unfoldable pub padded : ℕ → List ℕ
padded n = replicate (9 - length (plain n)) 48 ++ plain n

-- `%ld.%09ld`
unfoldable pub time_text : Timespec → List ℕ
time_text t = plain t.tv_sec ++ 46 ∷ padded t.tv_nsec

-- "[Project1] "
abbrev pub heading : List ℕ
heading = 91 ∷ 80 ∷ 114 ∷ 111 ∷ 106 ∷ 101 ∷ 99 ∷ 116 ∷ 49 ∷ 93 ∷ 32 ∷ []

-- What `print_result` leaves in `str`, without the 0 at its end.
unfoldable pub result_text : (pid : ℕ) → Timespec → Timespec → List ℕ
result_text pid from to =
    heading ++ (plain pid ++ 32 ∷ (time_text from ++ 32 ∷ (time_text to ++ 10 ∷ [])))
