-- ===== src/Tests/Printing.antt =====
-- The line of one result.
use os2016spring.Base.{◌+◌, ◌≤◌, ◌≡◌, refl, [], ◌∷◌, length, arith}
use os2016spring.Os.{Timespec}
use os2016spring.Printing.{decimal, plain, padded, time_text, result_text}
use os2016spring.Printing.Line.{IsTime, read_result, read_result-result_text, length-result_text}

abbrev from : Timespec
from = record { tv_sec = 7; tv_nsec = 50 }

abbrev to : Timespec
to = record { tv_sec = 1460000000; tv_nsec = 123456789 }

from-IsTime : IsTime from
from-IsTime = record { seconds = omega arith; nanoseconds = omega arith }

to-IsTime : IsTime to
to-IsTime = record { seconds = omega arith; nanoseconds = omega arith }

-- "7.000000050"
time_text_run : time_text from ≡ 55 ∷ 46 ∷ 48 ∷ 48 ∷ 48 ∷ 48 ∷ 48 ∷ 48 ∷ 48 ∷ 53 ∷ 48 ∷ []
unfolding time_text padded plain decimal
time_text_run = refl

read_result-result_text_example : read_result (result_text 4211 from to) ≡ (4211, from, to)
read_result-result_text_example =
    read_result-result_text 4211 from to (omega arith) from-IsTime to-IsTime

length-result_text_example : length (result_text 4211 from to) + 1 ≤ 100
length-result_text_example = length-result_text 4211 from to (omega arith) from-IsTime to-IsTime
