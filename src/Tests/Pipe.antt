-- ===== src/Tests/Pipe.antt =====
-- Three slices on the pipe of a job.
use os2016spring.Base.{◌≡◌, refl, some, [], ◌∷◌, arith}
use os2016spring.Printing.{plain, decimal}
use os2016spring.Child.{child}
use os2016spring.Pipe.{assign_text, run_job_text, read_child}
use os2016spring.Pipe.Reading.{text_of, on_text, read_child-child}
use os2016spring.Tests.Child.{always}

-- "         500 "
run_job_text_run :
    run_job_text 500 ≡ 32 ∷ 32 ∷ 32 ∷ 32 ∷ 32 ∷ 32 ∷ 32 ∷ 32 ∷ 32 ∷ 53 ∷ 48 ∷ 48 ∷ 32 ∷ []
unfolding run_job_text plain decimal
run_job_text_run = refl

read_child-child_example :
    (read_child always 4
        (text_of assign_text (500 ∷ 120 ∷ 7 ∷ []))
        (record { execution_time = 620; burned = 0 })
      ≡ some (
          on_text assign_text
            (child always (500 ∷ 120 ∷ 7 ∷ []) (record { execution_time = 620; burned = 0 }))))
    × (read_child always 4
          (text_of run_job_text (500 ∷ 120 ∷ 7 ∷ []))
          (record { execution_time = 620; burned = 0 })
        ≡ some (
            on_text run_job_text
              (child always (500 ∷ 120 ∷ 7 ∷ []) (record { execution_time = 620; burned = 0 }))))
read_child-child_example =
    read_child-child always (500 ∷ 120 ∷ 7 ∷ []) 4 (record { execution_time = 620; burned = 0 })
      (omega arith) (omega arith)
