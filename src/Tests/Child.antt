-- ===== src/Tests/Child.antt =====
-- The job with an execution time of 5.
use os2016spring.Base.{ℕ, Bool, true, ◌≡◌, refl, [], ◌∷◌, ◌++◌, arith}
use os2016spring.Child.{finished, end_of_input, child}
use os2016spring.Child.Reporting.{child2, reported, unread, child2-child}
use os2016spring.Child.Slices.{child-served, child-starved}

abbrev pub always : ℕ → Bool
always _ = true

child-served_example :
    child always ((2 ∷ 1 ∷ []) ++ 4 ∷ 9 ∷ []) (record { execution_time = 5; burned = 0 })
    ≡ finished (record { execution_time = 0; burned = 7 }) (9 ∷ [])
child-served_example =
    child-served always (2 ∷ 1 ∷ []) 4 (9 ∷ []) 5 (λ n. refl) (omega arith) (omega arith)

child-starved_example :
    child always (2 ∷ 1 ∷ []) (record { execution_time = 5; burned = 0 })
    ≡ end_of_input (record { execution_time = 2; burned = 3 })
child-starved_example = child-starved always (2 ∷ 1 ∷ []) 5 (λ n. refl) (omega arith)

child2-child_example :
    ((child2 always (2 ∷ 4 ∷ 9 ∷ []) (record { execution_time = 5; burned = 0 })).0
      ≡ child always (2 ∷ 4 ∷ 9 ∷ []) (record { execution_time = 5; burned = 0 }))
    × (reported (child2 always (2 ∷ 4 ∷ 9 ∷ []) (record { execution_time = 5; burned = 0 })).1
          ++ unread (child2 always (2 ∷ 4 ∷ 9 ∷ []) (record { execution_time = 5; burned = 0 })).0
        ≡ 2 ∷ 4 ∷ 9 ∷ [])
child2-child_example =
    child2-child always (2 ∷ 4 ∷ 9 ∷ []) (record { execution_time = 5; burned = 0 })
