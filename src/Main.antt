-- ===== src/Main.antt =====
-- prj1/main.c: the choice of a policy by its name.
pub mod Dispatch
pub mod Logging
use Prim.Native.String.{String}
use text.Mathlib.Text.{◌==◌}
use os2016spring.Base.{ℕ, zero, suc, Option, none, some, List, [], ◌∷◌, if◌then◌else◌}
use os2016spring.Os.{Trace, Os, Outcome, ok, exit, ◌>>=◌}
use os2016spring.Qsort.{Qsort}
use os2016spring.Batch.{Data, Line}
use os2016spring.Fifo.{fifo}
use os2016spring.Sjf.{sjf}
use os2016spring.Psjf.{RawInput, psjf}
use os2016spring.ReadyList.{PStruct}
use os2016spring.Rr.{rr}

-- `POLICY_FIFO` to `POLICY_RR`
pub data Policy : Type 0 where
  policy_fifo : Policy
  policy_sjf : Policy
  policy_psjf : Policy
  policy_rr : Policy

-- The array `Policies`.
abbrev pub policies : List String
policies = "FIFO" ∷ "SJF" ∷ "PSJF" ∷ "RR" ∷ []

-- The loop that looks for the name; none is -1.
unfoldable pub find_index : String → (index : ℕ) → List String → Option ℕ
find_index desired i [] = none
find_index desired i (p ∷ rest) = if p == desired then some i else find_index desired (suc i) rest

-- The cases of the `switch`.
unfoldable pub policy_at : ℕ → Option Policy
policy_at zero = some policy_fifo
policy_at (suc zero) = some policy_sjf
policy_at (suc (suc zero)) = some policy_psjf
policy_at (suc (suc (suc zero))) = some policy_rr
policy_at _ = none

-- The scheduler of a policy; it leaves its trace.
unfoldable pub run_policy :
    Os → Qsort Data → Qsort RawInput → Qsort PStruct → Policy → List Line → Outcome Trace
run_policy os qd qr qp policy_fifo input = fifo os qd input >>= λ s. ok s.trace
run_policy os qd qr qp policy_sjf input = sjf os qd input >>= λ s. ok s.trace
run_policy os qd qr qp policy_psjf input = psjf os qr input >>= λ m. ok m.trace
run_policy os qd qr qp policy_rr input = rr os qp input >>= λ s. ok s.trace

-- `main`, with the first word of the input and the lines behind the number of jobs. A number that is
-- no case of the `switch` runs nothing.
unfoldable pub main :
    Os → Qsort Data → Qsort RawInput → Qsort PStruct → String → List Line → Outcome Trace
unfolding find_index policy_at run_policy
main os qd qr qp desired input = elim (find_index desired 0 policies) [
  | none ↦ exit 0 []
  | some index ↦ elim (policy_at index) [
    | none ↦ ok []
    | some policy ↦ run_policy os qd qr qp policy input
  ]
]
