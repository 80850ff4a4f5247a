-- ===== src/Main/Dispatch.antt =====
-- Which scheduler runs for which name.
use Prim.Native.String.{String}
use text.Mathlib.Text.{◌==◌}
use text.Mathlib.TextEquality.{eq_iff}
use os2016spring.Base.{◌≡◌, ◌≢◌, refl, false, none, List, [], arith}
use os2016spring.Os.{Os, exit}
use os2016spring.Qsort.{Qsort}
use os2016spring.Batch.{Data, Line}
use os2016spring.Psjf.{RawInput}
use os2016spring.ReadyList.{PStruct}
use os2016spring.Main.{
  Policy, policy_fifo, policy_sjf, policy_psjf, policy_rr, policies, find_index, run_policy, main,
}

-- The name of a policy.
abbrev pub name_of : Policy → String
name_of policy_fifo = "FIFO"
name_of policy_sjf = "SJF"
name_of policy_psjf = "PSJF"
name_of policy_rr = "RR"

unequal : (a b : String) → b ≢ a → (a == b) ≡ false
unequal a b apart = ground (arith, eq_iff a b)

not-found : (word : String) → ((p : Policy) → word ≢ name_of p) → find_index word 0 policies ≡ none
unfolding find_index
not-found word unknown = rw (
  unequal "FIFO" word (unknown policy_fifo),
  unequal "SJF" word (unknown policy_sjf),
  unequal "PSJF" word (unknown policy_psjf),
  unequal "RR" word (unknown policy_rr),
)

module _ (os : Os) (qd : Qsort Data) (qr : Qsort RawInput) (qp : Qsort PStruct)
    (input : List Line) where
  -- The name of each policy runs its scheduler.
  pub main-name_of :
      (p : Policy) → main os qd qr qp (name_of p) input ≡ run_policy os qd qr qp p input
  unfolding main
  main-name_of policy_fifo = refl
  main-name_of policy_sjf = refl
  main-name_of policy_psjf = refl
  main-name_of policy_rr = refl

  -- A word that is the name of no policy runs none: the program exits with 0 at once.
  pub main-unknown :
      (word : String) → ((p : Policy) → word ≢ name_of p) → main os qd qr qp word input ≡ exit 0 []
  unfolding main
  main-unknown word unknown = rw (not-found word unknown, main)
