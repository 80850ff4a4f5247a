-- ===== src/Fifo/Marking.antt =====
-- Recording the start of the job at `Index` changes neither its task nor the rest of the state.
use os2016spring.Base.{◌≡◌, refl, sym, subst, false, inl, inr, List, ◌∷◌, All, Bool-cases}
use os2016spring.Os.{Os, completions}
use os2016spring.Served.Writing.{Quiet-start_time}
use os2016spring.Served.Accounts.{Accounts, Accounts-Quiet}
use os2016spring.Batch.{Data, State}
use os2016spring.Batch.Invariant.{IsValid, ArrivedBy, task, tasks}
use os2016spring.Fifo.{mark_started, mark_started_of}

pub record Marked (s s' : State) (d : Data) (rest : List Data) : Type 0 where
  pub head : Data
  pub is_head : s'.forked ≡ head ∷ rest
  pub same : task head ≡ task d
  pub flag : head.flag ≡ false
  pub unforked : s'.unforked ≡ s.unforked
  pub clock : s'.clock ≡ s.clock
  pub completed : completions s'.trace ≡ completions s.trace
  pub valid : IsValid s'

mark_started_of-Marked :
    (os : Os) (s : State) (d : Data) (rest : List Data)
    → IsValid s
    → s.forked ≡ d ∷ rest
    → Marked s (mark_started_of os (d ∷ rest) s) d rest
unfolding mark_started_of
mark_started_of-Marked os s d rest v f = elim (Bool-cases d.flag) [
  | inr old ↦
      rw (old, mark_started_of)
        (record {
          head = d;
          is_head = f;
          same = refl;
          flag = old;
          unforked = refl;
          clock = refl;
          completed = refl;
          valid = v;
        })
  | inl new ↦
      let arrived : All (ArrivedBy s.clock) (d ∷ rest) = rw f at v.arrived in
      rw (new, mark_started_of)
        (record {
          head = record d { started_at = os.gettime s.trace; flag = false };
          is_head = refl;
          same = refl;
          flag = refl;
          unforked = refl;
          clock = refl;
          completed = refl;
          valid = record {
            counted = v.counted;
            arrived = arrived;
            pending = v.pending;
            sorted = v.sorted;
            accounts =
                Accounts-Quiet (tasks (d ∷ rest)) (tasks s.unforked)
                  (Quiet-start_time d.pipe s.trace)
                  (subst (λ l. Accounts s.trace (tasks l) (tasks s.unforked)) f v.accounts);
          };
        })
]

pub mark_started-Marked :
    (os : Os) (s : State) (d : Data) (rest : List Data)
    → IsValid s
    → s.forked ≡ d ∷ rest
    → Marked s (mark_started os s) d rest
unfolding mark_started
mark_started-Marked os s d rest v f =
    subst (λ fs. Marked s (mark_started_of os fs s) d rest) (sym f)
      (mark_started_of-Marked os s d rest v f)
