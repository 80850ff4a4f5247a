-- ===== src/Batch/Waiting.antt =====
-- `waitLoop` brings the clock to the next arrival where no forked job is left, and changes nothing
-- but the clock and the trace.
use os2016spring.Base.{ℕ, zero, suc, ◌+◌, ◌-◌, ◌≡◌, refl, List, [], ◌∷◌, All, arith}
use os2016spring.Os.{Event, Trace, elapsed, completions}
use os2016spring.Task.{Task}
use os2016spring.Served.Writing.{Quiet-tick}
use os2016spring.Served.Accounts.{Accounts, Accounts-Quiet}
use os2016spring.Batch.{Data, State, wait_rounds, wait_for, wait_loop}
use os2016spring.Batch.Invariant.{IsValid, NotBefore, tasks}
use os2016spring.Qsort.{All-ge}

-- The time to which `waitLoop` takes the clock.
abbrev pub target : (forked unforked : List Data) → ℕ → ℕ
target [] (d ∷ _) c = d.ready_time
target [] [] c = c
target (_ ∷ _) _ c = c

pub record Waited (s s' : State) : Type 0 where
  pub finished : s'.finished ≡ s.finished
  pub forked : s'.forked ≡ s.forked
  pub unforked : s'.unforked ≡ s.unforked
  pub completed : completions s'.trace ≡ completions s.trace
  pub clock : s'.clock ≡ target s.forked s.unforked s.clock
  pub valid : IsValid s'

ticks : ℕ → Trace → Trace
ticks zero t = t
ticks (suc k) t = ticks k (Event.tick ∷ t)

elapsed-ticks : (k : ℕ) (t : Trace) → elapsed (ticks k t) ≡ elapsed t + k
unfolding ticks
elapsed-ticks zero t = omega arith
elapsed-ticks (suc k) t = omega (arith, elapsed-ticks k (Event.tick ∷ t))

completions-ticks : (k : ℕ) (t : Trace) → completions (ticks k t) ≡ completions t
unfolding ticks
completions-ticks zero t = refl
completions-ticks (suc k) t = completions-ticks k (Event.tick ∷ t)

ticks-Accounts :
    (k : ℕ) (t : Trace) (queue waiting : List Task)
    → Accounts t queue waiting
    → Accounts (ticks k t) queue waiting
unfolding ticks
ticks-Accounts zero t queue waiting a = a
ticks-Accounts (suc k) t queue waiting a =
    ticks-Accounts k (Event.tick ∷ t) queue waiting (Accounts-Quiet queue waiting (Quiet-tick t) a)

wait_rounds-ticks :
    (k : ℕ) (s : State)
    → wait_rounds k s ≡ record s { clock = s.clock + k; trace = ticks k s.trace }
unfolding wait_rounds ticks
wait_rounds-ticks zero s = ground arith
wait_rounds-ticks (suc k) s =
    ground
      (arith, wait_rounds-ticks k (record s { clock = s.clock + 1; trace = Event.tick ∷ s.trace }))

wait_rounds-Waited :
    (s : State) (d : Data) (ds : List Data)
    → s.forked ≡ []
    → s.unforked ≡ d ∷ ds
    → IsValid s
    → Waited s (wait_rounds (d.ready_time - s.clock) s)
wait_rounds-Waited s d ds f u v =
    let k = d.ready_time - s.clock in
    let (le, _) : All (NotBefore s.clock) (d ∷ ds) = rw u at v.pending in
    let order = rw u at v.sorted in
    rw (wait_rounds-ticks k s) (record {
      finished = refl;
      forked = refl;
      unforked = refl;
      completed = completions-ticks k s.trace;
      clock = rw (f, u) (omega arith);
      valid = record {
        counted = omega (arith, elapsed-ticks k s.trace, v.counted);
        arrived = rw f tt;
        pending =
            rw u (omega arith, All-ge (λ (e : Data). e.ready_time) d ds (omega arith) order.0);
        sorted = v.sorted;
        accounts = ticks-Accounts k s.trace (tasks s.forked) (tasks s.unforked) v.accounts;
      };
    })

stays-Waited : (s : State) → s.clock ≡ target s.forked s.unforked s.clock → IsValid s → Waited s s
stays-Waited s c v = record {
  finished = refl;
  forked = refl;
  unforked = refl;
  completed = refl;
  clock = c;
  valid = v;
}

wait_for-Waited :
    (f u : List Data) (s : State)
    → s.forked ≡ f
    → s.unforked ≡ u
    → IsValid s
    → Waited s (wait_for f u s)
unfolding wait_for
wait_for-Waited [] (d ∷ ds) s ef eu v = wait_rounds-Waited s d ds ef eu v
wait_for-Waited [] [] s ef eu v = stays-Waited s (rw (ef, eu)) v
wait_for-Waited (e ∷ f) u s ef eu v = stays-Waited s (rw ef) v

pub wait_loop-Waited : (s : State) → IsValid s → Waited s (wait_loop s)
unfolding wait_loop
wait_loop-Waited s v = wait_for-Waited s.forked s.unforked s refl refl v
