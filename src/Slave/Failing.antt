-- ===== src/Slave/Failing.antt =====
-- The slave program on a connection that has failed.
use os2016spring.Base.{ℕ, zero, suc, ◌≡◌, refl, true, inl, inr, ◌∷◌, Bool-cases}
use os2016spring.Kernel.{page_size, Call, History, recv_error, Kernel}
use os2016spring.Slave.Device.{receive_msg}
use os2016spring.Slave.Program.{State, out_of_fuel, by_fcntl, fcntl_round, fcntl_loop, transfer}

module _ (k : Kernel) (code : ℕ)
    (fails : (h : History) → k.krecv h page_size ≡ recv_error code) where
  -- A round that receives nothing goes on.
  fcntl_round-goes_on : (s : State) → (fcntl_round k s).1 ≡ true
  unfolding fcntl_round receive_msg
  fcntl_round-goes_on s =
      let d = s.device in
      elim (Bool-cases (k.copy_to_user (Call.krecv d.sockfd_cli page_size ∷ d.history))) [
        | inl e ↦ rw (e, fails d.history, fcntl_round, receive_msg) refl
        | inr e ↦ rw (e, fcntl_round, receive_msg) refl
      ]

  -- When every `krecv` fails, method `f` never leaves its loop: however many rounds it is given, it
  -- uses them up, since -1 in an unsigned variable counts as data.
  pub transfer_fcntl-loops : (fuel : ℕ) (s : State) → transfer k by_fcntl fuel s ≡ out_of_fuel
  unfolding transfer fcntl_loop
  transfer_fcntl-loops zero s = refl
  transfer_fcntl-loops (suc fuel) s =
      rw (fcntl_round-goes_on s) (transfer_fcntl-loops fuel (fcntl_round k s).0)
