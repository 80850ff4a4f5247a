-- ===== src/Slave/Limit.antt =====
-- The address limit of the thread that uses the slave device.
use os2016spring.Base.{ℕ, ◌≡◌, refl, ◌∙◌, ◌⊎◌, inl, inr, List, [], ◌∷◌, Bool-cases, Option-cases}
use os2016spring.Kernel.{Bytes, page_size, kernel_ds, Call, Received, received, recv_error, Kernel}
use os2016spring.Slave.Device.{
  Device, MmapInfo, Ioctl, create_sock, mmap_receive, exit_sock, other, enter, connect, slave_ioctl,
  receive_msg,
}

-- The requests of a program, one after the other.
pub data Request : Type 0 where
  ioctl : Ioctl → Request
  read : Request

abbrev pub serve : Kernel → List Request → MmapInfo → Device → Device
serve k [] info d = d
serve k (ioctl c ∷ rest) info d =
    let (info', d', _) = slave_ioctl k c info d in serve k rest info' d'
serve k (read ∷ rest) info d = serve k rest info (receive_msg k d).0

Received-cases :
    (r : Received) → ((b : Bytes) × (r ≡ received b)) ⊎ ((code : ℕ) × (r ≡ recv_error code))
Received-cases (received b) = inl (b, refl)
Received-cases (recv_error code) = inr (code, refl)

connect-fs : (k : Kernel) (d : Device) → (connect k d).0.fs ≡ d.fs
unfolding connect
connect-fs k d = elim (Option-cases (k.ksocket d.history)) [
  | inl e ↦ rw (e, connect) refl
  | inr (s, e) ↦
      let connected = k.kconnect (Call.ksocket ∷ d.history) in
      elim (Bool-cases connected) [
        | inl c ↦ rw (e, connect, c) refl
        | inr c ↦ rw (e, connect, c) refl
      ]
]

create_sock-fs :
    (k : Kernel) (info : MmapInfo) (d : Device)
    → (slave_ioctl k create_sock info d).1.fs ≡ kernel_ds
unfolding slave_ioctl
create_sock-fs k info d = elim (Bool-cases (k.copy_from_user d.history)) [
  | inl c ↦ rw c (connect-fs k (record (enter d) { history = Call.copy_from_user ∷ d.history }))
  | inr c ↦ rw c refl
]

slave_ioctl-fs :
    (k : Kernel) (c : Ioctl) (info : MmapInfo) (d : Device)
    → d.fs ≡ kernel_ds
    → (slave_ioctl k c info d).1.fs ≡ kernel_ds
unfolding slave_ioctl
slave_ioctl-fs k create_sock info d e = create_sock-fs k info d
slave_ioctl-fs k mmap_receive info d e = elim (Received-cases (k.krecv d.history page_size)) [
  | inl (b, r) ↦ rw (r, slave_ioctl) refl
  | inr (code, r) ↦ rw (r, slave_ioctl) refl
]
slave_ioctl-fs k exit_sock info d e = elim (Bool-cases (k.kclose d.history)) [
  | inl c ↦ rw c e
  | inr c ↦ rw c refl
]
slave_ioctl-fs k other info d e = refl

receive_msg-fs : (k : Kernel) (d : Device) → (receive_msg k d).0.fs ≡ d.fs
unfolding receive_msg
receive_msg-fs k d =
    let copied = k.copy_to_user (Call.krecv d.sockfd_cli page_size ∷ d.history) in
    elim (Bool-cases copied) [
      | inr c ↦ rw c refl
      | inl c ↦ elim (Received-cases (k.krecv d.history page_size)) [
        | inl (b, r) ↦ rw (c, r, receive_msg) refl
        | inr (code, r) ↦ rw (c, r, receive_msg) refl
      ]
    ]

serve-fs :
    (k : Kernel) (rest : List Request) (info : MmapInfo) (d : Device)
    → d.fs ≡ kernel_ds
    → (serve k rest info d).fs ≡ kernel_ds
serve-fs k [] info d e = e
serve-fs k (ioctl c ∷ rest) info d e = serve-fs k rest _ _ (slave_ioctl-fs k c info d e)
serve-fs k (read ∷ rest) info d e = serve-fs k rest info _ (receive_msg-fs k d ∙ e)

-- A program that has asked for the connection runs with the kernel's address limit from then on,
-- whatever it asks the device for, the closing of the connection included, and whatever the kernel
-- answers.
pub serve-kernel_ds :
    (k : Kernel) (rest : List Request) (info : MmapInfo) (d : Device)
    → (serve k (ioctl create_sock ∷ rest) info d).fs ≡ kernel_ds
serve-kernel_ds k rest info d = serve-fs k rest _ _ (create_sock-fs k info d)
