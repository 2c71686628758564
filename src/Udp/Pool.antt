-- ===== src/Udp/Pool.antt =====
-- udp_receiver.cpp: what binding holds, and that a batch lies in the pool, each datagram in its own slot.
use receiver.Prelude.{
  ℕ, zero, suc, ◌*◌, ◌<◌, ◌≤◌, ◌≡◌, ◌⊎◌, inl, inr, true, false, refl, ap, ◌∙◌, arith, List, ◌∷◌,
  some, none, length, get_or, Option-cases, remove_first-head, ==_refl, ne→not_==, ℕ_discrete,
}
use receiver.Shm.Memory.{Bytes}
use receiver.Udp.{
  max_datagram_size, recv_batch_size, Mmsghdr, UdpReceiver, ReceivedDatagram, Recvmmsg, Sockets,
  Socket, close, wire_up, bound, bind, bound_port,
}

-- The process has the socket's descriptor, if it is bound, beside `rest`.
abbrev pub IsHeld : List ℕ → Socket → Type 0
IsHeld rest (u, fds) =
    ((u.fd ≡ none) × (fds ≡ rest)) ⊎ ((fd : ℕ) × (u.fd ≡ some fd) × (fds ≡ fd ∷ rest))

-- Each slot has its own 2048 bytes.
abbrev pub IsPool : UdpReceiver → Type 0
IsPool u =
    (i : ℕ)
    → i < recv_batch_size
    → ((u.iovecs i).iov_base ≡ i * max_datagram_size) × ((u.iovecs i).iov_len ≡ max_datagram_size)

wire_up-slots :
    (n : ℕ) (u : UdpReceiver) (i : ℕ)
    → i < n
    → (((wire_up n u).iovecs i).iov_base ≡ i * max_datagram_size)
      × (((wire_up n u).iovecs i).iov_len ≡ max_datagram_size)
unfolding wire_up
wire_up-slots zero u i h = absurd (omega arith)
wire_up-slots (suc n) u i h = elim (ℕ_discrete n i) [
  | yes own ↦ rw (own, ==_refl i) (refl, refl)
  | no other ↦ rw (ne→not_== n i other) (wire_up-slots n u i (omega arith))
]

wire_up-fd : (n : ℕ) (u : UdpReceiver) → ((wire_up n u).fd ≡ u.fd)
unfolding wire_up
wire_up-fd zero u = refl
wire_up-fd (suc n) u = wire_up-fd n u

pub bound-IsPool : (fd port : ℕ) → IsPool (bound fd port)
bound-IsPool fd port i lt = wire_up-slots recv_batch_size _ i lt

close-IsHeld : (rest : List ℕ) (c : Socket) → IsHeld rest c → (close c).1 ≡ rest
unfolding close
close-IsHeld rest (u, fds) (inl (shut, same)) = rw (shut, close) same
close-IsHeld rest (u, fds) (inr (fd, has, held)) = rw (has, close, held) (remove_first-head fd rest)

module _ (rest : List ℕ) (sys : Sockets) (c : Socket) (port : ℕ) (bind_addr : List ℕ) where
  -- If the process holds the receiver's descriptor, if it has one, beside others, then bind either
  -- succeeds holding exactly the new socket beside the others, with each slot of the pool on its
  -- own 2048 bytes, or fails closed, with only the others held.
  pub bind-IsHeld :
      IsHeld rest c
      → let (done, u, fds) = bind sys c port bind_addr in
        ((done ≡ true)
          × ((fd : ℕ) × (sys.socket_fd ≡ some fd) × (u.fd ≡ some fd) × (fds ≡ fd ∷ rest))
          × IsPool u)
        ⊎ ((done ≡ false) × (u.fd ≡ none) × (fds ≡ rest))
  unfolding bind
  bind-IsHeld held = elim (Option-cases sys.socket_fd) [
    | inl refused ↦ rw (refused, bind) (inr (refl, refl, close-IsHeld rest c held))
    | inr (fd, granted) ↦ elim (Option-cases (bound_port sys port bind_addr)) [
      | inl failed ↦
          rw (granted, bind, failed)
            (inr (refl, refl, remove_first-head fd (close c).1 ∙ close-IsHeld rest c held))
      | inr (local, done) ↦
          rw (granted, bind, done)
            (inl (
              refl,
              (
                fd,
                refl,
                wire_up-fd recv_batch_size _,
                ap (λ (x : List ℕ). fd ∷ x) (close-IsHeld rest c held),
              ),
              bound-IsPool fd local,
            ))
    ]
  ]

-- What recvmmsg documents: at most `vlen` messages, each written within its iovec.
abbrev pub IsRecvmmsg : Sockets → Type 0
IsRecvmmsg sys =
    (u : UdpReceiver) (vlen n : ℕ) (buffers : Bytes) (msgs : ℕ → Mmsghdr) (src_addrs : ℕ → ℕ)
    → sys.recvmmsg u vlen ≡ Recvmmsg.received n buffers msgs src_addrs
    → (n ≤ vlen) × ((i : ℕ) → i < n → (msgs i).msg_len ≤ (u.iovecs i).iov_len)

abbrev pub no_datagram : ReceivedDatagram
no_datagram = record { at = 0; len = 0; src_addr = 0 }

-- The datagrams of a batch lie one after the other in the slots of the pool.
abbrev pub IsInPool : List ReceivedDatagram → Type 0
IsInPool ds =
    (length ds ≤ recv_batch_size)
    × ((i : ℕ)
        → i < length ds
        → ((get_or ds i no_datagram).at ≡ i * max_datagram_size)
          × ((get_or ds i no_datagram).len ≤ max_datagram_size))
