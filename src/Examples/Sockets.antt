-- ===== src/Examples/Sockets.antt =====
-- Sockets that are bound and connected, and a batch of two datagrams.
use receiver.Prelude.{
  ℕ, ◌<◌, ◌≡◌, ◌⊎◌, inl, inr, Bool, true, false, [], ◌∷◌, some, none, refl, length, zero, suc,
  if◌then◌else◌, ltb, ◌*◌,
}
use receiver.Uds
use receiver.Uds.Held
use receiver.Udp
use receiver.Udp.Pool

abbrev pub uds_sockets : Uds.Sockets
uds_sockets = record {
  socket_fd = some 4;
  connect_ok = λ path. true;
  send_written = λ message. some (length message);
  recv = λ size. Uds.Recv.received (1 ∷ []);
  f_getfl = some 2;
  f_setfl = λ flags. true;
  with_nonblock = λ enable flags. flags;
}

-- The channel was open before.
abbrev old_channel : Uds.Channel
old_channel = (record { fd = some 5 }, 5 ∷ 0 ∷ [])

connect-IsHeld_example :
    let (done, u, fds) = Uds.connect uds_sockets old_channel (47 ∷ 115 ∷ []) in
    ((done ≡ true)
      × (2 < Uds.sizeof_sun_path)
      × ◌≡◌ {A = Bool} true true
      × ((fd : ℕ) × (some 4 ≡ some fd) × (u.fd ≡ some fd) × (fds ≡ fd ∷ 0 ∷ [])))
    ⊎ ((done ≡ false) × (u.fd ≡ none) × (fds ≡ 0 ∷ []))
connect-IsHeld_example =
    Uds.Held.connect-IsHeld (0 ∷ []) uds_sockets old_channel (47 ∷ 115 ∷ []) (inr (5, refl, refl))

-- Two datagrams of three bytes.
abbrev two_messages : ℕ → Udp.Mmsghdr
two_messages i = record { msg_iov = i; msg_iovlen = 1; msg_name = i; msg_namelen = 16; msg_len = 3 }

-- What the kernel writes is cut to the slot.
abbrev cut_messages : Udp.UdpReceiver → ℕ → Udp.Mmsghdr
cut_messages u i = record (two_messages i) {
  msg_len = if ltb (u.iovecs i).iov_len 3 then (u.iovecs i).iov_len else 3;
}

pub recvmmsg : Udp.UdpReceiver → ℕ → Udp.Recvmmsg
recvmmsg u zero = Udp.Recvmmsg.failed true
recvmmsg u (suc zero) = Udp.Recvmmsg.failed true
recvmmsg u (suc (suc vlen)) = Udp.Recvmmsg.received 2 (λ _. 7) (cut_messages u) (λ _. 0)

abbrev pub udp_sockets : Udp.Sockets
udp_sockets = record {
  socket_fd = some 3;
  reuseaddr_ok = true;
  rcvbuf_ok = false;
  inet_pton = λ addr. some 0;
  bind_ok = λ addr port. true;
  getsockname_port = some 9001;
  recvmmsg = recvmmsg;
  f_getfl = some 2;
  f_setfl = λ flags. true;
  with_nonblock = λ enable flags. flags;
}

bind-IsHeld_example :
    let (done, u, fds) = Udp.bind udp_sockets (Udp.closed, 0 ∷ []) 9001 (48 ∷ []) in
    ((done ≡ true)
      × ((fd : ℕ) × (some 3 ≡ some fd) × (u.fd ≡ some fd) × (fds ≡ fd ∷ 0 ∷ []))
      × Udp.Pool.IsPool u)
    ⊎ ((done ≡ false) × (u.fd ≡ none) × (fds ≡ 0 ∷ []))
bind-IsHeld_example =
    Udp.Pool.bind-IsHeld (0 ∷ []) udp_sockets (Udp.closed, 0 ∷ []) 9001 (48 ∷ []) (inl (refl, refl))

abbrev at_slot : ℕ → Udp.ReceivedDatagram
at_slot i = record { at = i * 2048; len = 3; src_addr = 0 }
