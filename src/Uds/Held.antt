-- ===== src/Uds/Held.antt =====
-- uds_channel.cpp: what connecting holds, and what is sent and received.
use receiver.Prelude.{
  ℕ, ◌<◌, ◌≡◌, ◌≢◌, ◌⊎◌, inl, inr, true, false, refl, ap, sym, ◌∙◌, arith, List, [], ◌∷◌, Option,
  some, none, length, leb, Bool-cases, Option-cases, remove_first-head,
}
use mathlib.Core.Option.{some-injective, some-ne-none}
use mathlib.Core.Bool.{false≢true}
use receiver.Uds.{
  UdsChannel, Recv, Sockets, Channel, close, connect, was_sent, send, message_of, receive,
  sizeof_sun_path, uds_recv_buffer_bytes,
}

-- The process has the channel's descriptor, if it is open, beside `rest`.
abbrev pub IsHeld : List ℕ → Channel → Type 0
IsHeld rest (u, fds) =
    ((u.fd ≡ none) × (fds ≡ rest)) ⊎ ((fd : ℕ) × (u.fd ≡ some fd) × (fds ≡ fd ∷ rest))

module _ (rest : List ℕ) where
  close-IsHeld : (c : Channel) → IsHeld rest c → (close c).1 ≡ rest
  unfolding close
  close-IsHeld (u, fds) (inl (shut, same)) = rw (shut, close) same
  close-IsHeld (u, fds) (inr (fd, has, held)) = rw (has, close, held) (remove_first-head fd rest)

  -- If the process holds the channel's descriptor, if it has one, beside others, then connect
  -- either succeeds holding exactly the new socket beside the others, on a path of fewer than 108
  -- bytes that the system connected, or fails closed, with only the others held.
  pub connect-IsHeld :
      (sys : Sockets) (c : Channel) (socket_path : List ℕ)
      → IsHeld rest c
      → let (done, u, fds) = connect sys c socket_path in
        ((done ≡ true)
          × (length socket_path < sizeof_sun_path)
          × (sys.connect_ok socket_path ≡ true)
          × ((fd : ℕ) × (sys.socket_fd ≡ some fd) × (u.fd ≡ some fd) × (fds ≡ fd ∷ rest)))
        ⊎ ((done ≡ false) × (u.fd ≡ none) × (fds ≡ rest))
  unfolding connect
  connect-IsHeld sys c socket_path held = elim (Option-cases sys.socket_fd) [
    | inl refused ↦ rw (refused, connect) (inr (refl, refl, close-IsHeld c held))
    | inr (fd, granted) ↦
        rw (granted, connect)
          (elim (Bool-cases (leb sizeof_sun_path (length socket_path))) [
            | inl long ↦
                rw long (inr (refl, refl, remove_first-head fd (close c).1 ∙ close-IsHeld c held))
            | inr short ↦ rw short (elim (Bool-cases (sys.connect_ok socket_path)) [
              | inr refused ↦
                  rw refused
                    (inr (refl, refl, remove_first-head fd (close c).1 ∙ close-IsHeld c held))
              | inl connected ↦ rw connected (
                  inl (
                    refl,
                    ground arith,
                    refl,
                    (fd, refl, refl, ap (λ (x : List ℕ). fd ∷ x) (close-IsHeld c held)),
                  ))
            ])
          ])
  ]

was_sent-true :
    (message : List ℕ) (written : Option ℕ)
    → was_sent message written ≡ true
    → written ≡ some (length message)
unfolding was_sent
was_sent-true message none h = absurd (false≢true h)
was_sent-true message (some n) h = ground arith

-- A message is reported as sent only if the channel is open and the system took all of it.
pub send-whole :
    (sys : Sockets) (u : UdsChannel) (message : List ℕ)
    → send sys u message ≡ true
    → (u.fd ≢ none) × (sys.send_written message ≡ some (length message))
unfolding send
send-whole sys u message h = elim (Option-cases u.fd) [
  | inl shut ↦ absurd (false≢true (rw (shut, send) at h))
  | inr (fd, has) ↦ (
    (λ shut. some-ne-none fd (sym has ∙ shut)),
    was_sent-true message (sys.send_written message) (rw (has, send) at h),
  )
]

message_of-some :
    (r : Recv) (raw : List ℕ) → message_of r ≡ some raw → (r ≡ Recv.received raw) × (0 < length raw)
unfolding message_of
message_of-some (Recv.failed again) raw h = absurd (some-ne-none raw (sym h))
message_of-some (Recv.received []) raw h = absurd (some-ne-none raw (sym h))
message_of-some (Recv.received (b ∷ bytes)) raw h =
    let e : (b ∷ bytes) ≡ raw = some-injective _ raw h in
    (ap Recv.received e, rw (← e) (omega arith))

pub receive-message :
    (sys : Sockets) (u : UdsChannel) (raw : List ℕ)
    → receive sys u ≡ some raw
    → (u.fd ≢ none) × (sys.recv uds_recv_buffer_bytes ≡ Recv.received raw) × (0 < length raw)
unfolding receive
receive-message sys u raw h = elim (Option-cases u.fd) [
  | inl shut ↦ absurd (some-ne-none raw (sym (rw (shut, receive) at h)))
  | inr (fd, has) ↦
      let (got, some_bytes) =
        message_of-some (sys.recv uds_recv_buffer_bytes) raw (rw (has, receive) at h) in
      ((λ shut. some-ne-none fd (sym has ∙ shut)), got, some_bytes)
]
