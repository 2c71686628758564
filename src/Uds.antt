-- ===== src/Uds.antt =====
-- src/receiver/uds_channel.cpp: the socket to the manager. The system's answers are parameters.
pub mod Held
use receiver.Prelude.{
  ℕ, ◌+◌, Bool, true, false, if◌then◌else◌, ◌==◌, leb, not, List, [], ◌∷◌, Option, some, none,
  length, remove_first,
}

abbrev pub uds_recv_buffer_bytes : ℕ
uds_recv_buffer_bytes = 65536

-- `sizeof(addr.sun_path)`
abbrev pub sizeof_sun_path : ℕ
sizeof_sun_path = 108

pub record UdsChannel : Type 0 where
  pub fd : Option ℕ

-- `recv`: an error, with whether errno is EAGAIN or EWOULDBLOCK, or the bytes of a message, none of
-- them when the peer has closed.
pub data Recv : Type 0 where
  failed : (again : Bool) → Recv
  received : (bytes : List ℕ) → Recv

-- What the calls answer; `send` gives the bytes written, none on an error, and `recv` is given the size
-- of the buffer.
pub record Sockets : Type 0 where
  pub socket_fd : Option ℕ
  pub connect_ok : List ℕ → Bool
  pub send_written : List ℕ → Option ℕ
  pub recv : ℕ → Recv
  pub f_getfl : Option ℕ
  pub f_setfl : ℕ → Bool
  pub with_nonblock : Bool → ℕ → ℕ

-- A channel and the open descriptors of the process.
abbrev pub Channel : Type 0
Channel = UdsChannel × List ℕ

unfoldable pub close : Channel → Channel
close (u, fds) = elim u.fd [
  | none ↦ (u, fds)
  | some fd ↦ (record { fd = none }, remove_first fd fds)
]

unfoldable pub connect : Sockets → Channel → List ℕ → Bool × UdsChannel × List ℕ
connect sys u socket_path =
    let (_, fds) = close u in
    elim sys.socket_fd [
      | none ↦ (false, record { fd = none }, fds)
      | some fd ↦
          if leb sizeof_sun_path (length socket_path)
          then (false, record { fd = none }, remove_first fd (fd ∷ fds))
          else if not (sys.connect_ok socket_path)
          then (false, record { fd = none }, remove_first fd (fd ∷ fds))
          else (true, record { fd = some fd }, fd ∷ fds)
    ]

-- What `send` makes of the count that was written.
unfoldable pub was_sent : List ℕ → Option ℕ → Bool
was_sent message none = false
was_sent message (some written) = if written == length message then true else false

unfoldable pub send : Sockets → UdsChannel → List ℕ → Bool
unfolding was_sent
send sys u message = elim u.fd [
  | none ↦ false
  | some fd ↦ was_sent message (sys.send_written message)
]

unfoldable pub message_of : Recv → Option (List ℕ)
message_of (failed again) = none
message_of (received []) = none
message_of (received (b ∷ bytes)) = some (b ∷ bytes)

unfoldable pub receive : Sockets → UdsChannel → Option (List ℕ)
unfolding message_of
receive sys u = elim u.fd [ none ↦ none | some fd ↦ message_of (sys.recv uds_recv_buffer_bytes) ]

unfoldable pub set_nonblocking : Sockets → UdsChannel → Bool → Bool
set_nonblocking sys u enable = elim u.fd [
  | none ↦ false
  | some fd ↦ elim sys.f_getfl [
    | none ↦ false
    | some flags ↦ sys.f_setfl (sys.with_nonblock enable flags)
  ]
]
