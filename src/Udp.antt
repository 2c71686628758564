-- ===== src/Udp.antt =====
-- src/receiver/udp_receiver.cpp: the UDP socket and its pool of buffers. The system's answers are
-- parameters.
pub mod Pool
use receiver.Prelude.{
  ℕ, zero, suc, ◌+◌, ◌*◌, Bool, true, false, if◌then◌else◌, not, List, [], ◌∷◌, Option, some, none,
  remove_first,
}
use receiver.Shm.Memory.{Bytes, update, load}

abbrev pub max_datagram_size : ℕ
max_datagram_size = 2048

abbrev pub recv_batch_size : ℕ
recv_batch_size = 64

abbrev pub sizeof_sockaddr_in : ℕ
sizeof_sockaddr_in = 16

-- `iov_base` is the offset in `buffers_`.
pub record Iovec : Type 0 where
  pub iov_base : ℕ
  pub iov_len : ℕ

-- `msg_iov` and `msg_name` are the indices in `iovecs_` and `src_addrs_`.
pub record Mmsghdr : Type 0 where
  pub msg_iov : ℕ
  pub msg_iovlen : ℕ
  pub msg_name : ℕ
  pub msg_namelen : ℕ
  pub msg_len : ℕ

-- The vectors are functions of the index; `pool` is their number of slots.
pub record UdpReceiver : Type 0 where
  pub fd : Option ℕ
  pub local_port : ℕ
  pub pool : ℕ
  pub buffers : Bytes
  pub iovecs : ℕ → Iovec
  pub msgs : ℕ → Mmsghdr
  pub src_addrs : ℕ → ℕ

pub record ReceivedDatagram : Type 0 where
  pub at : ℕ
  pub len : ℕ
  pub src_addr : ℕ

-- `recvmmsg`: an error, with whether errno is EAGAIN or EWOULDBLOCK, or the number of messages and what
-- it has written.
pub data Recvmmsg : Type 0 where
  failed : (again : Bool) → Recvmmsg
  received : (n : ℕ) (buffers : Bytes) (msgs : ℕ → Mmsghdr) (src_addrs : ℕ → ℕ) → Recvmmsg

pub record Sockets : Type 0 where
  pub socket_fd : Option ℕ
  pub reuseaddr_ok : Bool
  pub rcvbuf_ok : Bool
  pub inet_pton : List ℕ → Option ℕ
  pub bind_ok : ℕ → ℕ → Bool
  pub getsockname_port : Option ℕ
  pub recvmmsg : UdpReceiver → ℕ → Recvmmsg
  pub f_getfl : Option ℕ
  pub f_setfl : ℕ → Bool
  pub with_nonblock : Bool → ℕ → ℕ

abbrev pub no_iovec : Iovec
no_iovec = record { iov_base = 0; iov_len = 0 }

abbrev pub no_msg : Mmsghdr
no_msg = record { msg_iov = 0; msg_iovlen = 0; msg_name = 0; msg_namelen = 0; msg_len = 0 }

-- A receiver as its constructor and `close` leave it.
abbrev pub closed : UdpReceiver
closed = record {
  fd = none;
  local_port = 0;
  pool = 0;
  buffers = λ _. 0;
  iovecs = λ _. no_iovec;
  msgs = λ _. no_msg;
  src_addrs = λ _. 0;
}

-- A receiver and the open descriptors of the process.
abbrev pub Socket : Type 0
Socket = UdpReceiver × List ℕ

unfoldable pub close : Socket → Socket
close (u, fds) = elim u.fd [ none ↦ (closed, fds) | some fd ↦ (closed, remove_first fd fds) ]

-- The loop of `bind` over the first `count` slots.
unfoldable pub wire_up : ℕ → UdpReceiver → UdpReceiver
wire_up zero u = u
wire_up (suc i) u =
    let rest = wire_up i u in
    record rest {
      iovecs =
          update rest.iovecs i
            (record { iov_base = i * max_datagram_size; iov_len = max_datagram_size });
      msgs = update rest.msgs i (record (rest.msgs i) {
        msg_iov = i;
        msg_iovlen = 1;
        msg_name = i;
        msg_namelen = sizeof_sockaddr_in;
      });
    }

-- The receiver that `bind` leaves when every call succeeded.
abbrev pub bound : ℕ → ℕ → UdpReceiver
bound fd port =
    wire_up recv_batch_size
      (record closed { fd = some fd; local_port = port; pool = recv_batch_size })

-- `bind` once the socket is made: the calls that may fail, in order. The result of SO_RCVBUF is not
-- used.
unfoldable pub bound_port : Sockets → ℕ → List ℕ → Option ℕ
bound_port sys port bind_addr =
    if not sys.reuseaddr_ok then none else elim (sys.inet_pton bind_addr) [
      | none ↦ none
      | some addr ↦ if not (sys.bind_ok addr port) then none else sys.getsockname_port
    ]

unfoldable pub bind : Sockets → Socket → ℕ → List ℕ → Bool × UdpReceiver × List ℕ
unfolding bound_port
bind sys u port bind_addr =
    let (_, fds) = close u in
    elim sys.socket_fd [
      | none ↦ (false, closed, fds)
      | some fd ↦ elim (bound_port sys port bind_addr) [
        | none ↦ (false, closed, remove_first fd (fd ∷ fds))
        | some local ↦ (true, bound fd local, fd ∷ fds)
      ]
    ]

-- The loop of `receive_batch` before the call.
unfoldable pub reset_names : ℕ → (ℕ → Mmsghdr) → ℕ → Mmsghdr
reset_names zero msgs = msgs
reset_names (suc i) msgs =
    let rest = reset_names i msgs in
    update rest i (record (rest i) { msg_namelen = sizeof_sockaddr_in })

-- The loop after the call, from message `i` on.
unfoldable pub hand_back : UdpReceiver → ℕ → ℕ → List ReceivedDatagram
hand_back u i zero = []
hand_back u i (suc count) =
    record { at = (u.iovecs i).iov_base; len = (u.msgs i).msg_len; src_addr = u.src_addrs i }
    ∷ hand_back u (i + 1) count

-- The return value, none for -1, as the datagrams handed back, and the receiver.
unfoldable pub receive_batch : Sockets → UdpReceiver → Option (List ReceivedDatagram) × UdpReceiver
unfolding reset_names hand_back
receive_batch sys u = elim u.fd [
  | none ↦ (none, u)
  | some fd ↦
      let u1 = record u { msgs = reset_names recv_batch_size u.msgs } in
      elim (sys.recvmmsg u1 recv_batch_size) [
        | failed again ↦ (if again then some [] else none, u1)
        | received n buffers msgs src_addrs ↦
            let u2 = record u1 { buffers = buffers; msgs = msgs; src_addrs = src_addrs } in
            (some (hand_back u2 0 n), u2)
      ]
]

-- The bytes of a datagram that was handed back.
unfoldable pub bytes_of : UdpReceiver → ReceivedDatagram → List ℕ
bytes_of u d = load u.buffers d.at d.len

unfoldable pub set_nonblocking : Sockets → UdpReceiver → Bool → Bool
set_nonblocking sys u enable = elim u.fd [
  | none ↦ false
  | some fd ↦ elim sys.f_getfl [
    | none ↦ false
    | some flags ↦ sys.f_setfl (sys.with_nonblock enable flags)
  ]
]
