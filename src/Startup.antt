-- ===== src/Startup.antt =====
-- src/receiver/main.cpp: what the process does before its loop.
pub mod Order
use receiver.Prelude.{ℕ, Bool, true, false, if◌then◌else◌, not, none, List, [], ◌∷◌, inl, inr, u32}
use receiver.Args.{ReceiverArgs, parse_receiver_args}
use receiver.Envelope.{EnvelopeClass, build_receiver_hello}
use receiver.Uds
use receiver.Udp
use receiver.Shm.Attach.{ShmManager, World, Attempt, open_or_create_shm, detached}

-- What the system answers on the way (the results of set_nonblocking are not used), and the generated protobuf code.
pub record Startup : Type 0 where
  pub udp : Udp.Sockets
  pub uds : Uds.Sockets
  pub attempts : ℕ → Attempt
  pub envelopes : EnvelopeClass
  pub getpid : ℕ

-- Where the process gave up, each with exit status 1, or what it enters the loop with.
pub data Started : Type 0 where
  bad_arguments no_udp_socket no_uds_connection hello_not_sent no_segment : World → Started
  ready :
      (args : ReceiverArgs) (udp : Udp.UdpReceiver) (uds : Uds.UdsChannel) (shm : ShmManager)
      → World
      → Started

-- `"0.0.0.0"`, the default argument of `bind`.
abbrev pub any_address : List ℕ
any_address = 48 ∷ 46 ∷ 48 ∷ 46 ∷ 48 ∷ 46 ∷ 48 ∷ []

unfoldable pub attach_segment :
    Startup → ReceiverArgs → Udp.UdpReceiver → Uds.UdsChannel → World → Started
attach_segment sys args udp uds w =
    let (done, shm, w') = open_or_create_shm sys.attempts detached w in
    if not done then no_segment w' else ready args udp uds shm w'

unfoldable pub say_hello :
    Startup → ReceiverArgs → Udp.UdpReceiver → Uds.UdsChannel → World → Started
say_hello sys args udp uds w =
    if not (
      Uds.send sys.uds uds
        (build_receiver_hello sys.envelopes args.receiver_id (u32 sys.getpid) args.listen_port))
    then hello_not_sent w
    else attach_segment sys args udp uds w

unfoldable pub connect_manager : Startup → ReceiverArgs → Udp.UdpReceiver → World → Started
connect_manager sys args udp w =
    let (done, uds, fds) =
      Uds.connect sys.uds (record { fd = none }, w.descriptors) args.socket_path in
    let w' = record w { descriptors = fds } in
    if not done then no_uds_connection w' else say_hello sys args udp uds w'

unfoldable pub start_with : Startup → ReceiverArgs → World → Started
start_with sys args w =
    let (done, udp, fds) =
      Udp.bind sys.udp (Udp.closed, w.descriptors) args.listen_port any_address in
    let w' = record w { descriptors = fds } in
    if not done then no_udp_socket w' else connect_manager sys args udp w'

unfoldable pub start : Startup → List (List ℕ) → World → Started
start sys argv w = elim (parse_receiver_args argv) [
  | inl error ↦ bad_arguments w
  | inr args ↦ start_with sys args w
]
