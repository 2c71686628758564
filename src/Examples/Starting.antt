-- ===== src/Examples/Starting.antt =====
-- A process that starts alone, and enters its loop.
use receiver.Prelude.{ℕ, ◌≡◌, ◌⊎◌, inl, inr, List, [], ◌∷◌}
use receiver.Args.{ReceiverArgs, ArgsError, parse_receiver_args, receiver_id_flag, listen_port_flag}
use receiver.Startup.{Startup, Started, start}
use receiver.Startup.Order.{Outcome, start-Outcome}
use receiver.Examples.Control.{proto}
use receiver.Examples.Sockets.{uds_sockets, udp_sockets}
use receiver.Examples.Attaching.{alone, world}

abbrev startup : Startup
startup = record {
  udp = udp_sockets;
  uds = uds_sockets;
  attempts = alone;
  envelopes = proto;
  getpid = 42;
}

-- `--receiver-id 7 --listen-port 9100`
abbrev argv : List (List ℕ)
argv = receiver_id_flag ∷ (55 ∷ []) ∷ listen_port_flag ∷ (57 ∷ 49 ∷ 48 ∷ 48 ∷ []) ∷ []

start-Outcome_example :
    ((error : ArgsError) × (parse_receiver_args argv ≡ inl error)
      × (start startup argv world ≡ Started.bad_arguments world))
    ⊎ ((args : ReceiverArgs) × (parse_receiver_args argv ≡ inr args)
        × Outcome startup world args (start startup argv world))
start-Outcome_example = start-Outcome startup argv world
