-- ===== src/Examples/Control.antt =====
-- A command line, and messages of a protocol with its members spelled out.
use receiver.Prelude.{
  ℕ, ◌≡◌, inr, refl, arith, List, [], ◌∷◌, Option, some, none, if◌then◌else◌, ◌==◌, ap₂, length,
  take, drop, ◌++◌, take-append_left, drop-append_left,
}
use receiver.Args.{parse_receiver_args, receiver_id_flag, listen_port_flag, default_socket_path}
use receiver.Envelope.{
  RxMessage, EnvelopeClass, RxEnvelopeCase, build_receiver_hello, build_heartbeat,
  build_manifest_seen, build_receiver_stats, build_block_decoded, parse_incoming,
}
use receiver.Envelope.Cases.{parse_incoming-build}
use receiver.Args.Decimal.{decimal_within, parse_receiver_args-decimal}

parse_receiver_args-decimal_example :
    (parse_receiver_args
        (receiver_id_flag ∷ (55 ∷ []) ∷ listen_port_flag ∷ (57 ∷ 49 ∷ 48 ∷ 48 ∷ []) ∷ [])
      ≡ inr (record { receiver_id = 7; listen_port = 9100; socket_path = default_socket_path }))
    × (parse_receiver_args
          (listen_port_flag ∷ (57 ∷ 49 ∷ 48 ∷ 48 ∷ []) ∷ receiver_id_flag ∷ (55 ∷ []) ∷ [])
        ≡ inr (record { receiver_id = 7; listen_port = 9100; socket_path = default_socket_path }))
unfolding decimal_within
parse_receiver_args-decimal_example = parse_receiver_args-decimal 7 9100 (omega arith) (omega arith)

-- A tag, then the fields; the first of two lists after its length.
pub serialized : Option RxMessage → List ℕ
serialized none = []
serialized (some (RxMessage.session_open m)) = 1 ∷ m
serialized (some (RxMessage.purge_session m)) = 2 ∷ m
serialized (some (RxMessage.config m)) = 3 ∷ m
serialized (some (RxMessage.receiver_hello r p l h)) = 4 ∷ r ∷ p ∷ l ∷ h
serialized (some (RxMessage.heartbeat p t)) = 5 ∷ p ∷ t ∷ []
serialized (some (RxMessage.manifest_seen r m)) = 6 ∷ r ∷ m
serialized (some (RxMessage.receiver_stats s)) = 7 ∷ s
serialized (some (RxMessage.block_decoded s r b)) = 8 ∷ r ∷ length s ∷ s ++ b

hello_of : List ℕ → Option (Option RxMessage)
hello_of (r ∷ p ∷ l ∷ h) = some (some (RxMessage.receiver_hello r p l h))
hello_of _ = none

heartbeat_of : List ℕ → Option (Option RxMessage)
heartbeat_of (p ∷ t ∷ []) = some (some (RxMessage.heartbeat p t))
heartbeat_of _ = none

seen_of : List ℕ → Option (Option RxMessage)
seen_of (r ∷ m) = some (some (RxMessage.manifest_seen r m))
seen_of [] = none

decoded_of : List ℕ → Option (Option RxMessage)
decoded_of (r ∷ n ∷ rest) = some (some (RxMessage.block_decoded (take n rest) r (drop n rest)))
decoded_of _ = none

pub parsed : List ℕ → Option (Option RxMessage)
unfolding hello_of heartbeat_of seen_of decoded_of
parsed [] = some none
parsed (tag ∷ m) =
    if tag == 1
    then some (some (RxMessage.session_open m))
    else if tag == 2
    then some (some (RxMessage.purge_session m))
    else if tag == 3
    then some (some (RxMessage.config m))
    else if tag == 4
    then hello_of m
    else if tag == 5
    then heartbeat_of m
    else if tag == 6
    then seen_of m
    else if tag == 7
    then some (some (RxMessage.receiver_stats m))
    else decoded_of m

abbrev pub proto : EnvelopeClass
proto = record {
  serialize_to_string = serialized;
  parse_from_string = parsed;
  nexus_proto_hash = 1 ∷ 2 ∷ [];
}

parsed-serialized : (m : RxMessage) → parsed (serialized (some m)) ≡ some (some m)
unfolding parsed serialized
parsed-serialized (RxMessage.session_open m) = refl
parsed-serialized (RxMessage.purge_session m) = refl
parsed-serialized (RxMessage.config m) = refl
parsed-serialized (RxMessage.receiver_hello r p l h) = refl
parsed-serialized (RxMessage.heartbeat p t) = refl
parsed-serialized (RxMessage.manifest_seen r m) = refl
parsed-serialized (RxMessage.receiver_stats s) = refl
parsed-serialized (RxMessage.block_decoded s r b) =
    ap₂ (λ (x y : List ℕ). some (some (RxMessage.block_decoded x r y))) (take-append_left {0} s b)
      (drop-append_left {0} s b)

parse_incoming-build_example :
    (parse_incoming proto (build_heartbeat proto 7 1000)
      ≡ some (some (RxMessage.heartbeat 7 1000), RxEnvelopeCase.heartbeat))
    × (parse_incoming proto (build_receiver_hello proto 7 42 9100)
        ≡ some (
          some (RxMessage.receiver_hello 7 42 9100 (1 ∷ 2 ∷ [])),
          RxEnvelopeCase.other_receiver_originated,
        ))
    × (parse_incoming proto (build_manifest_seen proto 7 (9 ∷ []))
        ≡ some
            (some (RxMessage.manifest_seen 7 (9 ∷ [])), RxEnvelopeCase.other_receiver_originated))
    × (parse_incoming proto (build_receiver_stats proto (8 ∷ []))
        ≡ some (some (RxMessage.receiver_stats (8 ∷ [])), RxEnvelopeCase.other_receiver_originated))
    × (parse_incoming proto (build_block_decoded proto (115 ∷ []) 7 (0 ∷ 1 ∷ []))
        ≡ some (
          some (RxMessage.block_decoded (115 ∷ []) 7 (0 ∷ 1 ∷ [])),
          RxEnvelopeCase.other_receiver_originated,
        ))
parse_incoming-build_example =
    parse_incoming-build proto parsed-serialized 7 42 9100 1000 (9 ∷ []) (8 ∷ []) (115 ∷ [])
      (0 ∷ 1 ∷ [])
