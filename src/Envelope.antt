-- ===== src/Envelope.antt =====
-- src/receiver/rx_envelope.cpp: the messages between a receiver and its manager. Protobuf is a
-- parameter; an embedded message that the code only passes on is the list of its bytes.
pub mod Cases
use receiver.Prelude.{
  ℕ, Bool, true, false, if◌then◌else◌, not, List, [], ◌∷◌, ◌++◌, Option, some, none,
}

-- A member of the envelope's oneof.
pub data RxMessage : Type 0 where
  session_open purge_session config : (message : List ℕ) → RxMessage
  receiver_hello : (receiver_id pid listen_port : ℕ) (proto_hash : List ℕ) → RxMessage
  heartbeat : (process_id timestamp_unix_ms : ℕ) → RxMessage
  manifest_seen : (receiver_id : ℕ) (manifest : List ℕ) → RxMessage
  receiver_stats : (stats : List ℕ) → RxMessage
  block_decoded : (session_id : List ℕ) (receiver_id : ℕ) (block_ids : List ℕ) → RxMessage

-- The generated class, with the member that is set, and the generated NEXUS_PROTO_HASH.
pub record EnvelopeClass : Type 0 where
  pub serialize_to_string : Option RxMessage → List ℕ
  pub parse_from_string : List ℕ → Option (Option RxMessage)
  pub nexus_proto_hash : List ℕ

pub data RxEnvelopeCase : Type 0 where
  unset session_open purge_session config heartbeat other_receiver_originated : RxEnvelopeCase

module _ (proto : EnvelopeClass) where
  unfoldable pub build_receiver_hello : ℕ → ℕ → ℕ → List ℕ
  build_receiver_hello receiver_id pid listen_port =
      proto.serialize_to_string
        (some (RxMessage.receiver_hello receiver_id pid listen_port proto.nexus_proto_hash))

  unfoldable pub build_heartbeat : ℕ → ℕ → List ℕ
  build_heartbeat process_id timestamp_unix_ms =
      proto.serialize_to_string (some (RxMessage.heartbeat process_id timestamp_unix_ms))

  unfoldable pub build_manifest_seen : ℕ → List ℕ → List ℕ
  build_manifest_seen receiver_id manifest =
      proto.serialize_to_string (some (RxMessage.manifest_seen receiver_id manifest))

  unfoldable pub build_receiver_stats : List ℕ → List ℕ
  build_receiver_stats stats = proto.serialize_to_string (some (RxMessage.receiver_stats stats))

  -- `for (uint32_t id : block_ids) bd->add_block_ids(id)`
  unfoldable pub add_block_ids : List ℕ → List ℕ → List ℕ
  add_block_ids added [] = added
  add_block_ids added (id ∷ ids) = add_block_ids (added ++ id ∷ []) ids

  unfoldable pub build_block_decoded : List ℕ → ℕ → List ℕ → List ℕ
  unfolding add_block_ids
  build_block_decoded session_id receiver_id block_ids =
      proto.serialize_to_string
        (some (RxMessage.block_decoded session_id receiver_id (add_block_ids [] block_ids)))

  -- The switch on `msg_case()`.
  unfoldable pub case_of : Option RxMessage → RxEnvelopeCase
  case_of none = RxEnvelopeCase.unset
  case_of (some (RxMessage.session_open m)) = RxEnvelopeCase.session_open
  case_of (some (RxMessage.purge_session m)) = RxEnvelopeCase.purge_session
  case_of (some (RxMessage.config m)) = RxEnvelopeCase.config
  case_of (some (RxMessage.heartbeat p t)) = RxEnvelopeCase.heartbeat
  case_of (some (RxMessage.receiver_hello r p l h)) = RxEnvelopeCase.other_receiver_originated
  case_of (some (RxMessage.manifest_seen r m)) = RxEnvelopeCase.other_receiver_originated
  case_of (some (RxMessage.block_decoded s r b)) = RxEnvelopeCase.other_receiver_originated
  case_of (some (RxMessage.receiver_stats s)) = RxEnvelopeCase.other_receiver_originated

  -- `none` where the source returns false; else the envelope and its case.
  unfoldable pub parse_incoming : List ℕ → Option (Option RxMessage × RxEnvelopeCase)
  unfolding case_of
  parse_incoming raw = elim (proto.parse_from_string raw) [
    | none ↦ none
    | some envelope ↦ some (envelope, case_of envelope)
  ]
