-- ===== src/Envelope/Cases.antt =====
-- rx_envelope.cpp: what the receiver builds, read back.
use receiver.Prelude.{ℕ, ◌≡◌, refl, ap, sym, ◌∙◌, List, [], ◌∷◌, ◌++◌, some}
use receiver.Envelope.{
  RxMessage, EnvelopeClass, RxEnvelopeCase, build_receiver_hello, build_heartbeat,
  build_manifest_seen, build_receiver_stats, add_block_ids, build_block_decoded, case_of,
  parse_incoming,
}

append_assoc : (xs ys zs : List ℕ) → (xs ++ ys) ++ zs ≡ xs ++ (ys ++ zs)
append_assoc [] ys zs = refl
append_assoc (x ∷ xs) ys zs = ap (◌∷◌ x) (append_assoc xs ys zs)

append-nil : (xs : List ℕ) → xs ++ [] ≡ xs
append-nil [] = refl
append-nil (x ∷ xs) = ap (◌∷◌ x) (append-nil xs)

module _ (proto : EnvelopeClass) where
  -- The loop adds every id, in order.
  add_block_ids-append : (added ids : List ℕ) → add_block_ids proto added ids ≡ added ++ ids
  unfolding add_block_ids
  add_block_ids-append added [] = sym (append-nil added)
  add_block_ids-append added (id ∷ ids) =
      add_block_ids-append (added ++ id ∷ []) ids ∙ append_assoc added (id ∷ []) ids

  module _
      (reads : (m : RxMessage)
        → proto.parse_from_string (proto.serialize_to_string (some m)) ≡ some (some m)) where
    incoming :
        (m : RxMessage)
        → parse_incoming proto (proto.serialize_to_string (some m))
          ≡ some (some m, case_of proto (some m))
    unfolding parse_incoming
    incoming m = rw (reads m, parse_incoming) refl

    -- If protobuf parses back what it serializes of an envelope with a member set, then
    -- parse_incoming reads each of the five messages that the receiver builds as what it was built
    -- from, every block id in order included: a heartbeat as such, and the four that only a
    -- receiver sends as receiver-originated.
    pub parse_incoming-build :
        (receiver_id pid listen_port timestamp : ℕ) (manifest stats session_id block_ids : List ℕ)
        → (parse_incoming proto (build_heartbeat proto receiver_id timestamp)
            ≡ some (some (RxMessage.heartbeat receiver_id timestamp), RxEnvelopeCase.heartbeat))
          × (parse_incoming proto (build_receiver_hello proto receiver_id pid listen_port)
              ≡ some (
                some (RxMessage.receiver_hello receiver_id pid listen_port proto.nexus_proto_hash),
                RxEnvelopeCase.other_receiver_originated,
              ))
          × (parse_incoming proto (build_manifest_seen proto receiver_id manifest)
              ≡ some (
                some (RxMessage.manifest_seen receiver_id manifest),
                RxEnvelopeCase.other_receiver_originated,
              ))
          × (parse_incoming proto (build_receiver_stats proto stats)
              ≡ some
                  (some (RxMessage.receiver_stats stats), RxEnvelopeCase.other_receiver_originated))
          × (parse_incoming proto (build_block_decoded proto session_id receiver_id block_ids)
              ≡ some (
                some (RxMessage.block_decoded session_id receiver_id block_ids),
                RxEnvelopeCase.other_receiver_originated,
              ))
    unfolding build_receiver_hello build_heartbeat build_manifest_seen build_receiver_stats
        build_block_decoded case_of
    parse_incoming-build receiver_id pid listen_port timestamp manifest stats session_id block_ids =
        (
          incoming (RxMessage.heartbeat receiver_id timestamp),
          incoming (RxMessage.receiver_hello receiver_id pid listen_port proto.nexus_proto_hash),
          incoming (RxMessage.manifest_seen receiver_id manifest),
          incoming (RxMessage.receiver_stats stats),
          incoming
                (RxMessage.block_decoded session_id receiver_id (add_block_ids proto [] block_ids))
              ∙ ap
                  (λ (ids : List ℕ). some (
                    some (RxMessage.block_decoded session_id receiver_id ids),
                    RxEnvelopeCase.other_receiver_originated,
                  ))
                  (add_block_ids-append [] block_ids),
        )
