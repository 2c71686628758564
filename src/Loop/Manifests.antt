-- ===== src/Loop/Manifests.antt =====
-- main.cpp: when the manager is told of a manifest.
use receiver.Prelude.{
  ℕ, ◌≡◌, inl, inr, refl, List, [], ◌∷◌, ◌++◌, length, true, Bool-cases, Option-cases, Option, some,
  none, find_key, find_key-put_key_self, find_key-put_key_known, ltb,
}
use receiver.Pipeline.{
  Pipeline, SessionOpen, DataPacketOutcome, handle_data_packet, handle_session_open,
}
use receiver.Loop.Control.{on_session_open}
use receiver.Loop.Replay.{on_session_open-early}
use receiver.Envelope.{build_manifest_seen}
use receiver.Loop.{
  Platform, EarlySession, Receiver, NetMessage, Datagram, on_data, on_manifest, on_message,
  buffer_early, after_outcome, max_buffered_per_session, count_outcome,
}

-- The manifest of the session is known.
abbrev pub IsAnnounced : Receiver → List ℕ → Type 0
IsAnnounced r id = (es : EarlySession) × (find_key id r.early_sessions ≡ some es)

module _ (sys : Platform) (receiver_id : ℕ) where
  open sys use {lib, os, envelopes}

  -- Frames one after the other.
  abbrev pub on_messages : Receiver → List NetMessage → Receiver
  on_messages r [] = r
  on_messages r (m ∷ ms) = on_messages (on_message sys receiver_id r m) ms

  buffer_early-IsAnnounced :
      (early : List (List ℕ × EarlySession)) (id j : List ℕ) (d : Datagram) (es : EarlySession)
      → find_key id early ≡ some es
      → (es' : EarlySession) × (find_key id (buffer_early early j d) ≡ some es')
  unfolding buffer_early
  buffer_early-IsAnnounced early id j d es known = elim (Option-cases (find_key j early)) [
    | inl none_there ↦ rw (none_there, buffer_early) (es, known)
    | inr (ej, there) ↦
        rw (there, buffer_early)
          (elim (Bool-cases (ltb (length ej.buffered) max_buffered_per_session)) [
            | inr full ↦ rw full (es, known)
            | inl room ↦ rw room (find_key-put_key_known j id _ es early known)
          ])
  ]

  after_outcome-IsAnnounced :
      (r : Receiver) (id j : List ℕ) (d : Datagram) (outcome : DataPacketOutcome) (out : Option ℕ)
      → IsAnnounced r id
      → IsAnnounced (after_outcome sys receiver_id r j d outcome out) id
  unfolding after_outcome
  after_outcome-IsAnnounced r id j d DataPacketOutcome.unknown_session out (es, known) =
      buffer_early-IsAnnounced r.early_sessions id j d es known
  after_outcome-IsAnnounced r id j d DataPacketOutcome.block_decoded out known = known
  after_outcome-IsAnnounced r id j d DataPacketOutcome.registered_only out known = known
  after_outcome-IsAnnounced r id j d DataPacketOutcome.duplicate out known = known
  after_outcome-IsAnnounced r id j d DataPacketOutcome.arena_exhausted out known = known
  after_outcome-IsAnnounced r id j d DataPacketOutcome.invalid_block_or_symbol out known = known

  on_manifest-IsAnnounced :
      (r : Receiver) (id j m : List ℕ)
      → IsAnnounced r id
      → IsAnnounced (on_manifest sys receiver_id r j m) id
  unfolding on_manifest
  on_manifest-IsAnnounced r id j m (es, known) = elim (Option-cases (find_key j r.early_sessions)) [
    | inr (ej, there) ↦ rw (there, on_manifest) (es, known)
    | inl fresh ↦ rw (fresh, on_manifest) (find_key-put_key_known j id _ es r.early_sessions known)
  ]

  on_message-IsAnnounced :
      (r : Receiver) (id : List ℕ) (m : NetMessage)
      → IsAnnounced r id
      → IsAnnounced (on_message sys receiver_id r m) id
  unfolding on_message on_data
  on_message-IsAnnounced r id (NetMessage.data_packet j b s payload) known =
      let d : Datagram = record { block_id = b; symbol_id = s; payload = payload } in
      let (outcome, out, p) = handle_data_packet lib os r.pipeline j b s payload in
      after_outcome-IsAnnounced (record r { pipeline = p; stats = count_outcome r.stats outcome })
        id j d outcome out known
  on_message-IsAnnounced r id (NetMessage.manifest j m) known =
      on_manifest-IsAnnounced r id j m known
  on_message-IsAnnounced r id NetMessage.session_end known = known
  on_message-IsAnnounced r id NetMessage.other_message known = known

  on_messages-IsAnnounced :
      (r : Receiver) (id : List ℕ) (ms : List NetMessage)
      → IsAnnounced r id
      → IsAnnounced (on_messages r ms) id
  on_messages-IsAnnounced r id [] known = known
  on_messages-IsAnnounced r id (m ∷ ms) known =
      on_messages-IsAnnounced (on_message sys receiver_id r m) id ms
        (on_message-IsAnnounced r id m known)

  on_manifest-known :
      (r : Receiver) (id m : List ℕ) → IsAnnounced r id → on_manifest sys receiver_id r id m ≡ r
  unfolding on_manifest
  on_manifest-known r id m (es, known) = rw (known, on_manifest) refl

  -- A manifest that is new is announced, whatever it was before.
  on_manifest_announces :
      (r : Receiver) (id m : List ℕ) → IsAnnounced (on_manifest sys receiver_id r id m) id
  unfolding on_manifest
  on_manifest_announces r id m = elim (Option-cases (find_key id r.early_sessions)) [
    | inr (es, there) ↦ rw (there, on_manifest) (es, there)
    | inl fresh ↦ rw (fresh, on_manifest) (_, find_key-put_key_self id _ r.early_sessions)
  ]

  pub on_manifest-fresh :
      (r : Receiver) (id m : List ℕ)
      → find_key id r.early_sessions ≡ none
      → (on_manifest sys receiver_id r id m).sent
        ≡ r.sent ++ build_manifest_seen envelopes receiver_id m ∷ []
  unfolding on_manifest
  on_manifest-fresh r id m fresh = rw (fresh, on_manifest) refl

  -- If a session's manifest is not known, handling it sends one ManifestSeen; and after any further
  -- frames, handling a manifest of the same id changes nothing and sends nothing.
  pub on_manifest-once :
      (r : Receiver) (id m again : List ℕ) (ms : List NetMessage)
      → find_key id r.early_sessions ≡ none
      → let first = on_manifest sys receiver_id r id m in
        (first.sent ≡ r.sent ++ build_manifest_seen envelopes receiver_id m ∷ [])
        × (on_manifest sys receiver_id (on_messages first ms) id again ≡ on_messages first ms)
  on_manifest-once r id m again ms fresh = (
    on_manifest-fresh r id m fresh,
    on_manifest-known (on_messages (on_manifest sys receiver_id r id m) ms) id again (
        on_messages-IsAnnounced (on_manifest sys receiver_id r id m) id ms
          (on_manifest_announces r id m)),
  )

  -- If handle_session_open succeeds and on_session_open returns, then the next manifest of that
  -- session is announced to the manager again.
  pub on_manifest-on_session_open :
      (r r' : Receiver) (so : SessionOpen) (p : Pipeline) (m : List ℕ)
      → handle_session_open lib os r.pipeline so so.file_size ≡ some (true, p)
      → on_session_open sys receiver_id r so ≡ some r'
      → (on_manifest sys receiver_id r' so.session_id m).sent
        ≡ r'.sent ++ build_manifest_seen envelopes receiver_id m ∷ []
  on_manifest-on_session_open r r' so p m opened e =
      on_manifest-fresh r' so.session_id m
        (on_session_open-early sys receiver_id r r' so p opened e)
