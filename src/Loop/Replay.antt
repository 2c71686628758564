-- ===== src/Loop/Replay.antt =====
-- main.cpp: replaying what was buffered before a session opened is handling it after the open.
use receiver.Prelude.{
  ℕ, ◌≡◌, ◌≢◌, inl, inr, true, List, [], ◌∷◌, Option, some, none, refl, ap, sym, subst, ◌∙◌,
  Option-cases, find_key, erase_key, find_key-erase_key_self,
}
use mathlib.Core.Option.{some-injective}
use receiver.Pipeline.{
  Pipeline, SessionOpen, DataPacketOutcome, handle_data_packet, handle_session_open,
}
use receiver.Loop.{
  Platform, Datagram, EarlySession, Receiver, on_data, after_outcome, count_outcome, count_replayed,
}
use receiver.Loop.Control.{replay_one, replay, report_replayed, replay_early, on_session_open}
use receiver.Loop.Contexts.{HasContext, handle_data_packet-known, handle_session_open-known}

module _ (sys : Platform) (receiver_id : ℕ) where
  open sys use {lib, os}

  -- Packets of one session that arrive one after the other.
  abbrev pub arrivals : Receiver → List ℕ → List Datagram → Receiver
  arrivals r id [] = r
  arrivals r id (d ∷ ds) = arrivals (on_data sys receiver_id r id d) id ds

  by_outcome :
      (r : Receiver) (p : Pipeline) (id : List ℕ) (d : Datagram) (outcome : DataPacketOutcome)
      (out : Option ℕ)
      → outcome ≢ DataPacketOutcome.unknown_session
      → report_replayed sys receiver_id
          (record r { pipeline = p; stats = count_replayed r.stats outcome })
          id
          outcome
          out
        ≡ after_outcome sys receiver_id
            (record r { pipeline = p; stats = count_outcome r.stats outcome })
            id
            d
            outcome
            out
  unfolding report_replayed after_outcome count_outcome count_replayed
  by_outcome r p id d DataPacketOutcome.unknown_session out h = absurd (h refl)
  by_outcome r p id d DataPacketOutcome.block_decoded out h = refl
  by_outcome r p id d DataPacketOutcome.registered_only out h = refl
  by_outcome r p id d DataPacketOutcome.duplicate out h = refl
  by_outcome r p id d DataPacketOutcome.arena_exhausted out h = refl
  by_outcome r p id d DataPacketOutcome.invalid_block_or_symbol out h = refl

  replay_one-eq-on_data :
      (r : Receiver) (id : List ℕ) (d : Datagram)
      → HasContext r.pipeline id
      → replay_one sys receiver_id r id d ≡ on_data sys receiver_id r id d
  unfolding replay_one on_data
  replay_one-eq-on_data r id d known =
      let (outcome, out, p) =
        handle_data_packet lib os r.pipeline id d.block_id d.symbol_id d.payload in
      by_outcome r p id d outcome out
        (handle_data_packet-known lib os r.pipeline id d.block_id d.symbol_id d.payload known).0

  abbrev with_early : Receiver → List (List ℕ × EarlySession) → Receiver
  with_early r early = record r { early_sessions = early }

  report_replayed-with_early :
      (r : Receiver) (id : List ℕ) (outcome : DataPacketOutcome) (out : Option ℕ)
      (early : List (List ℕ × EarlySession))
      → (with_early (report_replayed sys receiver_id r id outcome out) early
          ≡ report_replayed sys receiver_id (with_early r early) id outcome out)
        × ((report_replayed sys receiver_id r id outcome out).early_sessions ≡ r.early_sessions)
        × ((report_replayed sys receiver_id r id outcome out).pipeline ≡ r.pipeline)
  unfolding report_replayed
  report_replayed-with_early r id DataPacketOutcome.block_decoded out early = (refl, refl, refl)
  report_replayed-with_early r id _ out early = (refl, refl, refl)

  -- A replay neither reads nor changes the early sessions.
  replay-with_early :
      (r : Receiver) (id : List ℕ) (ds : List Datagram) (early : List (List ℕ × EarlySession))
      → (with_early (replay sys receiver_id r id ds) early
          ≡ replay sys receiver_id (with_early r early) id ds)
        × ((replay sys receiver_id r id ds).early_sessions ≡ r.early_sessions)
  unfolding replay replay_one
  replay-with_early r id [] early = (refl, refl)
  replay-with_early r id (d ∷ ds) early =
      let (outcome, out, p) =
        handle_data_packet lib os r.pipeline id d.block_id d.symbol_id d.payload in
      let (one, same, _) =
        report_replayed-with_early
          (record r { pipeline = p; stats = count_replayed r.stats outcome }) id outcome out
          early in
      let (all, kept) = replay-with_early (replay_one sys receiver_id r id d) id ds early in
      (all ∙ ap (λ (x : Receiver). replay sys receiver_id x id ds) one, kept ∙ same)

  replay_one-known :
      (r : Receiver) (id : List ℕ) (d : Datagram)
      → HasContext r.pipeline id
      → HasContext (replay_one sys receiver_id r id d).pipeline id
  unfolding replay_one
  replay_one-known r id d known =
      let (outcome, out, p) =
        handle_data_packet lib os r.pipeline id d.block_id d.symbol_id d.payload in
      let (_, _, same) =
        report_replayed-with_early
          (record r { pipeline = p; stats = count_replayed r.stats outcome }) id outcome out
          r.early_sessions in
      subst (λ (q : Pipeline). HasContext q id) (sym same)
        (handle_data_packet-known lib os r.pipeline id d.block_id d.symbol_id d.payload known).1

  replay-arrivals :
      (r : Receiver) (id : List ℕ) (ds : List Datagram)
      → HasContext r.pipeline id
      → replay sys receiver_id r id ds ≡ arrivals r id ds
  unfolding replay
  replay-arrivals r id [] known = refl
  replay-arrivals r id (d ∷ ds) known =
      replay-arrivals (replay_one sys receiver_id r id d) id ds (replay_one-known r id d known)
      ∙ ap (λ (x : Receiver). arrivals x id ds) (replay_one-eq-on_data r id d known)

  -- If handle_session_open succeeds on a message whose id has early packets, then on_session_open
  -- leaves the receiver that handling those packets as data frames, in order, would leave after an
  -- open with nothing buffered: the same pipeline, counters, messages to the manager and early
  -- sessions.
  pub on_session_open-arrivals :
      (r : Receiver) (so : SessionOpen) (es : EarlySession) (p : Pipeline)
      → handle_session_open lib os r.pipeline so so.file_size ≡ some (true, p)
      → find_key so.session_id r.early_sessions ≡ some es
      → on_session_open sys receiver_id r so
        ≡ some (
            arrivals
              (record r { pipeline = p; early_sessions = erase_key so.session_id r.early_sessions })
              so.session_id
              es.buffered)
  unfolding on_session_open replay_early
  on_session_open-arrivals r so es p opened early =
      let id = so.session_id in
      let r' = record r { pipeline = p } in
      let erased = erase_key id r.early_sessions in
      let (moved, kept) = replay-with_early r' id es.buffered erased in
      rw (opened, on_session_open)
        (rw (early, replay_early)
          (ap some (
            ap (λ x. with_early (replay sys receiver_id r' id es.buffered) (erase_key id x)) kept
            ∙ moved
            ∙ replay-arrivals (with_early r' erased) id es.buffered
                (handle_session_open-known lib os r.pipeline p so so.file_size opened))))

  replay_early-early :
      (r : Receiver) (id : List ℕ)
      → find_key id (replay_early sys receiver_id r id).early_sessions ≡ none
  unfolding replay_early
  replay_early-early r id = elim (Option-cases (find_key id r.early_sessions)) [
    | inl fresh ↦ rw (fresh, replay_early) fresh
    | inr (es, early) ↦ rw (early, replay_early) (find_key-erase_key_self id _)
  ]

  -- Nothing is kept for a session that has opened.
  pub on_session_open-early :
      (r r' : Receiver) (so : SessionOpen) (p : Pipeline)
      → handle_session_open lib os r.pipeline so so.file_size ≡ some (true, p)
      → on_session_open sys receiver_id r so ≡ some r'
      → find_key so.session_id r'.early_sessions ≡ none
  unfolding on_session_open
  on_session_open-early r r' so p opened e =
      subst (λ (x : Receiver). find_key so.session_id x.early_sessions ≡ none)
        (some-injective _ r' (rw (opened, on_session_open) at e))
        (replay_early-early (record r { pipeline = p }) so.session_id)
