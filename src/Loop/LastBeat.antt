-- ===== src/Loop/LastBeat.antt =====
-- main.cpp: frames and messages leave the time of the last heartbeat as it was.
use receiver.Prelude.{
  ℕ, ◌+◌, ◌≡◌, inl, inr, refl, ap, sym, subst, ◌∙◌, arith, List, [], ◌∷◌, length, u64, Bool, true,
  false, Option-cases, Option, some, none, if◌then◌else◌, find_key,
}
use mathlib.Core.Option.{some-injective, some-ne-none}
use receiver.Dispatch.{FrameDecodeResult, decode_frame}
use receiver.Envelope.{RxMessage, RxEnvelopeCase, parse_incoming}
use receiver.Pipeline.{
  Pipeline, SessionOpen, DataPacketOutcome, handle_data_packet, handle_session_open,
}
use receiver.Loop.{
  Platform, Receiver, NetMessage, Datagram, on_data, on_manifest, on_message, on_decoded,
  on_datagram, on_batch, count_outcome, after_outcome, count_replayed,
}
use receiver.Loop.Control.{
  report_replayed, replay_one, replay, replay_early, on_session_open, on_purge, on_envelope, on_raw,
  opened_message, purged_message,
}

module _ (sys : Platform) (receiver_id : ℕ) where
  open sys use {
    frames, cpu, lib, os, message_of, envelopes, stats_to_bytes, getpid, session_open_of,
    purged_id_of,
  }

  after_outcome-last :
      (r : Receiver) (id : List ℕ) (d : Datagram) (outcome : DataPacketOutcome) (out : Option ℕ)
      → (after_outcome sys receiver_id r id d outcome out).last_heartbeat ≡ r.last_heartbeat
  unfolding after_outcome
  after_outcome-last r id d DataPacketOutcome.block_decoded out = refl
  after_outcome-last r id d _ out = refl

  on_message-last :
      (r : Receiver) (m : NetMessage)
      → (on_message sys receiver_id r m).last_heartbeat ≡ r.last_heartbeat
  unfolding on_message on_data on_manifest
  on_message-last r (NetMessage.data_packet id b s payload) =
      let (outcome, out, p) = handle_data_packet lib os r.pipeline id b s payload in
      after_outcome-last (record r { pipeline = p; stats = count_outcome r.stats outcome }) id
        (record { block_id = b; symbol_id = s; payload = payload }) outcome out
  on_message-last r (NetMessage.manifest id m) = ground arith
  on_message-last r NetMessage.session_end = refl
  on_message-last r NetMessage.other_message = refl

  on_decoded-last :
      (r : Receiver) (result : FrameDecodeResult) (frame : frames.Frame)
      → (on_decoded sys receiver_id r result frame).last_heartbeat ≡ r.last_heartbeat
  unfolding on_decoded
  on_decoded-last r FrameDecodeResult.ok frame =
      on_message-last (record r { stats = record r.stats { pkts_ok = u64 (r.stats.pkts_ok + 1) } })
        (message_of frame)
  on_decoded-last r FrameDecodeResult.bad_magic frame = refl
  on_decoded-last r FrameDecodeResult.crc_fail frame = refl
  on_decoded-last r FrameDecodeResult.unparsable frame = refl

  pub on_batch-last :
      (r : Receiver) (batch : List (List ℕ))
      → (on_batch sys receiver_id r batch).last_heartbeat ≡ r.last_heartbeat
  unfolding on_batch on_datagram
  on_batch-last r [] = refl
  on_batch-last r (bytes ∷ batch) =
      let (result, frame) = decode_frame frames cpu bytes (length bytes) in
      on_batch-last (on_datagram sys receiver_id r bytes) batch ∙ on_decoded-last r result frame

  report_replayed-last :
      (r : Receiver) (id : List ℕ) (outcome : DataPacketOutcome) (out : Option ℕ)
      → (report_replayed sys receiver_id r id outcome out).last_heartbeat ≡ r.last_heartbeat
  unfolding report_replayed
  report_replayed-last r id DataPacketOutcome.block_decoded out = refl
  report_replayed-last r id _ out = refl

  replay-last :
      (r : Receiver) (id : List ℕ) (ds : List Datagram)
      → (replay sys receiver_id r id ds).last_heartbeat ≡ r.last_heartbeat
  unfolding replay replay_one
  replay-last r id [] = refl
  replay-last r id (d ∷ ds) =
      let (outcome, out, p) =
        handle_data_packet lib os r.pipeline id d.block_id d.symbol_id d.payload in
      replay-last (replay_one sys receiver_id r id d) id ds
      ∙ report_replayed-last (record r { pipeline = p; stats = count_replayed r.stats outcome }) id
          outcome out

  replay_early-last :
      (r : Receiver) (id : List ℕ)
      → (replay_early sys receiver_id r id).last_heartbeat ≡ r.last_heartbeat
  unfolding replay_early
  replay_early-last r id = elim (Option-cases (find_key id r.early_sessions)) [
    | inl fresh ↦ rw (fresh, replay_early) refl
    | inr (es, early) ↦ rw (early, replay_early) (replay-last r id es.buffered)
  ]

  on_session_open-last :
      (r r' : Receiver) (so : SessionOpen)
      → on_session_open sys receiver_id r so ≡ some r'
      → r'.last_heartbeat ≡ r.last_heartbeat
  unfolding on_session_open
  on_session_open-last r r' so e =
      elim (Option-cases (handle_session_open lib os r.pipeline so so.file_size)) [
        | inl spins ↦ absurd (some-ne-none r' (sym (rw (spins, on_session_open) at e)))
        | inr ((opened, p), handled) ↦
            subst (λ (x : Receiver). x.last_heartbeat ≡ r.last_heartbeat)
              (some-injective _ r' (rw (handled, on_session_open) at e)) (either opened p)
      ]
    where
      either :
          (opened : Bool) (p : Pipeline)
          → (if opened
              then replay_early sys receiver_id (record r { pipeline = p }) so.session_id
              else record r { pipeline = p }).last_heartbeat
            ≡ r.last_heartbeat
      either true p = replay_early-last (record r { pipeline = p }) so.session_id
      either false p = refl

  on_purge-last :
      (r r' : Receiver) (id : List ℕ)
      → on_purge sys receiver_id r id ≡ some r'
      → r'.last_heartbeat ≡ r.last_heartbeat
  unfolding on_purge
  on_purge-last r r' id e = ground arith

  on_envelope-last :
      (r r' : Receiver) (envelope : Option RxMessage) (kase : RxEnvelopeCase)
      → on_envelope sys receiver_id r envelope kase ≡ some r'
      → r'.last_heartbeat ≡ r.last_heartbeat
  unfolding on_envelope
  on_envelope-last r r' envelope RxEnvelopeCase.session_open e =
      on_session_open-last r r' (session_open_of (opened_message envelope)) e
  on_envelope-last r r' envelope RxEnvelopeCase.purge_session e =
      on_purge-last r r' (purged_id_of (purged_message envelope)) e
  on_envelope-last r r' envelope _ e =
      ap (λ (x : Receiver). x.last_heartbeat) (sym (some-injective r r' e))

  pub on_raw-last :
      (r r' : Receiver) (raw : Option (List ℕ))
      → on_raw sys receiver_id r raw ≡ some r'
      → r'.last_heartbeat ≡ r.last_heartbeat
  unfolding on_raw
  on_raw-last r r' none e = ap (λ (x : Receiver). x.last_heartbeat) (sym (some-injective r r' e))
  on_raw-last r r' (some raw) e = elim (Option-cases (parse_incoming envelopes raw)) [
    | inl bad ↦
        ap (λ (x : Receiver). x.last_heartbeat) (sym (some-injective r r' (rw (bad, on_raw) at e)))
    | inr ((envelope, kase), parsed) ↦
        on_envelope-last r r' envelope kase (rw (parsed, on_raw) at e)
  ]
