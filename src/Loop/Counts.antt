-- ===== src/Loop/Counts.antt =====
-- main.cpp: every datagram is counted once, and a heartbeat goes out every second.
use receiver.Prelude.{ℕ, ◌+◌, ◌≡◌, refl, ap, ◌∙◌, arith, List, [], ◌∷◌, length, u64, Option}
use receiver.Dispatch.{FrameDecodeResult, decode_frame}
use receiver.Pipeline.{DataPacketOutcome, handle_data_packet}
use receiver.Loop.{
  Platform, Stats, Receiver, NetMessage, Datagram, on_data, on_manifest, on_message, on_decoded,
  on_datagram, on_batch, count_rejected, count_outcome, after_outcome,
}

-- The datagrams that have been counted, wrapped as the counters are.
abbrev pub counted : Stats → ℕ
counted s = u64 (s.pkts_ok + s.crc_fail + s.bad_magic + s.unparsable)

module _ (sys : Platform) (receiver_id : ℕ) where
  open sys use {frames, cpu, lib, os, message_of}

  after_outcome-stats :
      (r : Receiver) (id : List ℕ) (d : Datagram) (outcome : DataPacketOutcome) (out : Option ℕ)
      → (after_outcome sys receiver_id r id d outcome out).stats ≡ r.stats
  unfolding after_outcome
  after_outcome-stats r id d DataPacketOutcome.block_decoded out = refl
  after_outcome-stats r id d _ out = refl

  count_outcome-counted :
      (s : Stats) (outcome : DataPacketOutcome) → counted (count_outcome s outcome) ≡ counted s
  unfolding count_outcome
  count_outcome-counted s DataPacketOutcome.duplicate = refl
  count_outcome-counted s _ = refl

  on_data-counted :
      (r : Receiver) (id : List ℕ) (d : Datagram)
      → counted (on_data sys receiver_id r id d).stats ≡ counted r.stats
  unfolding on_data
  on_data-counted r id d =
      let (outcome, out, p) =
        handle_data_packet lib os r.pipeline id d.block_id d.symbol_id d.payload in
      ap counted (
        after_outcome-stats (record r { pipeline = p; stats = count_outcome r.stats outcome }) id d
          outcome out)
      ∙ count_outcome-counted r.stats outcome

  on_message-counted :
      (r : Receiver) (m : NetMessage)
      → counted (on_message sys receiver_id r m).stats ≡ counted r.stats
  unfolding on_message on_manifest
  on_message-counted r (NetMessage.data_packet id b s p) =
      on_data-counted r id (record { block_id = b; symbol_id = s; payload = p })
  on_message-counted r (NetMessage.manifest id m) = ground arith
  on_message-counted r NetMessage.session_end = refl
  on_message-counted r NetMessage.other_message = refl

  on_decoded-counted :
      (r : Receiver) (result : FrameDecodeResult) (frame : frames.Frame)
      → counted (on_decoded sys receiver_id r result frame).stats ≡ u64 (counted r.stats + 1)
  unfolding on_decoded count_rejected
  on_decoded-counted r FrameDecodeResult.ok frame =
      on_message-counted
        (record r { stats = record r.stats { pkts_ok = u64 (r.stats.pkts_ok + 1) } })
        (message_of frame)
      ∙ omega arith
  on_decoded-counted r FrameDecodeResult.bad_magic frame = omega arith
  on_decoded-counted r FrameDecodeResult.crc_fail frame = omega arith
  on_decoded-counted r FrameDecodeResult.unparsable frame = omega arith

  -- Handling a batch raises the sum of the accepted, corrupted, foreign and unparsable counters by
  -- the number of datagrams, modulo 2 ^ 64: every datagram is counted exactly once.
  pub on_batch-counted :
      (r : Receiver) (batch : List (List ℕ))
      → counted (on_batch sys receiver_id r batch).stats ≡ u64 (counted r.stats + length batch)
  unfolding on_batch on_datagram
  on_batch-counted r [] = omega arith
  on_batch-counted r (bytes ∷ batch) =
      let (result, frame) = decode_frame frames cpu bytes (length bytes) in
      omega (
        arith,
        on_batch-counted (on_datagram sys receiver_id r bytes) batch,
        on_decoded-counted r result frame,
      )
