-- ===== src/Loop.antt =====
-- src/receiver/main.cpp: the main loop, from a wakeup of `poll` to the frames, messages and heartbeats.
pub mod Control
pub mod Contexts
pub mod Replay
pub mod Counts
pub mod Reports
pub mod Manifests
pub mod LastBeat
pub mod Heartbeat
pub mod Invariant
pub mod Run
pub mod First
use receiver.Prelude.{
  ℕ, ◌+◌, ◌-◌, ◌*◌, ◌/◌, Bool, true, false, if◌then◌else◌, ltb, leb, List, [], ◌∷◌, ◌++◌, Option,
  some, none, length, find_key, put_key, erase_key, u64,
}
use receiver.Crc.{Cpu}
use receiver.Dispatch.{FrameClass, FrameDecodeResult, decode_frame}
use receiver.Envelope.{
  RxMessage, EnvelopeClass, RxEnvelopeCase, parse_incoming, build_block_decoded,
  build_manifest_seen, build_heartbeat, build_receiver_stats,
}
use receiver.Codec.{IsaL}
use receiver.Writer.{Os}
use receiver.Pipeline.{
  Pipeline, DataPacketOutcome, SessionOpen, handle_data_packet, handle_session_open, purge_session,
}

-- The member of a `Frame` that is set, with the fields that the loop reads. A manifest is passed on as
-- its bytes.
pub data NetMessage : Type 0 where
  data_packet : (session_id : List ℕ) (block_id symbol_id : ℕ) (payload : List ℕ) → NetMessage
  manifest : (session_id message : List ℕ) → NetMessage
  session_end other_message : NetMessage

-- The `stat_` counters.
pub record Stats : Type 0 where
  pub pkts_ok : ℕ
  pub crc_fail : ℕ
  pub bad_magic : ℕ
  pub unparsable : ℕ
  pub duplicates : ℕ
  pub no_session : ℕ
  pub arena_exhausted : ℕ

-- The fields of `ReceiverStats` that are set.
pub record ReceiverStats : Type 0 where
  pub receiver_id : ℕ
  pub counters : Stats
  pub kernel_drops : ℕ
  pub arena_high_water_pct : ℕ

-- What the loop uses of protobuf, of ISA-L, of the system and of the processor.
pub record Platform : Type 1 where
  pub frames : FrameClass
  pub message_of : frames.Frame → NetMessage
  pub envelopes : EnvelopeClass
  pub session_open_of : List ℕ → SessionOpen
  pub purged_id_of : List ℕ → List ℕ
  pub stats_to_bytes : ReceiverStats → List ℕ
  pub lib : IsaL
  pub os : Os
  pub cpu : Cpu
  pub getpid : ℕ

pub record Datagram : Type 0 where
  pub block_id : ℕ
  pub symbol_id : ℕ
  pub payload : List ℕ

pub record EarlySession : Type 0 where
  pub manifest : List ℕ
  pub buffered : List Datagram

abbrev pub max_buffered_per_session : ℕ
max_buffered_per_session = 8192

-- Nanoseconds, the clock's unit, in a heartbeat's interval and in a millisecond.
abbrev pub heartbeat_interval : ℕ
heartbeat_interval = 1000 * 1000000

-- The loop's variables. `sent` has what was given to `uds.send`, in order.
pub record Receiver : Type 0 where
  pub pipeline : Pipeline
  pub early_sessions : List (List ℕ × EarlySession)
  pub stats : Stats
  pub last_heartbeat : ℕ
  pub sent : List (List ℕ)

abbrev pub send : Receiver → List ℕ → Receiver
send r message = record r { sent = r.sent ++ message ∷ [] }

unfoldable pub count_rejected : Stats → FrameDecodeResult → Stats
count_rejected s FrameDecodeResult.bad_magic = record s { bad_magic = u64 (s.bad_magic + 1) }
count_rejected s FrameDecodeResult.crc_fail = record s { crc_fail = u64 (s.crc_fail + 1) }
count_rejected s FrameDecodeResult.unparsable = record s { unparsable = u64 (s.unparsable + 1) }
count_rejected s FrameDecodeResult.ok = s

-- The switch on a packet's outcome.
unfoldable pub count_outcome : Stats → DataPacketOutcome → Stats
count_outcome s DataPacketOutcome.duplicate = record s { duplicates = u64 (s.duplicates + 1) }
count_outcome s DataPacketOutcome.unknown_session = record s { no_session = u64 (s.no_session + 1) }
count_outcome s DataPacketOutcome.arena_exhausted = record s {
  arena_exhausted = u64 (s.arena_exhausted + 1);
}
count_outcome s DataPacketOutcome.registered_only = s
count_outcome s DataPacketOutcome.block_decoded = s
count_outcome s DataPacketOutcome.invalid_block_or_symbol = s

-- The switch on a replayed packet's outcome.
unfoldable pub count_replayed : Stats → DataPacketOutcome → Stats
count_replayed s DataPacketOutcome.duplicate = record s { duplicates = u64 (s.duplicates + 1) }
count_replayed s DataPacketOutcome.arena_exhausted = record s {
  arena_exhausted = u64 (s.arena_exhausted + 1);
}
count_replayed s DataPacketOutcome.registered_only = s
count_replayed s DataPacketOutcome.block_decoded = s
count_replayed s DataPacketOutcome.unknown_session = s
count_replayed s DataPacketOutcome.invalid_block_or_symbol = s

-- A packet of a session that is not open: kept, if its manifest is known and the buffer has room.
unfoldable pub buffer_early :
    List (List ℕ × EarlySession) → List ℕ → Datagram → List (List ℕ × EarlySession)
buffer_early early id datagram = elim (find_key id early) [
  | none ↦ early
  | some es ↦
      if ltb (length es.buffered) max_buffered_per_session
      then put_key id (record es { buffered = es.buffered ++ datagram ∷ [] }) early
      else early
]

-- `out_decoded_block_id`, a variable that is 0 before the call.
abbrev pub or_zero : Option ℕ → ℕ
or_zero none = 0
or_zero (some block_id) = block_id

module _ (sys : Platform) (receiver_id : ℕ) where
  open sys use {
    frames, message_of, envelopes, session_open_of, purged_id_of, stats_to_bytes, lib, os, cpu,
    getpid,
  }

  -- What follows the switch: a decoded block is reported, an early packet is buffered.
  unfoldable pub after_outcome :
      Receiver → List ℕ → Datagram → DataPacketOutcome → Option ℕ → Receiver
  after_outcome r id datagram DataPacketOutcome.block_decoded out =
      send r (build_block_decoded envelopes id receiver_id (or_zero out ∷ []))
  after_outcome r id datagram DataPacketOutcome.unknown_session out = record r {
    early_sessions = buffer_early r.early_sessions id datagram;
  }
  after_outcome r id datagram DataPacketOutcome.registered_only out = r
  after_outcome r id datagram DataPacketOutcome.duplicate out = r
  after_outcome r id datagram DataPacketOutcome.arena_exhausted out = r
  after_outcome r id datagram DataPacketOutcome.invalid_block_or_symbol out = r

  unfoldable pub on_data : Receiver → List ℕ → Datagram → Receiver
  unfolding after_outcome count_outcome
  on_data r id d =
      let (outcome, out, p) =
        handle_data_packet lib os r.pipeline id d.block_id d.symbol_id d.payload in
      after_outcome (record r { pipeline = p; stats = count_outcome r.stats outcome }) id d outcome
        out

  unfoldable pub on_manifest : Receiver → List ℕ → List ℕ → Receiver
  on_manifest r id message = elim (find_key id r.early_sessions) [
    | some es ↦ r
    | none ↦
        send
          (record r {
            early_sessions =
                put_key id (record { manifest = message; buffered = [] }) r.early_sessions;
          })
          (build_manifest_seen envelopes receiver_id message)
  ]

  unfoldable pub on_message : Receiver → NetMessage → Receiver
  unfolding on_data on_manifest
  on_message r (data_packet id block_id symbol_id payload) =
      on_data r id (record { block_id = block_id; symbol_id = symbol_id; payload = payload })
  on_message r (manifest id message) = on_manifest r id message
  on_message r session_end = r
  on_message r other_message = r

  -- The result of `decode_frame`.
  unfoldable pub on_decoded : Receiver → FrameDecodeResult → frames.Frame → Receiver
  unfolding on_message count_rejected
  on_decoded r FrameDecodeResult.ok frame =
      on_message (record r { stats = record r.stats { pkts_ok = u64 (r.stats.pkts_ok + 1) } })
        (message_of frame)
  on_decoded r FrameDecodeResult.bad_magic frame = record r {
    stats = count_rejected r.stats FrameDecodeResult.bad_magic;
  }
  on_decoded r FrameDecodeResult.crc_fail frame = record r {
    stats = count_rejected r.stats FrameDecodeResult.crc_fail;
  }
  on_decoded r FrameDecodeResult.unparsable frame = record r {
    stats = count_rejected r.stats FrameDecodeResult.unparsable;
  }

  unfoldable pub on_datagram : Receiver → List ℕ → Receiver
  unfolding on_decoded
  on_datagram r bytes =
      let (result, frame) = decode_frame frames cpu bytes (length bytes) in
      on_decoded r result frame

  unfoldable pub on_batch : Receiver → List (List ℕ) → Receiver
  unfolding on_datagram
  on_batch r [] = r
  on_batch r (bytes ∷ batch) = on_batch (on_datagram r bytes) batch
