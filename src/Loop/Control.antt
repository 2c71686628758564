-- ===== src/Loop/Control.antt =====
-- main.cpp: the control plane, the heartbeat, and the loop over the wakeups.
use receiver.Prelude.{
  ℕ, ◌-◌, ◌*◌, ◌/◌, Bool, if◌then◌else◌, ◌==◌, leb, List, [], ◌∷◌, Option, some, none, find_key,
  erase_key, u32, u64,
}
use receiver.Envelope.{
  RxMessage, RxEnvelopeCase, parse_incoming, build_block_decoded, build_heartbeat,
  build_receiver_stats,
}
use receiver.Shm.Segment.{Segment}
use receiver.Pipeline.{
  DataPacketOutcome, SessionOpen, handle_data_packet, handle_session_open, purge_session,
}
use receiver.Loop.{
  Platform, Datagram, Receiver, ReceiverStats, send, or_zero, count_replayed, heartbeat_interval,
  on_batch,
}

-- What one `poll` that succeeded leads to: whether each socket is readable, the datagrams that
-- `receive_batch` filled in (none if it returns 0 or -1), what `receive` returned, and the clock.
pub record Wakeup : Type 0 where
  pub udp_ready : Bool
  pub batch : List (List ℕ)
  pub uds_ready : Bool
  pub raw : Option (List ℕ)
  pub now : ℕ

-- `static_cast<uint32_t>(high_water_used_pct())`. The double is rounded from a quotient whose distance
-- from the next integer, unless it is one, is at least 2 ^ -32: the cast truncates it as the exact one.
unfoldable pub high_water_used_pct : Segment → ℕ
high_water_used_pct s =
    if s.header.slot_count == 0 then 0 else 100 * s.header.high_water_used / s.header.slot_count

-- The bytes of the member that is set; another member's accessor gives the empty message.
unfoldable pub opened_message : Option RxMessage → List ℕ
opened_message (some (RxMessage.session_open m)) = m
opened_message _ = []

unfoldable pub purged_message : Option RxMessage → List ℕ
purged_message (some (RxMessage.purge_session m)) = m
purged_message _ = []

module _ (sys : Platform) (receiver_id : ℕ) where
  open sys use {envelopes, session_open_of, purged_id_of, stats_to_bytes, lib, os, getpid}

  unfoldable pub report_replayed : Receiver → List ℕ → DataPacketOutcome → Option ℕ → Receiver
  report_replayed r id DataPacketOutcome.block_decoded out =
      send r (build_block_decoded envelopes id receiver_id (or_zero out ∷ []))
  report_replayed r id _ out = r

  unfoldable pub replay_one : Receiver → List ℕ → Datagram → Receiver
  unfolding report_replayed count_replayed
  replay_one r id d =
      let (outcome, out, p) =
        handle_data_packet lib os r.pipeline id d.block_id d.symbol_id d.payload in
      report_replayed (record r { pipeline = p; stats = count_replayed r.stats outcome }) id outcome
        out

  -- The loop over the datagrams that were buffered.
  unfoldable pub replay : Receiver → List ℕ → List Datagram → Receiver
  unfolding replay_one
  replay r id [] = r
  replay r id (d ∷ ds) = replay (replay_one r id d) id ds

  unfoldable pub replay_early : Receiver → List ℕ → Receiver
  unfolding replay
  replay_early r id = elim (find_key id r.early_sessions) [
    | none ↦ r
    | some es ↦
        let replayed = replay r id es.buffered in
        record replayed { early_sessions = erase_key id replayed.early_sessions }
  ]

  -- `none`: still spinning on the lock of the session table.
  unfoldable pub on_session_open : Receiver → SessionOpen → Option Receiver
  unfolding replay_early
  on_session_open r so = elim (handle_session_open lib os r.pipeline so so.file_size) [
    | none ↦ none
    | some (opened, p) ↦
        let r' = record r { pipeline = p } in
        some (if opened then replay_early r' so.session_id else r')
  ]

  unfoldable pub on_purge : Receiver → List ℕ → Option Receiver
  on_purge r id = elim (purge_session r.pipeline id) [
    | none ↦ none
    | some p ↦ some (record r { pipeline = p; early_sessions = erase_key id r.early_sessions })
  ]

  unfoldable pub on_envelope : Receiver → Option RxMessage → RxEnvelopeCase → Option Receiver
  unfolding on_session_open on_purge opened_message purged_message
  on_envelope r envelope RxEnvelopeCase.session_open =
      on_session_open r (session_open_of (opened_message envelope))
  on_envelope r envelope RxEnvelopeCase.purge_session =
      on_purge r (purged_id_of (purged_message envelope))
  on_envelope r envelope _ = some r

  -- What `receive` returned.
  unfoldable pub on_raw : Receiver → Option (List ℕ) → Option Receiver
  unfolding on_envelope
  on_raw r none = some r
  on_raw r (some raw) = elim (parse_incoming envelopes raw) [
    | none ↦ some r
    | some (envelope, kase) ↦ on_envelope r envelope kase
  ]

  unfoldable pub stats_of : Receiver → ReceiverStats
  unfolding high_water_used_pct
  stats_of r = record {
    receiver_id = receiver_id;
    counters = r.stats;
    kernel_drops = 0;
    arena_high_water_pct = u32 (high_water_used_pct r.pipeline.shm);
  }

  unfoldable pub on_clock : Receiver → ℕ → Receiver
  unfolding stats_of high_water_used_pct
  on_clock r now =
      if leb heartbeat_interval (now - r.last_heartbeat)
      then (let beaten = send r (build_heartbeat envelopes (u32 getpid) (u64 (now / 1000000))) in
          record (send beaten (build_receiver_stats envelopes (stats_to_bytes (stats_of r)))) {
            last_heartbeat = now;
          })
      else r

  -- The frames and the message of one wakeup.
  unfoldable pub on_events : Receiver → Wakeup → Option Receiver
  unfolding on_raw
  on_events r w =
      let received = if w.udp_ready then on_batch sys receiver_id r w.batch else r in
      if w.uds_ready then on_raw received w.raw else some received

  -- One round of the loop after `poll`.
  unfoldable pub round : Receiver → Wakeup → Option Receiver
  unfolding on_events on_clock
  round r w = elim (on_events r w) [ none ↦ none | some r' ↦ some (on_clock r' w.now) ]

  -- The loop: the results of `poll` one after the other, `none` for an error, on which it leaves.
  unfoldable pub run : Receiver → List (Option Wakeup) → Option Receiver
  unfolding round
  run r [] = some r
  run r (none ∷ ws) = some r
  run r (some w ∷ ws) = elim (round r w) [ none ↦ none | some r' ↦ run r' ws ]
