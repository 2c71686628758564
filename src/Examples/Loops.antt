-- ===== src/Examples/Loops.antt =====
-- The main loop over the pipeline with one open session.
use receiver.Prelude.{
  ℕ, ◌+◌, ◌<◌, ◌≤◌, ◌≡◌, ◌⊎◌, true, false, List, [], ◌∷◌, ◌++◌, Option, some, none, refl, arith,
  find_key, erase_key, bytes_eq,
}
use receiver.Envelope.{build_manifest_seen}
use receiver.Pipeline.{SessionOpen, handle_session_open}
use receiver.Loop.{NetMessage, Receiver, EarlySession, heartbeat_interval, on_manifest, on_batch}
use receiver.Loop.Control.{Wakeup, round, on_events, on_session_open, on_clock}
use receiver.Loop.Replay.{arrivals, on_session_open-arrivals}
use receiver.Loop.Counts.{counted, on_batch-counted}
use receiver.Loop.Manifests.{on_messages, on_manifest-once, on_manifest-on_session_open}
use receiver.Loop.Heartbeat.{heartbeat_messages, round-beats}
use receiver.Examples.Segments.{session_id}
use receiver.Examples.Codes.{repetition}
use receiver.Examples.Packets.{os, pipeline}
use receiver.Examples.Receivers.{envelopes, platform, packet, early, receiver_with}

abbrev wakeup : List ℕ → ℕ → Wakeup
wakeup raw now = record {
  udp_ready = true;
  batch = [] ∷ (1 ∷ 2 ∷ []) ∷ [];
  uds_ready = true;
  raw = some raw;
  now = now;
}

abbrev reopened : SessionOpen
reopened = record {
  session_id = session_id;
  k = 1;
  n = 2;
  block_bytes = 1;
  total_blocks = 2;
  file_size = 2;
  dest_path = [];
}

abbrev with_early : Receiver
with_early = receiver_with ((session_id, early) ∷ [])

opens_again :
    handle_session_open repetition os pipeline reopened reopened.file_size ≡ some (true, pipeline)
unfolding handle_session_open find_key bytes_eq
opens_again = refl

early_found : find_key session_id ((session_id, early) ∷ []) ≡ some early
unfolding find_key bytes_eq
early_found = refl

-- The receiver after the open.
abbrev after_open : Receiver
after_open =
    arrivals platform 7
      (record with_early {
        pipeline = pipeline;
        early_sessions = erase_key session_id ((session_id, early) ∷ []);
      })
      session_id (packet ∷ [])

on_session_open-arrivals_example : on_session_open platform 7 with_early reopened ≡ some after_open
on_session_open-arrivals_example =
    on_session_open-arrivals platform 7 with_early reopened early pipeline opens_again early_found

on_batch-counted_example :
    counted (on_batch platform 7 (receiver_with []) ([] ∷ (1 ∷ []) ∷ [])).stats ≡ 2
on_batch-counted_example = on_batch-counted platform 7 (receiver_with []) ([] ∷ (1 ∷ []) ∷ [])

unknown : find_key {V = EarlySession} session_id [] ≡ none
unfolding find_key
unknown = refl

on_manifest-once_example :
    let first = on_manifest platform 7 (receiver_with []) session_id (9 ∷ []) in
    let later =
      on_messages platform 7 first (NetMessage.data_packet session_id 0 0 (5 ∷ []) ∷ []) in
    (first.sent ≡ build_manifest_seen envelopes 7 (9 ∷ []) ∷ [])
    × (on_manifest platform 7 later session_id (8 ∷ []) ≡ later)
on_manifest-once_example =
    on_manifest-once platform 7 (receiver_with []) session_id (9 ∷ []) (8 ∷ [])
      (NetMessage.data_packet session_id 0 0 (5 ∷ []) ∷ []) unknown

abbrev idle : Wakeup
idle = record { udp_ready = false; batch = []; uds_ready = false; raw = none; now = 2000000000 }

round-idle :
    round platform 7 (receiver_with []) idle
    ≡ some (on_clock platform 7 (receiver_with []) 2000000000)
unfolding round on_events
round-idle = refl

round-beats_example :
    let r' = on_clock platform 7 (receiver_with []) 2000000000 in
    (2000000000 < r'.last_heartbeat + heartbeat_interval)
    × ((handled : Receiver) × (on_events platform 7 (receiver_with []) idle ≡ some handled)
        × (((2000000000 < 0 + heartbeat_interval) × (r' ≡ handled))
            ⊎ ((0 + heartbeat_interval ≤ 2000000000)
                × (r'.last_heartbeat ≡ 2000000000)
                × (r'.sent ≡ handled.sent ++ heartbeat_messages platform 7 handled 2000000000))))
round-beats_example =
    round-beats platform 7 (receiver_with []) (on_clock platform 7 (receiver_with []) 2000000000)
      idle round-idle (omega arith)

on_manifest-on_session_open_example :
    (on_manifest platform 7 after_open session_id (9 ∷ [])).sent
    ≡ after_open.sent ++ build_manifest_seen envelopes 7 (9 ∷ []) ∷ []
on_manifest-on_session_open_example =
    on_manifest-on_session_open platform 7 with_early after_open reopened pipeline (9 ∷ [])
      opens_again on_session_open-arrivals_example
