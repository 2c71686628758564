-- ===== src/Examples/Receivers.antt =====
-- A receiver with one open session, on a platform with two messages of the manager.
use receiver.Prelude.{
  ℕ, ◌≤◌, ◌≡◌, inl, inr, true, List, [], ◌∷◌, Option, some, none, refl, sym, subst, arith, ◌==◌,
  find_key, bytes_eq, length, Bool-cases, bytes_eq→eq, if◌then◌else◌,
}
use mathlib.Core.Option.{some-ne-none}
use receiver.Shm.Layout.{session_state_open}
use receiver.Envelope.{RxMessage, EnvelopeClass}
use receiver.Pipeline.{SessionContext}
use receiver.Pipeline.Serving.{IsServing, IsLive}
use receiver.Loop.First.{no_stats}
use receiver.Loop.{Platform, NetMessage, Receiver, Datagram, EarlySession}
use receiver.Loop.Invariant.{IsReceiver}
use receiver.Examples.Segments.{segment, session_id}
use receiver.Examples.Codes.{repetition}
use receiver.Examples.Frames.{cpu}
use receiver.Examples.Packets.{os, pipeline, pipeline-IsPipeline, only_context, second}

-- A tag 1 opens a session, any other purges one.
unfoldable pub parsed : List ℕ → Option (Option RxMessage)
parsed [] = none
parsed (tag ∷ m) =
    if tag == 1
    then some (some (RxMessage.session_open m))
    else some (some (RxMessage.purge_session m))

abbrev pub envelopes : EnvelopeClass
envelopes = record {
  serialize_to_string = λ m. [];
  parse_from_string = parsed;
  nexus_proto_hash = [];
}

-- Every frame is a data packet of the open session; the messages open the second one and purge the
-- first.
abbrev pub platform : Platform
platform = record {
  frames = record {
    Frame = List ℕ;
    cleared = [];
    parse_from_array = λ body. (true, body);
    msg_set = λ frame. true;
  };
  message_of = λ frame. NetMessage.data_packet session_id 1 1 frame;
  envelopes = envelopes;
  session_open_of = λ m. second;
  purged_id_of = λ m. session_id;
  stats_to_bytes = λ s. s.counters.pkts_ok ∷ [];
  lib = repetition;
  os = os;
  cpu = cpu;
  getpid = 42;
}

abbrev pub packet : Datagram
packet = record { block_id = 1; symbol_id = 1; payload = 7 ∷ [] }

abbrev pub early : EarlySession
early = record { manifest = 9 ∷ []; buffered = packet ∷ [] }

-- A receiver that keeps a packet of `early_sessions`.
abbrev pub receiver_with : List (List ℕ × EarlySession) → Receiver
receiver_with early_sessions = record {
  pipeline = pipeline;
  early_sessions = early_sessions;
  stats = no_stats;
  last_heartbeat = 0;
  sent = [];
}

only_first : (i : ℕ) → (segment.sessions i).state ≡ session_state_open → 0 ≡ i
only_first i h = ground arith

known_id :
    (id : List ℕ) (ctx : SessionContext)
    → find_key id pipeline.sessions ≡ some ctx
    → session_id ≡ id
unfolding find_key
known_id id ctx found = elim (Bool-cases (bytes_eq session_id id)) [
  | inl own ↦ bytes_eq→eq session_id id own
  | inr other ↦ absurd (some-ne-none ctx (sym (rw other at found)))
]

pipeline-IsServing : IsServing (λ _. 2) pipeline
pipeline-IsServing = record {
  pipeline = pipeline-IsPipeline;
  live = λ id ctx found.
      subst (λ (c : SessionContext). IsLive segment id c.session_idx) (only_context id ctx found)
        (subst (λ (j : List ℕ). IsLive segment j 0) (known_id id ctx found)
          ((omega arith, refl), refl));
  named = λ i (lt, opened).
      subst
        (λ (j : ℕ). (length (segment.sessions j).session_id ≤ 63) × ((segment.sessions j).n ≡ 2))
        (only_first i opened) (omega arith, refl);
}

pub example-IsReceiver : IsReceiver (λ _. 2) (receiver_with [])
unfolding find_key
example-IsReceiver = record {
  serving = pipeline-IsServing;
  bounded = λ id es found. absurd (some-ne-none es (sym found));
}
