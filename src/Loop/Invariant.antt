-- ===== src/Loop/Invariant.antt =====
-- main.cpp: the loop's invariant, over any run of it.
use receiver.Prelude.{
  ℕ, ◌+◌, ◌≤◌, ◌≡◌, inl, inr, subst, arith, List, [], ◌∷◌, ◌++◌, length, u64, ltb, Bool-cases,
  Option-cases, Option, some, find_key, put_key, find_key-put_key, bytes_eq,
}
use mathlib.Core.Option.{some-injective}
use receiver.Dispatch.{FrameDecodeResult, decode_frame}
use receiver.Pipeline.{DataPacketOutcome, handle_data_packet}
use receiver.Pipeline.Serving.{IsServing, handle_data_packet-IsServing}
use receiver.Loop.{
  Platform, Stats, Receiver, NetMessage, Datagram, EarlySession, max_buffered_per_session,
  buffer_early, on_data, on_manifest, on_message, on_decoded, on_datagram, on_batch, count_outcome,
  after_outcome,
}

-- No buffer holds more than its bound.
abbrev pub IsBounded : List (List ℕ × EarlySession) → Type 0
IsBounded early =
    (id : List ℕ) (es : EarlySession)
    → find_key id early ≡ some es
    → length es.buffered ≤ max_buffered_per_session

pub record IsReceiver (n_of : List ℕ → ℕ) (r : Receiver) : Type 0 where
  pub serving : IsServing n_of r.pipeline
  pub bounded : IsBounded r.early_sessions

length-append_one : {A : Type 0} (xs : List A) (x : A) → length (xs ++ x ∷ []) ≡ length xs + 1
length-append_one [] x = omega arith
length-append_one (y ∷ xs) x = omega (arith, length-append_one xs x)

put_key-IsBounded :
    (early : List (List ℕ × EarlySession)) (id : List ℕ) (es : EarlySession)
    → IsBounded early
    → length es.buffered ≤ max_buffered_per_session
    → IsBounded (put_key id es early)
put_key-IsBounded early id es h fits j c found = elim (Bool-cases (bytes_eq id j)) [
  | inl own ↦
      subst (λ (x : EarlySession). length x.buffered ≤ max_buffered_per_session)
        (some-injective es c (rw (find_key-put_key, own) at found)) fits
  | inr other ↦ h j c (rw (find_key-put_key, other) at found)
]

buffer_early-IsBounded :
    (early : List (List ℕ × EarlySession)) (id : List ℕ) (d : Datagram)
    → IsBounded early
    → IsBounded (buffer_early early id d)
unfolding buffer_early
buffer_early-IsBounded early id d h = elim (Option-cases (find_key id early)) [
  | inl unknown ↦ rw (unknown, buffer_early) h
  | inr (es, known) ↦
      rw (known, buffer_early)
        (elim (Bool-cases (ltb (length es.buffered) max_buffered_per_session)) [
          | inr full ↦ rw full h
          | inl room ↦
              rw room
                (put_key-IsBounded early id _ h (ground (arith, length-append_one es.buffered d)))
        ])
]

module _ (n_of : List ℕ → ℕ) (sys : Platform) (receiver_id : ℕ) where
  open sys use {frames, cpu, lib, os, message_of, envelopes, session_open_of, purged_id_of}

  after_outcome-IsReceiver :
      (r : Receiver) (id : List ℕ) (d : Datagram) (outcome : DataPacketOutcome) (out : Option ℕ)
      → IsReceiver n_of r
      → IsReceiver n_of (after_outcome sys receiver_id r id d outcome out)
  unfolding after_outcome
  after_outcome-IsReceiver r id d DataPacketOutcome.unknown_session out v = record {
    serving = v.serving;
    bounded = buffer_early-IsBounded r.early_sessions id d v.bounded;
  }
  after_outcome-IsReceiver r id d DataPacketOutcome.block_decoded out v = record {
    serving = v.serving;
    bounded = v.bounded;
  }
  after_outcome-IsReceiver r id d DataPacketOutcome.registered_only out v = v
  after_outcome-IsReceiver r id d DataPacketOutcome.duplicate out v = v
  after_outcome-IsReceiver r id d DataPacketOutcome.arena_exhausted out v = v
  after_outcome-IsReceiver r id d DataPacketOutcome.invalid_block_or_symbol out v = v

  on_data-IsReceiver :
      (r : Receiver) (id : List ℕ) (d : Datagram)
      → IsReceiver n_of r
      → IsReceiver n_of (on_data sys receiver_id r id d)
  unfolding on_data
  on_data-IsReceiver r id d v =
      let (outcome, out, p) =
        handle_data_packet lib os r.pipeline id d.block_id d.symbol_id d.payload in
      after_outcome-IsReceiver (record r { pipeline = p; stats = count_outcome r.stats outcome }) id
        d outcome out
        (record {
          serving =
              handle_data_packet-IsServing n_of lib os r.pipeline v.serving id d.block_id
                d.symbol_id d.payload;
          bounded = v.bounded;
        })

  on_manifest-IsReceiver :
      (r : Receiver) (id m : List ℕ)
      → IsReceiver n_of r
      → IsReceiver n_of (on_manifest sys receiver_id r id m)
  unfolding on_manifest
  on_manifest-IsReceiver r id m v = elim (Option-cases (find_key id r.early_sessions)) [
    | inr (es, known) ↦ rw (known, on_manifest) v
    | inl fresh ↦
        rw (fresh, on_manifest)
          (record {
            serving = v.serving;
            bounded = put_key-IsBounded r.early_sessions id _ v.bounded (omega arith);
          })
  ]

  on_message-IsReceiver :
      (r : Receiver) (m : NetMessage)
      → IsReceiver n_of r
      → IsReceiver n_of (on_message sys receiver_id r m)
  unfolding on_message
  on_message-IsReceiver r (NetMessage.data_packet id b s payload) v =
      on_data-IsReceiver r id (record { block_id = b; symbol_id = s; payload = payload }) v
  on_message-IsReceiver r (NetMessage.manifest id m) v = on_manifest-IsReceiver r id m v
  on_message-IsReceiver r NetMessage.session_end v = v
  on_message-IsReceiver r NetMessage.other_message v = v

  -- The counters are no part of the invariant.
  recounted :
      (r : Receiver) (s : Stats) → IsReceiver n_of r → IsReceiver n_of (record r { stats = s })
  recounted r s v = record { serving = v.serving; bounded = v.bounded }

  on_decoded-IsReceiver :
      (r : Receiver) (result : FrameDecodeResult) (frame : frames.Frame)
      → IsReceiver n_of r
      → IsReceiver n_of (on_decoded sys receiver_id r result frame)
  unfolding on_decoded
  on_decoded-IsReceiver r FrameDecodeResult.ok frame v =
      on_message-IsReceiver
        (record r { stats = record r.stats { pkts_ok = u64 (r.stats.pkts_ok + 1) } })
        (message_of frame) (recounted r _ v)
  on_decoded-IsReceiver r FrameDecodeResult.bad_magic frame v = recounted r _ v
  on_decoded-IsReceiver r FrameDecodeResult.crc_fail frame v = recounted r _ v
  on_decoded-IsReceiver r FrameDecodeResult.unparsable frame v = recounted r _ v

  pub on_batch-IsReceiver :
      (r : Receiver) (batch : List (List ℕ))
      → IsReceiver n_of r
      → IsReceiver n_of (on_batch sys receiver_id r batch)
  unfolding on_batch on_datagram
  on_batch-IsReceiver r [] v = v
  on_batch-IsReceiver r (bytes ∷ batch) v =
      let (result, frame) = decode_frame frames cpu bytes (length bytes) in
      on_batch-IsReceiver (on_datagram sys receiver_id r bytes) batch
        (on_decoded-IsReceiver r result frame v)
