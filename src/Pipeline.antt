-- ===== src/Pipeline.antt =====
-- src/receiver/session_pipeline.cpp: from a data packet to a written block.
pub mod Release
pub mod Trigger
pub mod Finish
pub mod Invariant
pub mod Packets
pub mod Decoded
pub mod Durable
pub mod Sessions
pub mod Serving
use receiver.Prelude.{
  ℕ, zero, suc, ◌-◌, ◌*◌, ◌/◌, ◌%◌, ◌^◌, ◌+◌, Bool, true, false, if◌then◌else◌, ◌==◌, ltb, leb, not,
  ◌&&◌, ◌||◌, List, [], ◌∷◌, ◌++◌, Option, none, some, length, find_key, put_key, erase_key,
}
use receiver.Shm.Layout.{slot_idx_free, decode_complete}
use receiver.Shm.Memory.{update, load}
use receiver.Shm.Segment.{Segment, BlockEntry, slot_at, set_block}
use receiver.Shm.Arena.{alloc_slot, free_slot, fill_slot}
use receiver.Shm.Block.{
  SymbolRegisterResult, register_symbol, is_present, try_claim_decode, mark_decode_complete,
  decode_state, slot_of, clear_slot,
}
use receiver.Shm.Session.{SessionParams, open_session, close_session, block_entry}
use receiver.Codec.{IsaL, RsCodec, make_codec, decode}
use receiver.Writer.{Os, BlockWriter, open_writer, write_block, flush_block}

pub data DataPacketOutcome : Type 0 where
  registered_only duplicate unknown_session invalid_block_or_symbol arena_exhausted block_decoded :
      DataPacketOutcome

pub record SessionContext : Type 0 where
  pub session_idx : ℕ
  pub k : ℕ
  pub n : ℕ
  pub symbol_bytes : ℕ
  pub codec : RsCodec
  pub writer : BlockWriter

-- `sessions_`, keyed by session id, and the segment that the pipeline works on.
pub record Pipeline : Type 0 where
  pub shm : Segment
  pub sessions : List (List ℕ × SessionContext)

-- `symbols[s]` of a symbol that is present.
abbrev pub symbol_at : Segment → BlockEntry → ℕ → ℕ → List ℕ
symbol_at s e symbol_bytes symbol = load s.arena (slot_at (slot_of e symbol)) symbol_bytes

-- `present[s]`: the ids from `n` on stay false.
abbrev pub gathered : BlockEntry → ℕ → ℕ → Bool
gathered e n symbol = ltb symbol n && is_present e symbol

abbrev pub release_slot : Segment → ℕ → ℕ → Segment
release_slot s a symbol =
    let freed = free_slot s (slot_of (s.blocks a) symbol) in
    set_block freed a (clear_slot (freed.blocks a) symbol)

-- The last loop of `decode_and_write_block`: free the slot of each symbol that was present, and clear
-- its link.
unfoldable pub release_slots : (ℕ → Bool) → ℕ → ℕ → Segment → Segment
release_slots present a zero s = s
release_slots present a (suc symbol) s =
    let rest = release_slots present a symbol s in
    if present symbol then release_slot rest a symbol else rest

-- The bytes are written and durable: mark the block and release its slots.
unfoldable pub finish_block : Segment → ℕ → ℕ → Bool × Segment
unfolding release_slots
finish_block s n a =
    let (marked, e) = mark_decode_complete (s.blocks a) in
    if marked
    then (true, release_slots (gathered (s.blocks a) n) a n (set_block s a e))
    else (false, s)

-- The block entry is at offset `a`.
unfoldable pub decode_and_write_block :
    IsaL → Os → Segment → SessionContext → ℕ → ℕ → Bool × Segment × SessionContext
unfolding finish_block
decode_and_write_block lib os s ctx block_id a =
    elim (decode lib ctx.codec (symbol_at s (s.blocks a) ctx.symbol_bytes)
      (gathered (s.blocks a) ctx.n)) [
        | none ↦ (false, s, ctx)
        | some decoded ↦
            let (written, w) = write_block ctx.writer block_id decoded in
            if not written
            then (false, s, ctx)
            else let (flushed, w') = flush_block os w block_id in
              if not flushed
              then (false, s, record ctx { writer = w' })
              else let (done, s') = finish_block s ctx.n a in (done, s', record ctx { writer = w' })
      ]

-- The outcome of a packet, what it stores through `out_decoded_block_id`, and the segment and context
-- that it leaves.
pub record Handled : Type 0 where
  pub outcome : DataPacketOutcome
  pub out_decoded_block_id : Option ℕ
  pub shm : Segment
  pub context : SessionContext

abbrev pub handled : DataPacketOutcome → Segment → SessionContext → Handled
handled outcome s ctx = record {
  outcome = outcome;
  out_decoded_block_id = none;
  shm = s;
  context = ctx;
}

-- What is reported of a claim that was won.
abbrev pub report_decode : ℕ → Bool × Segment × SessionContext → Handled
report_decode block_id (true, s, ctx) = record {
  outcome = block_decoded;
  out_decoded_block_id = some block_id;
  shm = s;
  context = ctx;
}
report_decode block_id (false, s, ctx) = handled registered_only s ctx

-- After a new symbol: decode if the threshold is reached and the claim is won.
unfoldable pub check_threshold : IsaL → Os → Segment → SessionContext → ℕ → ℕ → Handled
unfolding decode_and_write_block
check_threshold lib os s ctx block_id a =
    if leb ctx.k (s.blocks a).seen
    then (let (won, e) = try_claim_decode (s.blocks a) in
        if won
        then report_decode block_id (decode_and_write_block lib os (set_block s a e) ctx block_id a)
        else handled registered_only s ctx)
    else handled registered_only s ctx

-- The slot holds the payload: register it, or give the slot back.
unfoldable pub register_slot : IsaL → Os → Segment → SessionContext → ℕ → ℕ → ℕ → ℕ → Handled
unfolding check_threshold
register_slot lib os s ctx block_id a symbol_id slot =
    let (result, e) = register_symbol (s.blocks a) symbol_id slot in
    elim result [
      | SymbolRegisterResult.new_symbol ↦ check_threshold lib os (set_block s a e) ctx block_id a
      | SymbolRegisterResult.duplicate ↦ handled duplicate (free_slot s slot) ctx
      | SymbolRegisterResult.invalid_symbol_id ↦
          handled invalid_block_or_symbol (free_slot s slot) ctx
    ]

-- The block is known: the checks before a slot is taken, the slot, and the copy.
unfoldable pub handle_in_block : IsaL → Os → Segment → SessionContext → ℕ → ℕ → ℕ → List ℕ → Handled
unfolding register_slot
handle_in_block lib os s ctx block_id a symbol_id payload =
    if decode_state (s.blocks a) == decode_complete
    then handled duplicate s ctx
    else if is_present (s.blocks a) symbol_id
    then handled duplicate s ctx
    else let (slot, s') = alloc_slot s in
      if slot == slot_idx_free
      then handled arena_exhausted s' ctx
      else register_slot lib os (fill_slot s' slot payload) ctx block_id a symbol_id slot

unfoldable pub handle_in_session : IsaL → Os → Segment → SessionContext → ℕ → ℕ → List ℕ → Handled
unfolding handle_in_block
handle_in_session lib os s ctx block_id symbol_id payload =
    if leb ctx.n symbol_id || not (length payload == ctx.symbol_bytes)
    then handled invalid_block_or_symbol s ctx
    else elim (block_entry s ctx.session_idx block_id) [
      | none ↦ handled invalid_block_or_symbol s ctx
      | some a ↦ handle_in_block lib os s ctx block_id a symbol_id payload
    ]

-- Outcome, decoded block and new state.
unfoldable pub handle_data_packet :
    IsaL → Os → Pipeline → List ℕ → ℕ → ℕ → List ℕ → DataPacketOutcome × Option ℕ × Pipeline
unfolding handle_in_session
handle_data_packet lib os p session_id block_id symbol_id payload =
    elim (find_key session_id p.sessions) [
      | none ↦ (unknown_session, none, p)
      | some ctx ↦
          let h = handle_in_session lib os p.shm ctx block_id symbol_id payload in
          (
            h.outcome,
            h.out_decoded_block_id,
            record { shm = h.shm; sessions = put_key session_id h.context p.sessions },
          )
    ]

-- The fields of `SessionOpen` that the handler reads.
pub record SessionOpen : Type 0 where
  pub session_id : List ℕ
  pub k : ℕ
  pub n : ℕ
  pub block_bytes : ℕ
  pub total_blocks : ℕ
  pub file_size : ℕ
  pub dest_path : List ℕ

abbrev pub params_of : SessionOpen → ℕ → SessionParams
params_of msg file_size = record {
  session_id = msg.session_id;
  k = msg.k;
  n = msg.n;
  symbol_bytes = msg.block_bytes;
  total_blocks = msg.total_blocks;
  file_size = file_size;
  dest_path = msg.dest_path;
}

-- A writer as its constructor leaves it.
abbrev pub new_writer : BlockWriter
new_writer = record {
  fd = none;
  mapped = false;
  file_size = 0;
  block_bytes = 0;
  view = λ _. 0;
  disk = λ _. 0;
}

-- The context of a session whose entry is `idx`.
unfoldable pub add_context : IsaL → Os → Pipeline → SessionOpen → ℕ → ℕ → Bool × Pipeline
add_context lib os p msg file_size idx =
    let (opened, w) = open_writer os new_writer msg.dest_path file_size msg.k msg.block_bytes in
    if opened
    then (
      true,
      record p {
        sessions =
            put_key msg.session_id
              (record {
                session_idx = idx;
                k = msg.k;
                n = msg.n;
                symbol_bytes = msg.block_bytes;
                codec = make_codec lib msg.k msg.n msg.block_bytes;
                writer = w;
              })
              p.sessions;
      },
    )
    else (false, p)

-- Outer `none`: still spinning on the lock of the session table.
unfoldable pub handle_session_open :
    IsaL → Os → Pipeline → SessionOpen → ℕ → Option (Bool × Pipeline)
unfolding add_context
handle_session_open lib os p msg file_size = elim (find_key msg.session_id p.sessions) [
  | some ctx ↦ some (true, p)
  | none ↦ elim (open_session p.shm (params_of msg file_size)) [
    | none ↦ none
    | some (none, s) ↦ some (false, record p { shm = s })
    | some (some idx, s) ↦ some (add_context lib os (record p { shm = s }) msg file_size idx)
  ]
]

unfoldable pub purge_session : Pipeline → List ℕ → Option Pipeline
purge_session p session_id = elim (close_session p.shm (some session_id)) [
  | none ↦ none
  | some (closed, s) ↦ some (record { shm = s; sessions = erase_key session_id p.sessions })
]
