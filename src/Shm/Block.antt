-- ===== src/Shm/Block.antt =====
-- shm_manager.cpp, `BlockView`: registration of symbols and the decode latch of one block. An
-- operation is its run without interference; Shm.Race has the interleavings of registrations.
pub mod Symbols
pub mod Latch
use receiver.Prelude.{
  ℕ, zero, suc, ◌-◌, ◌*◌, ◌/◌, ◌%◌, ◌^◌, ◌+◌, bit_and, bit_or, Bool, true, false, if◌then◌else◌,
  ◌==◌, ltb, leb, not, u32,
}
use receiver.Shm.Layout.{max_n, slot_idx_free, decode_pending, decode_claimed, decode_complete}
use receiver.Shm.Memory.{update}
use receiver.Shm.Segment.{BlockEntry}

pub data SymbolRegisterResult : Type 0 where
  new_symbol duplicate invalid_symbol_id : SymbolRegisterResult

-- `uint64_t(1) << (symbol_id % 64)`; the shift is below 64, so nothing is lost.
abbrev pub symbol_bit : ℕ → ℕ
symbol_bit symbol_id = 2 ^ (symbol_id % 64)

-- `old_word & bit`, as a condition.
abbrev pub word_has : ℕ → ℕ → Bool
word_has word symbol_id = not (bit_and word (symbol_bit symbol_id) == 0)

-- What the winner of the compare-exchange leaves.
abbrev pub registered : BlockEntry → ℕ → ℕ → BlockEntry
registered e symbol_id slot = record e {
  present_mask =
      update e.present_mask (symbol_id / 64)
        (bit_or (e.present_mask (symbol_id / 64)) (symbol_bit symbol_id));
  slot_idx = update e.slot_idx symbol_id slot;
  seen = u32 (e.seen + 1);
}

unfoldable pub register_symbol : BlockEntry → ℕ → ℕ → SymbolRegisterResult × BlockEntry
register_symbol e symbol_id slot =
    if leb max_n symbol_id
    then (invalid_symbol_id, e)
    else if word_has (e.present_mask (symbol_id / 64)) symbol_id
    then (duplicate, e)
    else (new_symbol, registered e symbol_id slot)

unfoldable pub is_present : BlockEntry → ℕ → Bool
is_present e symbol_id =
    if leb max_n symbol_id then false else word_has (e.present_mask (symbol_id / 64)) symbol_id

unfoldable pub try_claim_decode : BlockEntry → Bool × BlockEntry
try_claim_decode e =
    if e.decoded == decode_pending
    then (true, record e { decoded = decode_claimed })
    else (false, e)

unfoldable pub mark_decode_complete : BlockEntry → Bool × BlockEntry
mark_decode_complete e =
    if e.decoded == decode_claimed
    then (true, record e { decoded = decode_complete })
    else (false, e)

unfoldable pub decode_state : BlockEntry → ℕ
decode_state e = e.decoded

-- `BlockView::slot_idx`
unfoldable pub slot_of : BlockEntry → ℕ → ℕ
slot_of e symbol_id = if ltb symbol_id max_n then e.slot_idx symbol_id else slot_idx_free

unfoldable pub clear_slot : BlockEntry → ℕ → BlockEntry
clear_slot e symbol_id =
    if ltb symbol_id max_n
    then record e { slot_idx = update e.slot_idx symbol_id slot_idx_free }
    else e
