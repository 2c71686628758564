-- ===== src/Examples/Shared.antt =====
-- The shared segment's operations at one segment, and the writer's at one file.
use receiver.Prelude.{ℕ, ◌+◌, ◌*◌, ◌/◌, ◌^◌, ◌<◌, ◌≤◌, ◌≡◌, [], ◌∷◌, some, refl, arith, get_or}
use receiver.Shm.Layout.{table_offset, entry_offset, decode_claimed}
use receiver.Shm.Segment.{Segment}
use receiver.Shm.Arena.{alloc_slot, free_slot, note_alloc, head_idx}
use receiver.Shm.Arena.FreeList.{IsArena, alloc_slot-cons, free_slot-IsArena}
use receiver.Shm.Block.Symbols.{zero_entry-absent}
use receiver.Shm.Session.{block_entry}
use receiver.Shm.Ownership.Defs.{IsSegment}
use receiver.Shm.Ownership.Register.{register-IsSegment, stored}
use receiver.Shm.Ownership.Latch.{latched}
use receiver.Writer.{write_block, flush_block, block_off, block_len}
use receiver.Writer.Blocks.{flush_block-write_block, blocks_tile}
use receiver.Examples.Segments.{segment, segment-IsArena, segment-IsSegment}
use receiver.Examples.Packets.{os, writer}

popped-IsArena : IsArena (alloc_slot segment).1 (1 ∷ [])
popped-IsArena = (alloc_slot-cons segment 0 (1 ∷ []) segment-IsArena).1

two_slots : 0 < (alloc_slot segment).1.header.slot_count
unfolding alloc_slot note_alloc head_idx
two_slots = omega arith

free_slot-IsArena_example : IsArena (free_slot (alloc_slot segment).1 0) (0 ∷ 1 ∷ [])
free_slot-IsArena_example =
    free_slot-IsArena (alloc_slot segment).1 0 (1 ∷ []) popped-IsArena two_slots
      ((λ e. omega arith), tt)

-- Block 1 of the open session, claimed once its symbol 1 is in slot 0.
abbrev pub entry_1 : ℕ
entry_1 = entry_offset (table_offset 8192 0) 1

abbrev pub one_symbol : Segment
one_symbol = stored segment (1 ∷ []) (7 ∷ []) 0 0 1 entry_1 1

abbrev claimed : Segment
claimed = latched one_symbol entry_1 decode_claimed

at_entry_1 : block_entry segment 0 1 ≡ some entry_1
unfolding block_entry
at_entry_1 = refl

pub one_symbol-IsSegment : IsSegment one_symbol (1 ∷ [])
one_symbol-IsSegment =
    register-IsSegment segment (1 ∷ []) (7 ∷ []) 0 0 1 entry_1 1 segment-IsSegment at_entry_1
      (omega arith) (omega arith) (zero_entry-absent 1) (omega arith)

flush_block-write_block_example :
    (flush_block os (write_block writer 1 (7 ∷ [])).1 1).1.disk (block_off writer 1 + 0)
    ≡ get_or (7 ∷ []) 0 0
unfolding write_block flush_block
flush_block-write_block_example =
    flush_block-write_block os writer 1 (7 ∷ []) refl refl 0 (omega arith) (omega arith)

blocks_tile_example :
    ((block_off writer (1 / 1) ≤ 1) × (1 < block_off writer (1 / 1) + block_len writer (1 / 1)))
    × ((block_id : ℕ)
        → block_id * 1 < 2 ^ 64
        → block_off writer block_id ≤ 1
        → 1 < block_off writer block_id + block_len writer block_id
        → block_id ≡ 1 / 1)
blocks_tile_example = blocks_tile writer (omega arith) 1 (omega arith) (omega arith)
