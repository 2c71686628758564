-- ===== src/Shm/Arena.antt =====
-- shm_manager.cpp: the free list of the arena's slots and its statistics. An operation is the run of
-- its compare-exchange loop in which no other process interferes.
pub mod FreeList
use receiver.Prelude.{
  ℕ, zero, suc, ◌-◌, ◌*◌, ◌/◌, ◌%◌, ◌^◌, ◌+◌, bit_and, bit_or, Bool, true, false, if◌then◌else◌,
  ◌==◌, ltb, u32, shl, shr, u64, List,
}
use receiver.Shm.Layout.{list_end, slot_size}
use receiver.Shm.Memory.{Bytes, read64, write64, store}
use receiver.Shm.Segment.{ShmHeader, Segment, slot_at}

unfoldable pub pack_head : ℕ → ℕ → ℕ
pack_head idx gen = bit_or (shl gen 32) idx

unfoldable pub head_idx : ℕ → ℕ
head_idx packed = u32 (bit_and packed 0xFFFFFFFF)

unfoldable pub head_gen : ℕ → ℕ
head_gen packed = u32 (shr packed 32)

unfoldable pub note_alloc : ShmHeader → ShmHeader
note_alloc h =
    let now = u32 (h.used_slots + 1) in
    record h {
      used_slots = now;
      high_water_used = if ltb h.high_water_used now then now else h.high_water_used;
    }

-- The head after the top slot is taken off.
abbrev pub popped : Segment → ℕ → ℕ
popped s old_head =
    pack_head (u32 (read64 s.arena (slot_at (head_idx old_head)))) (u32 (head_gen old_head + 1))

unfoldable pub alloc_slot : Segment → ℕ × Segment
unfolding note_alloc
alloc_slot s =
    let old_head = s.header.free_list_head in
    if head_idx old_head == list_end then (list_end, s) else (
      head_idx old_head,
      record s { header = note_alloc (record s.header { free_list_head = popped s old_head }) },
    )

unfoldable pub free_slot : Segment → ℕ → Segment
free_slot s slot =
    let old_head = s.header.free_list_head in
    record s {
      arena = write64 s.arena (slot_at slot) (head_idx old_head);
      header = record s.header {
        free_list_head = pack_head slot (u32 (head_gen old_head + 1));
        used_slots = u32 (s.header.used_slots + 2 ^ 32 - 1);
      };
    }

unfoldable pub used_slot_count : Segment → ℕ
used_slot_count s = s.header.used_slots

unfoldable pub free_slot_count : Segment → ℕ
unfolding used_slot_count
free_slot_count s = u32 (s.header.slot_count + 2 ^ 32 - used_slot_count s)

unfoldable pub arena_has_capacity : Segment → Bool
unfolding free_slot_count
arena_has_capacity s = ltb 0 (free_slot_count s)

unfoldable pub high_water_used_count : Segment → ℕ
high_water_used_count s = s.header.high_water_used

-- `memcpy(slot(idx).data(), payload, payload_len)`
unfoldable pub fill_slot : Segment → ℕ → List ℕ → Segment
unfolding store
fill_slot s idx payload = record s { arena = store s.arena (slot_at idx) payload }

-- The links that `init_header` writes, each slot to the next and the last to the end.
unfoldable pub chain_slots : ℕ → ℕ → Bytes → Bytes
chain_slots slot_count zero mem = mem
chain_slots slot_count (suc i) mem =
    write64 (chain_slots slot_count i mem) (slot_at i)
      (if ltb (i + 1) slot_count then i + 1 else list_end)
