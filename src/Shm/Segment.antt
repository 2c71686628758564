-- ===== src/Shm/Segment.antt =====
-- shm_manager.hpp: the structures of the segment.
use receiver.Prelude.{ℕ, List, ◌*◌}
use receiver.Shm.Layout.{slot_size}
use receiver.Shm.Memory.{Bytes, update}

pub record ShmHeader : Type 0 where
  pub magic : ℕ
  pub version : ℕ
  pub slot_size : ℕ
  pub slot_count : ℕ
  pub free_list_head : ℕ
  pub used_slots : ℕ
  pub high_water_used : ℕ
  pub session_open_lock : ℕ
  pub session_table_offset : ℕ
  pub block_table_region_offset : ℕ
  pub arena_offset : ℕ
  pub total_size : ℕ
  pub owner_pid : ℕ
  pub boot_id : List ℕ

-- A `char` array that holds a C string is the list of its characters before the NUL.
pub record SessionEntry : Type 0 where
  pub session_id : List ℕ
  pub state : ℕ
  pub k : ℕ
  pub n : ℕ
  pub symbol_bytes : ℕ
  pub total_blocks : ℕ
  pub file_size : ℕ
  pub hash : List ℕ
  pub dest_path : List ℕ
  pub block_table_offset : ℕ
  pub bitmap_offset : ℕ

-- `present_mask` by word, `slot_idx` by symbol.
pub record BlockEntry : Type 0 where
  pub present_mask : ℕ → ℕ
  pub seen : ℕ
  pub decoded : ℕ
  pub slot_idx : ℕ → ℕ

-- An entry of zero bytes.
abbrev pub zero_entry : BlockEntry
zero_entry = record { present_mask = λ _. 0; seen = 0; decoded = 0; slot_idx = λ _. 0 }

-- The mapped bytes by region: the header, the session table by index, the block tables by the byte
-- offset of an entry, and the arena by the byte offset from its start.
pub record Segment : Type 0 where
  pub header : ShmHeader
  pub sessions : ℕ → SessionEntry
  pub blocks : ℕ → BlockEntry
  pub arena : Bytes

-- `arena_ + uint64_t(idx) * SLOT_SIZE`, from the start of the arena.
abbrev pub slot_at : ℕ → ℕ
slot_at idx = idx * slot_size

-- Block entries are changed in place.
abbrev pub set_block : Segment → ℕ → BlockEntry → Segment
set_block s a e = record s { blocks = update s.blocks a e }
