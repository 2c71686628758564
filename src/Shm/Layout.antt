-- ===== src/Shm/Layout.antt =====
-- shm_manager.hpp: constants, sizes and offsets of the segment, and that its regions are disjoint.
use receiver.Prelude.{ℕ, ◌*◌, ◌/◌, ◌+◌, ◌<◌, ◌≤◌, ◌≡◌, arith, u32, u64}

abbrev pub shm_magic : ℕ
shm_magic = 0x46494E55

abbrev pub shm_version : ℕ
shm_version = 2

abbrev pub slot_size : ℕ
slot_size = 1536

abbrev pub max_sessions : ℕ
max_sessions = 8

abbrev pub max_n : ℕ
max_n = 255

abbrev pub slot_idx_free : ℕ
slot_idx_free = 0xFFFFFFFF

-- `FREE_LIST_END`, and `kListEnd`, its cast to 32 bits.
abbrev pub list_end : ℕ
list_end = 0xFFFFFFFF

abbrev pub max_blocks_per_session : ℕ
max_blocks_per_session = 8192

abbrev pub default_arena_bytes : ℕ
default_arena_bytes = 256 * 1024 * 1024

abbrev pub session_state_empty : ℕ
session_state_empty = 0

abbrev pub session_state_open : ℕ
session_state_open = 1

abbrev pub session_state_closing : ℕ
session_state_closing = 2

abbrev pub decode_pending : ℕ
decode_pending = 0

abbrev pub decode_claimed : ℕ
decode_claimed = 1

abbrev pub decode_complete : ℕ
decode_complete = 2

-- sizeof(ShmHeader): one page. sizeof(SessionEntry) and sizeof(BlockEntry) with their padding.
abbrev pub sizeof_shm_header : ℕ
sizeof_shm_header = 4096

abbrev pub sizeof_session_entry : ℕ
sizeof_session_entry = 400

abbrev pub sizeof_block_entry : ℕ
sizeof_block_entry = 1064

-- `(v + 7) & ~7`, cast to 32 bits.
abbrev pub align8 : ℕ → ℕ
align8 v = u32 ((v + 7) / 8 * 8)

abbrev pub per_session_block_table_bytes : ℕ
per_session_block_table_bytes = align8 (max_blocks_per_session * sizeof_block_entry)

abbrev pub per_session_bitmap_bytes : ℕ
per_session_bitmap_bytes = align8 ((max_blocks_per_session + 7) / 8)

abbrev pub per_session_stride : ℕ
per_session_stride = per_session_block_table_bytes + per_session_bitmap_bytes

abbrev pub compute_arena_offset : ℕ
compute_arena_offset =
    align8 (sizeof_shm_header + max_sessions * sizeof_session_entry)
    + max_sessions * per_session_stride

abbrev pub compute_total_size : ℕ → ℕ
compute_total_size arena_bytes = u64 (compute_arena_offset + arena_bytes)

-- Where the block table of session `i` starts, relative to the start of the region of all tables.
abbrev pub table_offset : ℕ → ℕ → ℕ
table_offset region i = region + i * per_session_stride

-- The entry of block `b` in the table at `table`.
abbrev pub entry_offset : ℕ → ℕ → ℕ
entry_offset table b = table + b * sizeof_block_entry

-- If two block ids are below the number of blocks per session and their entries, in the tables of
-- two sessions, have the same offset, then the sessions and the blocks are the same.
pub entry_offset-injective :
    (region i j b c : ℕ)
    → b < max_blocks_per_session
    → c < max_blocks_per_session
    → entry_offset (table_offset region i) b ≡ entry_offset (table_offset region j) c
    → (i ≡ j) × (b ≡ c)
entry_offset-injective region i j b c p q e = (omega arith, omega arith)

-- The entry of a block lies between the start of the tables and the arena, and ends before the bitmap.
pub entry_offset_bounds :
    (region i b : ℕ)
    → i < max_sessions
    → b < max_blocks_per_session
    → (region ≤ entry_offset (table_offset region i) b)
      × (entry_offset (table_offset region i) b + sizeof_block_entry
          ≤ table_offset region i + per_session_block_table_bytes)
      × (table_offset region i + per_session_stride ≤ region + max_sessions * per_session_stride)
entry_offset_bounds region i b p q = (omega arith, omega arith, omega arith)
