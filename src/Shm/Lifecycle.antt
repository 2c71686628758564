-- ===== src/Shm/Lifecycle.antt =====
-- shm_manager.cpp: the segment as its creator leaves it, and the checks of a process that attaches.
pub mod Fresh
use receiver.Prelude.{
  ℕ, zero, suc, ◌*◌, ◌/◌, ◌+◌, Bool, true, false, if◌then◌else◌, ◌==◌, ltb, leb, not, ◌&&◌, List,
  [], replicate, u32, u64,
}
use receiver.Shm.Layout.{
  shm_magic, shm_version, slot_size, list_end, max_sessions, sizeof_shm_header,
  sizeof_session_entry, align8, per_session_stride, session_state_empty,
}
use receiver.Shm.Segment.{ShmHeader, SessionEntry, Segment, zero_entry}
use receiver.Shm.Arena.{pack_head, chain_slots}

-- A session entry of zero bytes.
abbrev pub zero_session : SessionEntry
zero_session = record {
  session_id = [];
  state = 0;
  k = 0;
  n = 0;
  symbol_bytes = 0;
  total_blocks = 0;
  file_size = 0;
  hash = replicate 32 0;
  dest_path = [];
  block_table_offset = 0;
  bitmap_offset = 0;
}

-- The running offset after the session table, and after the block tables.
abbrev pub tables_start : ℕ
tables_start = align8 (sizeof_shm_header + max_sessions * sizeof_session_entry)

abbrev pub arena_start : ℕ
arena_start = u64 (tables_start + max_sessions * per_session_stride)

-- `init_header` on a segment that `create` has filled with zeros. The process id and the boot id are
-- the system's.
unfoldable pub init_header : ℕ → List ℕ → ℕ → Segment
unfolding chain_slots pack_head
init_header getpid boot_id arena_bytes =
    let slot_count = u32 (arena_bytes / slot_size) in
    record {
      header = record {
        magic = shm_magic;
        version = shm_version;
        slot_size = slot_size;
        slot_count = slot_count;
        free_list_head = pack_head (if ltb 0 slot_count then 0 else list_end) 0;
        used_slots = 0;
        high_water_used = 0;
        session_open_lock = 0;
        session_table_offset = sizeof_shm_header;
        block_table_region_offset = tables_start;
        arena_offset = arena_start;
        total_size = u64 (arena_start + arena_bytes);
        owner_pid = getpid;
        boot_id = boot_id;
      };
      sessions = λ _. zero_session;
      blocks = λ _. zero_entry;
      arena = chain_slots slot_count slot_count (λ _. 0);
    }

unfoldable pub header_valid : ShmHeader → Bool
header_valid h = h.magic == shm_magic && h.version == shm_version

unfoldable pub offsets_valid : ShmHeader → Bool
offsets_valid h =
    ltb h.session_table_offset h.total_size
    && (ltb h.block_table_region_offset h.total_size
        && (ltb h.arena_offset h.total_size
            && leb (u64 (h.arena_offset + h.slot_count * h.slot_size)) h.total_size))

-- `map_and_validate`, on a mapping of `map_size` bytes.
unfoldable pub map_and_validate : Segment → ℕ → Bool
unfolding header_valid offsets_valid
map_and_validate s map_size =
    if not (header_valid s.header)
    then false
    else if ltb map_size s.header.total_size
    then false
    else if not (offsets_valid s.header)
    then false
    else true

unfoldable pub validate : Segment → Bool
unfolding header_valid offsets_valid
validate s = header_valid s.header && offsets_valid s.header
