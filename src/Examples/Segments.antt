-- ===== src/Examples/Segments.antt =====
-- A segment of two slots with one open session of two blocks.
use receiver.Prelude.{
  ℕ, zero, suc, ◌<◌, ◌≡◌, false, List, [], ◌∷◌, refl, arith, if◌then◌else◌, ◌==◌, contains,
  count-zero, sym,
}
use mathlib.Core.Bool.{false≢true}
use receiver.Shm.Layout.{
  session_state_open, session_state_empty, slot_size, max_n, shm_magic, shm_version, table_offset,
}
use receiver.Shm.Memory.{read64, write64}
use receiver.Shm.Segment.{ShmHeader, SessionEntry, Segment, zero_entry}
use receiver.Shm.Arena.{chain_slots, head_idx}
use receiver.Shm.Arena.FreeList.{IsArena}
use receiver.Shm.Block.{is_present}
use receiver.Shm.Block.Symbols.{zero_entry-absent, IsCounted}
use receiver.Shm.Session.{block_entry}
use receiver.Shm.Ownership.Links.{LinkOf}
use receiver.Shm.Ownership.Defs.{IsSegment}

abbrev pub header : ShmHeader
header = record {
  magic = shm_magic;
  version = shm_version;
  slot_size = slot_size;
  slot_count = 2;
  free_list_head = 0;
  used_slots = 0;
  high_water_used = 0;
  session_open_lock = 0;
  session_table_offset = 4096;
  block_table_region_offset = 8192;
  arena_offset = 0;
  total_size = 0;
  owner_pid = 1;
  boot_id = [];
}

abbrev pub session_id : List ℕ
session_id = 115 ∷ 49 ∷ []

abbrev pub entry : ℕ → SessionEntry
entry state = record {
  session_id = session_id;
  state = state;
  k = 1;
  n = 2;
  symbol_bytes = 1;
  total_blocks = 2;
  file_size = 2;
  hash = [];
  dest_path = [];
  block_table_offset = table_offset 8192 0;
  bitmap_offset = 0;
}

abbrev pub segment : Segment
segment = record {
  header = header;
  sessions = λ i. if i == 0 then entry session_state_open else entry session_state_empty;
  blocks = λ _. zero_entry;
  arena = chain_slots 2 2 (λ _. 0);
}

pub segment-IsArena : IsArena segment (0 ∷ 1 ∷ [])
unfolding chain_slots read64 write64 head_idx
segment-IsArena = record {
  small = omega arith;
  chain = (refl, omega arith, (refl, omega arith, refl));
  distinct = ((λ e. omega arith, tt), (tt, tt));
  counted = refl;
  peak = omega arith;
}

no_link : (a t x : ℕ) → ¬ LinkOf segment a t x
no_link a t x l = ground (arith, zero_entry-absent t, l.present)

pub IsCounted-zero : IsCounted zero_entry
IsCounted-zero = sym (count-zero max_n (is_present zero_entry) (λ i lt. zero_entry-absent i))

all_free : (x : ℕ) → x < 2 → contains x (0 ∷ 1 ∷ []) ≡ false → ⊥
unfolding contains
all_free zero lt out = false≢true (sym out)
all_free (suc zero) lt out = false≢true (sym out)
all_free (suc (suc x)) lt out = omega arith

pub segment-IsSegment : IsSegment segment (0 ∷ 1 ∷ [])
unfolding block_entry
segment-IsSegment = record {
  owned = record {
    is_arena = segment-IsArena;
    live = λ a t x l. absurd (no_link a t x l);
    one = λ a t x y l m. absurd (no_link a t x l);
    single = λ a b t u x l m. absurd (no_link a t x l);
    kept = λ x lt out. absurd (all_free x lt out);
  };
  tables = λ i o. ground arith;
  ranged = λ i b a t found p. absurd (ground (arith, zero_entry-absent t, p));
  counted = λ i b a found. IsCounted-zero;
  linked = λ i b a t found pending p. absurd (ground (arith, zero_entry-absent t, p));
  unlocked = refl;
}
