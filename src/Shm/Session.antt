-- ===== src/Shm/Session.antt =====
-- shm_manager.cpp: the session table, opened and closed under a spin lock, and the lookup of blocks.
pub mod Tables
pub mod Lookup
use receiver.Prelude.{
  ℕ, zero, suc, ◌-◌, ◌*◌, ◌/◌, ◌%◌, ◌^◌, ◌+◌, Bool, true, false, if◌then◌else◌, ◌==◌, ltb, leb, not,
  ◌&&◌, List, [], ◌∷◌, Option, none, some, take, replicate,
}
use receiver.Shm.Layout.{
  max_n, max_sessions, slot_idx_free, session_state_empty, session_state_open,
  session_state_closing, max_blocks_per_session, table_offset, entry_offset,
  per_session_block_table_bytes,
}
use receiver.Shm.Memory.{update}
use receiver.Shm.Segment.{BlockEntry, SessionEntry, Segment, zero_entry}
use receiver.Shm.Block.{word_has}
use receiver.Shm.Arena.{free_slot}

-- `strncmp(a, b, n) == 0`, of strings without their NUL.
unfoldable pub strncmp_eq : ℕ → List ℕ → List ℕ → Bool
strncmp_eq zero a b = true
strncmp_eq (suc n) [] [] = true
strncmp_eq (suc n) [] (y ∷ ys) = false
strncmp_eq (suc n) (x ∷ xs) [] = false
strncmp_eq (suc n) (x ∷ xs) (y ∷ ys) = x == y && strncmp_eq n xs ys

-- The test of `find_session` and of the first loops of open and close.
unfoldable pub is_open_as : Segment → List ℕ → ℕ → Bool
unfolding strncmp_eq
is_open_as s session_id i =
    (s.sessions i).state == session_state_open && strncmp_eq 63 (s.sessions i).session_id session_id

-- `for (i = …; i < MAX_SESSIONS; ++i)` until the test holds, by the rounds that are left.
unfoldable pub first_index : (ℕ → Bool) → ℕ → ℕ → Option ℕ
first_index test zero i = none
first_index test (suc rounds) i =
    let rest = first_index test rounds (i + 1) in if test i then some i else rest

unfoldable pub find_session : Segment → List ℕ → Option ℕ
unfolding is_open_as first_index
find_session s session_id = first_index (is_open_as s session_id) max_sessions 0

unfoldable pub find_empty : Segment → Option ℕ
unfolding first_index
find_empty s = first_index (λ i. (s.sessions i).state == session_state_empty) max_sessions 0

-- The arguments of `open_session`.
pub record SessionParams : Type 0 where
  pub session_id : List ℕ
  pub k : ℕ
  pub n : ℕ
  pub symbol_bytes : ℕ
  pub total_blocks : ℕ
  pub file_size : ℕ
  pub dest_path : List ℕ

-- `memset(table, 0, count * sizeof(BlockEntry))`
unfoldable pub zero_blocks : ℕ → ℕ → (ℕ → BlockEntry) → ℕ → BlockEntry
zero_blocks zero table blocks = blocks
zero_blocks (suc b) table blocks =
    update (zero_blocks b table blocks) (entry_offset table b) zero_entry

-- The compare-exchange loop on `session_open_lock`: `none` while another process holds the lock.
unfoldable pub lock_sessions : Segment → Option Segment
lock_sessions s =
    if s.header.session_open_lock == 0
    then some (record s { header = record s.header { session_open_lock = 1 } })
    else none

unfoldable pub unlock_sessions : Segment → Segment
unlock_sessions s = record s { header = record s.header { session_open_lock = 0 } }

-- The writes of `open_session` to the free slot `i`.
unfoldable pub claim_session : Segment → SessionParams → ℕ → Segment
unfolding zero_blocks
claim_session s p i =
    let table = table_offset s.header.block_table_region_offset i in
    record s {
      sessions = update s.sessions i (record {
        session_id = take 63 p.session_id;
        state = session_state_open;
        k = p.k;
        n = p.n;
        symbol_bytes = p.symbol_bytes;
        total_blocks = p.total_blocks;
        file_size = p.file_size;
        hash = replicate 32 0;
        dest_path = take 255 p.dest_path;
        block_table_offset = table;
        bitmap_offset = table + per_session_block_table_bytes;
      });
      blocks = zero_blocks p.total_blocks table s.blocks;
    }

-- The body of `open_session` between lock and unlock.
unfoldable pub open_locked : Segment → SessionParams → Option ℕ × Segment
unfolding claim_session
open_locked s p = elim (find_session s p.session_id) [
  | some i ↦ (some i, s)
  | none ↦ elim (find_empty s) [ none ↦ (none, s) | some i ↦ (some i, claim_session s p i) ]
]

-- Outer `none`: still spinning.
unfoldable pub open_session : Segment → SessionParams → Option (Option ℕ × Segment)
unfolding open_locked lock_sessions unlock_sessions
open_session s p =
    if ltb max_blocks_per_session p.total_blocks then some (none, s) else elim (lock_sessions s) [
      | none ↦ none
      | some held ↦ let (result, s') = open_locked held p in some (result, unlock_sessions s')
    ]

-- One symbol of the sweep.
unfoldable pub release_symbol : BlockEntry → ℕ → Segment → Segment
release_symbol e symbol s =
    if word_has (e.present_mask (symbol / 64)) symbol
    then if e.slot_idx symbol == slot_idx_free then s else free_slot s (e.slot_idx symbol)
    else s

-- The first `count` symbols of a block, in order.
unfoldable pub sweep_symbols : BlockEntry → ℕ → Segment → Segment
unfolding release_symbol
sweep_symbols e zero s = s
sweep_symbols e (suc symbol) s = release_symbol e symbol (sweep_symbols e symbol s)

-- The first `count` blocks of a table, in order.
unfoldable pub sweep_blocks : ℕ → ℕ → ℕ → Segment → Segment
unfolding sweep_symbols
sweep_blocks table n zero s = s
sweep_blocks table n (suc b) s =
    let swept = sweep_blocks table n b s in
    sweep_symbols (swept.blocks (entry_offset table b)) n swept

-- The links of the first `n` symbols of an entry, marked free.
unfoldable pub free_links : ℕ → BlockEntry → BlockEntry
free_links zero e = e
free_links (suc symbol) e =
    let rest = free_links symbol e in
    record rest { slot_idx = update rest.slot_idx symbol slot_idx_free }

unfoldable pub reset_links : ℕ → ℕ → ℕ → (ℕ → BlockEntry) → ℕ → BlockEntry
unfolding free_links
reset_links table n zero blocks = blocks
reset_links table n (suc b) blocks =
    let rest = reset_links table n b blocks in
    update rest (entry_offset table b) (free_links n (rest (entry_offset table b)))

abbrev pub set_state : Segment → ℕ → ℕ → Segment
set_state s i state = record s {
  sessions = update s.sessions i (record (s.sessions i) { state = state });
}

-- What `close_session` does after it has released the lock: sweep, reset and publish.
unfoldable pub sweep_session : Segment → ℕ → Segment
unfolding sweep_blocks zero_blocks reset_links
sweep_session s i =
    let entry = s.sessions i in
    let n = if leb entry.n max_n then entry.n else max_n in
    let total =
      if ltb max_blocks_per_session entry.total_blocks
      then max_blocks_per_session
      else entry.total_blocks in
    let table = entry.block_table_offset in
    let swept = sweep_blocks table n total s in
    set_state
      (record swept { blocks = reset_links table n total (zero_blocks total table swept.blocks) }) i
      session_state_empty

-- Outer `none`: still spinning. A null id closes nothing.
unfoldable pub close_session : Segment → Option (List ℕ) → Option (Bool × Segment)
unfolding sweep_session lock_sessions unlock_sessions
close_session s none = some (false, s)
close_session s (some session_id) = elim (lock_sessions s) [
  | none ↦ none
  | some held ↦ elim (find_session held session_id) [
    | none ↦ some (false, unlock_sessions held)
    | some i ↦
        some (true, sweep_session (unlock_sessions (set_state held i session_state_closing)) i)
  ]
]

-- `block_entry`, and `block` over it: the offset of the entry.
unfoldable pub block_entry : Segment → ℕ → ℕ → Option ℕ
block_entry s session_idx block_id =
    if leb max_sessions session_idx
    then none
    else if not ((s.sessions session_idx).state == session_state_open)
    then none
    else if leb (s.sessions session_idx).total_blocks block_id
    then none
    else some (entry_offset (s.sessions session_idx).block_table_offset block_id)
