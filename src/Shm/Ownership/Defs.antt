-- ===== src/Shm/Ownership/Defs.antt =====
-- The invariant of the segment: ownership of the slots, and what the open sessions keep true.
use receiver.Prelude.{ℕ, ◌<◌, ◌≤◌, ◌≡◌, ◌≢◌, true, List, some, arith}
use receiver.Shm.Layout.{
  slot_idx_free, max_sessions, max_n, session_state_open, max_blocks_per_session, table_offset,
  entry_offset, decode_complete, entry_offset-injective,
}
use receiver.Shm.Segment.{Segment, BlockEntry}
use receiver.Shm.Block.{is_present, slot_of}
use receiver.Shm.Block.Symbols.{IsCounted}
use receiver.Shm.Session.{block_entry}
use receiver.Shm.Ownership.Links.{Owned, LinkOf}

abbrev pub IsOpen : Segment → ℕ → Type 0
IsOpen s i = (i < max_sessions) × ((s.sessions i).state ≡ session_state_open)

pub record IsSegment (s : Segment) (free : List ℕ) : Type 0 where
  pub owned : Owned s free (LinkOf s)
  -- Each open session has its own table, and no more blocks than that holds.
  pub tables :
      (i : ℕ)
      → IsOpen s i
      → ((s.sessions i).block_table_offset ≡ table_offset s.header.block_table_region_offset i)
        × ((s.sessions i).total_blocks ≤ max_blocks_per_session)
  -- Only symbols of the session are registered, and a block counts them.
  pub ranged :
      (i b a t : ℕ)
      → block_entry s i b ≡ some a
      → is_present (s.blocks a) t ≡ true
      → t < (s.sessions i).n
  pub counted : (i b a : ℕ) → block_entry s i b ≡ some a → IsCounted (s.blocks a)
  -- Until a block is complete its symbols keep their slots.
  pub linked :
      (i b a t : ℕ)
      → block_entry s i b ≡ some a
      → (s.blocks a).decoded ≢ decode_complete
      → is_present (s.blocks a) t ≡ true
      → slot_of (s.blocks a) t ≢ slot_idx_free
  pub unlocked : s.header.session_open_lock ≡ 0

-- What a successful lookup says.
pub block_entry-some :
    (s : Segment) (i b a : ℕ)
    → block_entry s i b ≡ some a
    → (i < max_sessions)
      × ((s.sessions i).state ≡ session_state_open)
      × (b < (s.sessions i).total_blocks)
      × (a ≡ entry_offset (s.sessions i).block_table_offset b)
unfolding block_entry
block_entry-some s i b a h = ground arith

-- One offset is the entry of one block.
pub block_entry-injective :
    (s : Segment) (free : List ℕ) (i j b c a : ℕ)
    → IsSegment s free
    → block_entry s i b ≡ some a
    → block_entry s j c ≡ some a
    → (i ≡ j) × (b ≡ c)
block_entry-injective s free i j b c a v p q =
    let (i_lt, i_open, b_lt, i_at) = block_entry-some s i b a p in
    let (j_lt, j_open, c_lt, j_at) = block_entry-some s j c a q in
    let (i_table, i_few) = v.tables i (i_lt, i_open) in
    let (j_table, j_few) = v.tables j (j_lt, j_open) in
    entry_offset-injective s.header.block_table_region_offset i j b c (omega arith) (omega arith)
      (omega arith)

-- A symbol that is present has an id below 255.
pub is_present-lt : (e : BlockEntry) (t : ℕ) → is_present e t ≡ true → t < max_n
unfolding is_present
is_present-lt e t h = ground arith
