-- ===== src/Shm/Ownership/Close.antt =====
-- shm_manager.cpp: close_session keeps the ownership of every slot, and leaves the session none.
use receiver.Prelude.{
  ℕ, ◌<◌, ◌≡◌, ◌≢◌, List, some, refl, ap, sym, ◌∙◌, subst, arith, if◌then◌else◌, ℕ_discrete,
  ne→not_==, ==_refl, ltb, leb,
}
use receiver.Shm.Layout.{
  max_n, slot_idx_free, entry_offset, table_offset, max_blocks_per_session, session_state_empty,
  session_state_closing, entry_offset-injective,
}
use receiver.Shm.Segment.{Segment, BlockEntry, SessionEntry}
use receiver.Shm.Block.{is_present, slot_of}
use receiver.Shm.Block.Symbols.{IsCounted}
use receiver.Shm.Session.{sweep_session, sweep_blocks, block_entry}
use receiver.Shm.Session.Tables.{zero_blocks-outside, reset_links-outside}
use receiver.Shm.Ownership.Links.{Owned, LinkOf, Owned-cong}
use receiver.Shm.Ownership.Defs.{IsSegment, IsOpen, block_entry-some, is_present-lt}
use receiver.Shm.Ownership.Sweep.{Rest, InTable, sweep_blocks-Owned}
use receiver.Shm.Ownership.Kept.{sweep_blocks-IsKept}

-- `c` is the segment `s` with the entry of the session `i` marked as closing.
pub record IsClosing (s c : Segment) (i : ℕ) : Type 0 where
  pub entry : c.sessions i ≡ record (s.sessions i) { state = session_state_closing }
  pub n : (c.sessions i).n ≡ (s.sessions i).n
  pub total : (c.sessions i).total_blocks ≡ (s.sessions i).total_blocks
  pub table : (c.sessions i).block_table_offset ≡ (s.sessions i).block_table_offset
  pub others : (j : ℕ) → i ≢ j → c.sessions j ≡ s.sessions j
  pub blocks : c.blocks ≡ s.blocks
  pub region : c.header.block_table_region_offset ≡ s.header.block_table_region_offset
  pub unlocked : c.header.session_open_lock ≡ 0

module _ (s c : Segment) (i : ℕ) (free : List ℕ) (v : IsSegment s free) (i_open : IsOpen s i)
    (closing : IsClosing s c i) (owned : Owned c free (LinkOf s)) where
  -- The bounds of the sweep.
  abbrev swept_n : ℕ
  swept_n = if leb (c.sessions i).n max_n then (c.sessions i).n else max_n

  abbrev swept_total : ℕ
  swept_total =
      if ltb max_blocks_per_session (c.sessions i).total_blocks
      then max_blocks_per_session
      else (c.sessions i).total_blocks

  abbrev own_table : ℕ
  own_table = (c.sessions i).block_table_offset

  swept_all : swept_total ≡ (s.sessions i).total_blocks
  swept_all = ground (arith, closing.total, (v.tables i i_open).1)

  table_is : own_table ≡ table_offset s.header.block_table_region_offset i
  table_is = closing.table ∙ (v.tables i i_open).0

  own_block : (b : ℕ) → b < swept_total → block_entry s i b ≡ some (entry_offset own_table b)
  unfolding block_entry
  own_block b lt =
      ground (arith, swept_all, i_open.0, i_open.1, ap (λ (t : ℕ). entry_offset t b) closing.table)

  -- The entry of a block of another session is none of those swept.
  away :
      (j b a : ℕ)
      → i ≢ j
      → block_entry s j b ≡ some a
      → (d : ℕ) → d < swept_total
      → entry_offset own_table d ≢ a
  away j b a ne found d lt e =
      let (j_lt, opened, b_lt, at) = block_entry-some s j b a found in
      let (at_table, few) = v.tables j (j_lt, opened) in
      ne
        (entry_offset-injective s.header.block_table_region_offset i j d b
          (omega (arith, swept_all, (v.tables i i_open).1)) (omega arith)
          (ap (λ (t : ℕ). entry_offset t d) (sym table_is)
            ∙ e
            ∙ at
            ∙ ap (λ (t : ℕ). entry_offset t b) at_table)).0

  pub other_sessions : (j : ℕ) → i ≢ j → (sweep_session c i).sessions j ≡ s.sessions j
  unfolding sweep_session
  other_sessions j ne = rw (ne→not_== i j ne) (
      ap (λ (f : ℕ → SessionEntry). f j) (sweep_blocks-IsKept own_table swept_n swept_total c).1
      ∙ closing.others j ne)

  pub closed : ((sweep_session c i).sessions i).state ≡ session_state_empty
  unfolding sweep_session
  closed = rw (==_refl i) refl

  pub closed_entry :
      (sweep_session c i).sessions i ≡ record (s.sessions i) { state = session_state_empty }
  unfolding sweep_session
  closed_entry = rw (==_refl i) (
      ap (λ (x : SessionEntry). record x { state = session_state_empty })
        (ap (λ (f : ℕ → SessionEntry). f i) (sweep_blocks-IsKept own_table swept_n swept_total c).1
          ∙ closing.entry))

  pub other_blocks :
      (j b a : ℕ) → i ≢ j → block_entry s j b ≡ some a → (sweep_session c i).blocks a ≡ s.blocks a
  unfolding sweep_session
  other_blocks j b a ne found =
      reset_links-outside own_table swept_n swept_total _ a (away j b a ne found)
      ∙ zero_blocks-outside swept_total own_table _ a (away j b a ne found)
      ∙ ap (λ (f : ℕ → BlockEntry). f a)
          ((sweep_blocks-IsKept own_table swept_n swept_total c).0 ∙ closing.blocks)

  same_lookup : (j b : ℕ) → i ≢ j → block_entry (sweep_session c i) j b ≡ block_entry s j b
  unfolding block_entry
  same_lookup j b ne = rw (other_sessions j ne) refl

  -- Blocks are found in the other sessions only, and are as before.
  found_after :
      (j b a : ℕ)
      → block_entry (sweep_session c i) j b ≡ some a
      → (i ≢ j) × (block_entry s j b ≡ some a) × ((sweep_session c i).blocks a ≡ s.blocks a)
  found_after j b a found =
      let (lt, opened, _, _) = block_entry-some (sweep_session c i) j b a found in
      let ne : i ≢ j = λ e.
        absurd (
          omega
            (arith, opened, closed, ap (λ (x : ℕ). ((sweep_session c i).sessions x).state) e)) in
      let before = sym (same_lookup j b ne) ∙ found in (ne, before, other_blocks j b a ne before)

  rest_of_after :
      (a t x : ℕ)
      → LinkOf (sweep_session c i) a t x
      → Rest s (InTable own_table swept_n swept_total) a t x
  rest_of_after a t x l =
      let (ne, before, same) = found_after l.session_idx l.block_id a l.at_block in
      (
        record {
          session_idx = l.session_idx;
          block_id = l.block_id;
          at_block = before;
          present = sym (ap (λ (e : BlockEntry). is_present e t) same) ∙ l.present;
          slot = sym (ap (λ (e : BlockEntry). slot_of e t) same) ∙ l.slot;
          linked = l.linked;
        },
        λ g. away l.session_idx l.block_id a ne before g.0 g.1 (sym g.2),
      )

  after_of_rest :
      (a t x : ℕ)
      → Rest s (InTable own_table swept_n swept_total) a t x
      → LinkOf (sweep_session c i) a t x
  after_of_rest a t x (l, kept) = elim (ℕ_discrete i l.session_idx) [
    | yes own ↦ absurd (kept (swept_away own))
    | no ne ↦
        let same = other_blocks l.session_idx l.block_id a ne l.at_block in
        record {
          session_idx = l.session_idx;
          block_id = l.block_id;
          at_block = same_lookup l.session_idx l.block_id ne ∙ l.at_block;
          present = ap (λ (e : BlockEntry). is_present e t) same ∙ l.present;
          slot = ap (λ (e : BlockEntry). slot_of e t) same ∙ l.slot;
          linked = l.linked;
        }
  ]
    where
      swept_away : i ≡ l.session_idx → InTable own_table swept_n swept_total a t
      swept_away own =
          let found : block_entry s i l.block_id ≡ some a =
            subst (λ (j : ℕ). block_entry s j l.block_id ≡ some a) (sym own) l.at_block in
          let (_, _, b_lt, at) = block_entry-some s i l.block_id a found in
          (
            l.block_id,
            omega (arith, swept_all),
            at ∙ ap (λ (o : ℕ). entry_offset o l.block_id) (sym closing.table),
            ground (
              arith,
              closing.n,
              is_present-lt (s.blocks a) t l.present,
              v.ranged i l.block_id a t found l.present,
            ),
          )

  sweep_session-Owned :
      (free' : List ℕ) × Owned (sweep_session c i) free' (LinkOf (sweep_session c i))
  unfolding sweep_session
  sweep_session-Owned =
      let (free', o) =
        sweep_blocks-Owned s i own_table swept_n swept_total (ground arith) own_block swept_total c
          free (omega arith) closing.blocks owned in
      (
        free',
        Owned-cong (sweep_blocks own_table swept_n swept_total c) (sweep_session c i) free'
            (Rest s (InTable own_table swept_n swept_total)) (LinkOf (sweep_session c i)) o
            (record {
              small = o.is_arena.small;
              chain = o.is_arena.chain;
              distinct = o.is_arena.distinct;
              counted = o.is_arena.counted;
              peak = o.is_arena.peak;
            })
            refl rest_of_after after_of_rest,
      )

  same_region :
      (sweep_session c i).header.block_table_region_offset ≡ s.header.block_table_region_offset
  unfolding sweep_session
  same_region = (sweep_blocks-IsKept own_table swept_n swept_total c).3 ∙ closing.region

  same_lock : (sweep_session c i).header.session_open_lock ≡ 0
  unfolding sweep_session
  same_lock = (sweep_blocks-IsKept own_table swept_n swept_total c).2 ∙ closing.unlocked

  pub sweep_session-IsSegment : (free' : List ℕ) × IsSegment (sweep_session c i) free'
  sweep_session-IsSegment =
      let (free', o) = sweep_session-Owned in
      (
        free',
        record {
          owned = o;
          tables = λ j (lt, opened). elim (ℕ_discrete i j) [
            | yes own ↦ absurd (
                omega (
                  arith,
                  opened,
                  closed,
                  ap (λ (x : ℕ). ((sweep_session c i).sessions x).state) own,
                ))
            | no ne ↦
                let (at, few) =
                  v.tables j
                    (lt, ap (λ (x : SessionEntry). x.state) (sym (other_sessions j ne)) ∙ opened) in
                (
                  ap (λ (x : SessionEntry). x.block_table_offset) (other_sessions j ne)
                      ∙ at
                      ∙ ap (λ (o : ℕ). table_offset o j) (sym same_region),
                  omega
                      (arith, few, ap (λ (x : SessionEntry). x.total_blocks) (other_sessions j ne)),
                )
          ];
          ranged = λ j b a t found there.
              let (ne, before, same) = found_after j b a found in
              subst (λ (x : SessionEntry). t < x.n) (sym (other_sessions j ne))
                (v.ranged j b a t before
                  (sym (ap (λ (e : BlockEntry). is_present e t) same) ∙ there));
          counted = λ j b a found.
              let (ne, before, same) = found_after j b a found in
              subst IsCounted (sym same) (v.counted j b a before);
          linked = λ j b a t found pending there.
              let (ne, before, same) = found_after j b a found in
              subst (λ (e : BlockEntry). slot_of e t ≢ slot_idx_free) (sym same)
                (v.linked j b a t before
                  (λ e. pending (ap (λ (e : BlockEntry). e.decoded) same ∙ e))
                  (sym (ap (λ (e : BlockEntry). is_present e t) same) ∙ there));
          unlocked = same_lock;
        },
      )
