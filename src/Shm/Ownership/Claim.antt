-- ===== src/Shm/Ownership/Claim.antt =====
-- shm_manager.cpp: a session claimed in an empty entry keeps the ownership of every slot.
use receiver.Prelude.{
  ℕ, ◌<◌, ◌≤◌, ◌≡◌, ◌≢◌, ◌⊎◌, inl, inr, List, some, refl, ap, sym, ◌∙◌, subst, arith, ℕ_discrete,
  ne→not_==, ==_refl,
}
use mathlib.Core.Bool.{false≢true}
use receiver.Shm.Layout.{
  max_sessions, max_blocks_per_session, session_state_empty, table_offset, entry_offset,
  entry_offset-injective, slot_idx_free,
}
use receiver.Shm.Segment.{Segment, SessionEntry, BlockEntry, zero_entry}
use receiver.Shm.Arena.FreeList.{IsArena}
use receiver.Shm.Block.{is_present, slot_of}
use receiver.Shm.Block.Symbols.{IsCounted, zero_entry-absent, zero_entry-IsCounted}
use receiver.Shm.Session.{SessionParams, claim_session, unlock_sessions, block_entry}
use receiver.Shm.Session.Tables.{zero_blocks-inside, zero_blocks-outside}
use receiver.Shm.Ownership.Links.{LinkOf, Owned-cong}
use receiver.Shm.Ownership.Defs.{IsSegment, block_entry-some}

-- The lock is no part of what is owned.
module _ (s : Segment) (free : List ℕ) (v : IsSegment s free) where
  from_unlocked : (c u y : ℕ) → LinkOf (unlock_sessions s) c u y → LinkOf s c u y
  unfolding block_entry unlock_sessions
  from_unlocked c u y l = record {
    session_idx = l.session_idx;
    block_id = l.block_id;
    at_block = l.at_block;
    present = l.present;
    slot = l.slot;
    linked = l.linked;
  }

  to_unlocked : (c u y : ℕ) → LinkOf s c u y → LinkOf (unlock_sessions s) c u y
  unfolding block_entry unlock_sessions
  to_unlocked c u y l = record {
    session_idx = l.session_idx;
    block_id = l.block_id;
    at_block = l.at_block;
    present = l.present;
    slot = l.slot;
    linked = l.linked;
  }

  pub unlock_sessions-IsSegment : IsSegment (unlock_sessions s) free
  unfolding block_entry unlock_sessions
  unlock_sessions-IsSegment = record {
    owned =
        Owned-cong s (unlock_sessions s) free (LinkOf s) (LinkOf (unlock_sessions s)) v.owned
          (record {
            small = v.owned.is_arena.small;
            chain = v.owned.is_arena.chain;
            distinct = v.owned.is_arena.distinct;
            counted = v.owned.is_arena.counted;
            peak = v.owned.is_arena.peak;
          })
          refl from_unlocked to_unlocked;
    tables = v.tables;
    ranged = v.ranged;
    counted = v.counted;
    linked = v.linked;
    unlocked = refl;
  }

module _ (s : Segment) (p : SessionParams) (i : ℕ) where
  -- Of another session everything is as before.
  claimed_other : (j b : ℕ) → i ≢ j → block_entry (claim_session s p i) j b ≡ block_entry s j b
  unfolding block_entry claim_session
  claimed_other j b ne = rw (ne→not_== i j ne) refl

  module _ (free : List ℕ) (v : IsSegment s free) (i_lt : i < max_sessions)
      (was_empty : (s.sessions i).state ≡ session_state_empty)
      (few : p.total_blocks ≤ max_blocks_per_session) where
    new_total : ((claim_session s p i).sessions i).total_blocks ≡ p.total_blocks
    unfolding claim_session
    new_total = rw (==_refl i) refl

    new_table :
        ((claim_session s p i).sessions i).block_table_offset
        ≡ table_offset s.header.block_table_region_offset i
    unfolding claim_session
    new_table = rw (==_refl i) refl

    -- Entries of the new session are zero, and the others are not touched.
    claimed_own :
        (b a : ℕ)
        → block_entry (claim_session s p i) i b ≡ some a
        → (claim_session s p i).blocks a ≡ zero_entry
    unfolding claim_session
    claimed_own b a found =
        let (_, _, lt, at) = block_entry-some (claim_session s p i) i b a found in
        ap (claim_session s p i).blocks (at ∙ ap (λ (t : ℕ). entry_offset t b) new_table)
        ∙ zero_blocks-inside p.total_blocks (table_offset s.header.block_table_region_offset i)
            s.blocks b (omega (arith, new_total))

    claimed_kept :
        (j b a : ℕ) → block_entry s j b ≡ some a → (claim_session s p i).blocks a ≡ s.blocks a
    unfolding claim_session
    claimed_kept j b a found =
        let (lt, opened, b_lt, at) = block_entry-some s j b a found in
        let (at_table, few_j) = v.tables j (lt, opened) in
        zero_blocks-outside p.total_blocks (table_offset s.header.block_table_region_offset i)
          s.blocks a
          (λ b' lt' e.
            let same =
              entry_offset-injective s.header.block_table_region_offset i j b' b (omega arith)
                (omega arith) (e ∙ at ∙ ap (λ (t : ℕ). entry_offset t b) at_table) in
            absurd (omega (arith, opened, was_empty, ap (λ (x : ℕ). (s.sessions x).state) same.0)))

    not_claimed : (j b a : ℕ) → block_entry s j b ≡ some a → i ≢ j
    not_claimed j b a found e =
        let (lt, opened, b_lt, at) = block_entry-some s j b a found in
        absurd (omega (arith, opened, was_empty, ap (λ (x : ℕ). (s.sessions x).state) e))

    -- A block that is found is of the new session and zero, or as it was.
    found_cases :
        (j b a : ℕ)
        → block_entry (claim_session s p i) j b ≡ some a
        → ((claim_session s p i).blocks a ≡ zero_entry)
          ⊎ ((block_entry s j b ≡ some a) × ((claim_session s p i).blocks a ≡ s.blocks a))
    found_cases j b a found = elim (ℕ_discrete i j) [
      | yes own ↦ inl (
          claimed_own b a
            (subst (λ (x : ℕ). block_entry (claim_session s p i) x b ≡ some a) (sym own) found))
      | no other ↦
          let before = sym (claimed_other j b other) ∙ found in
          inr (before, claimed_kept j b a before)
    ]

    from_claimed : (c u y : ℕ) → LinkOf (claim_session s p i) c u y → LinkOf s c u y
    from_claimed c u y l = elim (found_cases l.session_idx l.block_id c l.at_block) [
      | inl zeroed ↦ absurd (
          false≢true (
            sym (zero_entry-absent u)
            ∙ sym (ap (λ (e : BlockEntry). is_present e u) zeroed)
            ∙ l.present))
      | inr (before, same) ↦ record {
        session_idx = l.session_idx;
        block_id = l.block_id;
        at_block = before;
        present = sym (ap (λ (e : BlockEntry). is_present e u) same) ∙ l.present;
        slot = sym (ap (λ (e : BlockEntry). slot_of e u) same) ∙ l.slot;
        linked = l.linked;
      }
    ]

    to_claimed : (c u y : ℕ) → LinkOf s c u y → LinkOf (claim_session s p i) c u y
    to_claimed c u y l =
        let same = claimed_kept l.session_idx l.block_id c l.at_block in
        record {
          session_idx = l.session_idx;
          block_id = l.block_id;
          at_block =
              claimed_other l.session_idx l.block_id
                (not_claimed l.session_idx l.block_id c l.at_block)
              ∙ l.at_block;
          present = ap (λ (e : BlockEntry). is_present e u) same ∙ l.present;
          slot = ap (λ (e : BlockEntry). slot_of e u) same ∙ l.slot;
          linked = l.linked;
        }

    session_at : (j : ℕ) → i ≢ j → (claim_session s p i).sessions j ≡ s.sessions j
    unfolding claim_session
    session_at j ne = rw (ne→not_== i j ne) refl

    new_n : ((claim_session s p i).sessions i).n ≡ p.n
    unfolding claim_session
    new_n = rw (==_refl i) refl

    claimed-IsArena : IsArena (claim_session s p i) free
    unfolding claim_session
    claimed-IsArena = record {
      small = v.owned.is_arena.small;
      chain = v.owned.is_arena.chain;
      distinct = v.owned.is_arena.distinct;
      counted = v.owned.is_arena.counted;
      peak = v.owned.is_arena.peak;
    }

    same_count : (claim_session s p i).header.slot_count ≡ s.header.slot_count
    unfolding claim_session
    same_count = refl

    still_unlocked : (claim_session s p i).header.session_open_lock ≡ 0
    unfolding claim_session
    still_unlocked = v.unlocked

    pub claimed-IsSegment : IsSegment (claim_session s p i) free
    unfolding claim_session
    claimed-IsSegment = record {
      owned =
          Owned-cong s (claim_session s p i) free (LinkOf s) (LinkOf (claim_session s p i)) v.owned
            (claimed-IsArena) same_count from_claimed to_claimed;
      tables = λ j (lt, opened). elim (ℕ_discrete i j) [
        | yes own ↦
            subst
              (λ (x : ℕ).
                (((claim_session s p i).sessions x).block_table_offset
                  ≡ table_offset s.header.block_table_region_offset x)
                × (((claim_session s p i).sessions x).total_blocks ≤ max_blocks_per_session))
              own (new_table, omega (arith, new_total))
        | no other ↦
            subst
              (λ (x : SessionEntry).
                (x.block_table_offset ≡ table_offset s.header.block_table_region_offset j)
                × (x.total_blocks ≤ max_blocks_per_session))
              (sym (session_at j other))
              (v.tables j
                (lt, ap (λ (x : SessionEntry). x.state) (sym (session_at j other)) ∙ opened))
      ];
      ranged = λ j b a t found there. elim (found_cases j b a found) [
        | inl zeroed ↦ absurd (
            false≢true (
              sym (zero_entry-absent t)
              ∙ sym (ap (λ (e : BlockEntry). is_present e t) zeroed)
              ∙ there))
        | inr (before, same) ↦
            subst (λ (x : SessionEntry). t < x.n) (sym (session_at j (not_claimed j b a before)))
              (v.ranged j b a t before (sym (ap (λ (e : BlockEntry). is_present e t) same) ∙ there))
      ];
      counted = λ j b a found. elim (found_cases j b a found) [
        | inl zeroed ↦ subst IsCounted (sym zeroed) zero_entry-IsCounted
        | inr (before, same) ↦ subst IsCounted (sym same) (v.counted j b a before)
      ];
      linked = λ j b a t found pending there. elim (found_cases j b a found) [
        | inl zeroed ↦ absurd (
            false≢true (
              sym (zero_entry-absent t)
              ∙ sym (ap (λ (e : BlockEntry). is_present e t) zeroed)
              ∙ there))
        | inr (before, same) ↦
            subst (λ (e : BlockEntry). slot_of e t ≢ slot_idx_free) (sym same)
              (v.linked j b a t before (λ e. pending (ap (λ (e : BlockEntry). e.decoded) same ∙ e))
                (sym (ap (λ (e : BlockEntry). is_present e t) same) ∙ there))
      ];
      unlocked = still_unlocked;
    }
