-- ===== src/Shm/Ownership/GiveBack.antt =====
-- A slot taken, filled and given back: the segment stays valid, with the same free slots.
use receiver.Prelude.{ℕ, List, ◌∷◌, length, ◌≤◌, ◌≡◌, refl}
use receiver.Shm.Layout.{slot_size}
use receiver.Shm.Segment.{Segment}
use receiver.Shm.Arena.{free_slot, fill_slot, note_alloc}
use receiver.Shm.Arena.FreeList.{IsArena, free_slot-IsArena, fill_slot-IsArena}
use receiver.Shm.Session.{block_entry}
use receiver.Shm.Ownership.Links.{LinkOf, Owned-cong}
use receiver.Shm.Ownership.Register.{taken, alloc_slot-taken}
use receiver.Shm.Ownership.Defs.{IsSegment}

module _ (s : Segment) (x : ℕ) (free payload : List ℕ) where
  abbrev pub given_back : Segment
  given_back = free_slot (fill_slot (taken s) x payload) x

  pub given_back-sessions : given_back.sessions ≡ s.sessions
  unfolding fill_slot free_slot
  given_back-sessions = refl

  of_given : (c u y : ℕ) → LinkOf given_back c u y → LinkOf s c u y
  unfolding fill_slot free_slot block_entry
  of_given c u y l = record {
    session_idx = l.session_idx;
    block_id = l.block_id;
    at_block = l.at_block;
    present = l.present;
    slot = l.slot;
    linked = l.linked;
  }

  to_given : (c u y : ℕ) → LinkOf s c u y → LinkOf given_back c u y
  unfolding fill_slot free_slot block_entry
  to_given c u y l = record {
    session_idx = l.session_idx;
    block_id = l.block_id;
    at_block = l.at_block;
    present = l.present;
    slot = l.slot;
    linked = l.linked;
  }

  pub given_back-IsSegment :
      IsSegment s (x ∷ free) → length payload ≤ slot_size → IsSegment given_back (x ∷ free)
  unfolding fill_slot free_slot note_alloc block_entry
  given_back-IsSegment v fits = record {
    owned =
        Owned-cong s given_back (x ∷ free) (LinkOf s) (LinkOf given_back) v.owned arena refl
          of_given to_given;
    tables = v.tables;
    ranged = v.ranged;
    counted = v.counted;
    linked = v.linked;
    unlocked = v.unlocked;
  }
    where
      arena : IsArena given_back (x ∷ free)
      arena =
          free_slot-IsArena (fill_slot (taken s) x payload) x free
            (fill_slot-IsArena (taken s) x payload free
              (alloc_slot-taken s x free v.owned.is_arena).1 v.owned.is_arena.distinct.0 fits)
            v.owned.is_arena.chain.1 v.owned.is_arena.distinct.0
