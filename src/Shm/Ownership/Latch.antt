-- ===== src/Shm/Ownership/Latch.antt =====
-- A change of the decode latch of one block keeps the invariant.
use receiver.Prelude.{ℕ, ◌≡◌, ◌≢◌, List, refl, ap, sym, ◌∙◌, arith, ℕ_discrete, count, fun_ext}
use receiver.Shm.Layout.{decode_complete, max_n}
use receiver.Shm.Segment.{Segment, set_block}
use receiver.Shm.Arena.FreeList.{set_block-IsArena}
use receiver.Shm.Block.{is_present, slot_of}
use receiver.Shm.Session.{block_entry}
use receiver.Shm.Ownership.Links.{LinkOf, Owned-cong}
use receiver.Shm.Ownership.Defs.{IsSegment}

module _ (s : Segment) (a d : ℕ) where
  abbrev pub latched : Segment
  latched = set_block s a (record (s.blocks a) { decoded = d })

  pub same_block : (j c : ℕ) → block_entry latched j c ≡ block_entry s j c
  unfolding block_entry
  same_block j c = refl

  -- All but the latch is as before.
  pub same_present : (c u : ℕ) → is_present (latched.blocks c) u ≡ is_present (s.blocks c) u
  unfolding is_present
  same_present c u = ground arith

  pub same_slot : (c u : ℕ) → slot_of (latched.blocks c) u ≡ slot_of (s.blocks c) u
  unfolding slot_of
  same_slot c u = ground arith

  pub same_seen : (c : ℕ) → (latched.blocks c).seen ≡ (s.blocks c).seen
  same_seen c = ground arith

  pub latched_at : (latched.blocks a).decoded ≡ d
  latched_at = ground arith

  pub latched_away : (c : ℕ) → a ≢ c → (latched.blocks c).decoded ≡ (s.blocks c).decoded
  latched_away c ne = ground arith

  to_latched : (c u y : ℕ) → LinkOf s c u y → LinkOf latched c u y
  to_latched c u y l = record {
    session_idx = l.session_idx;
    block_id = l.block_id;
    at_block = same_block _ _ ∙ l.at_block;
    present = same_present c u ∙ l.present;
    slot = same_slot c u ∙ l.slot;
    linked = l.linked;
  }

  of_latched : (c u y : ℕ) → LinkOf latched c u y → LinkOf s c u y
  of_latched c u y l = record {
    session_idx = l.session_idx;
    block_id = l.block_id;
    at_block = sym (same_block _ _) ∙ l.at_block;
    present = sym (same_present c u) ∙ l.present;
    slot = sym (same_slot c u) ∙ l.slot;
    linked = l.linked;
  }

  -- The latch may move to any state, but out of `DECODE_COMPLETE` only if it was not there.
  pub latched-IsSegment :
      {free : List ℕ}
      → IsSegment s free
      → (d ≢ decode_complete → (s.blocks a).decoded ≢ decode_complete)
      → IsSegment latched free
  latched-IsSegment {free} v open_before = record {
    owned =
        Owned-cong s latched free (LinkOf s) (LinkOf latched) v.owned
          (set_block-IsArena s a _ free v.owned.is_arena) refl of_latched to_latched;
    tables = v.tables;
    ranged =
        λ i b c t p q. v.ranged i b c t (sym (same_block i b) ∙ p) (sym (same_present c t) ∙ q);
    counted = λ i b c p.
        same_seen c
        ∙ v.counted i b c (sym (same_block i b) ∙ p)
        ∙ ap (count max_n) (fun_ext (λ u. sym (same_present c u)));
    linked = λ i b c t p q r.
        rw (same_slot c t) (
          v.linked i b c t (sym (same_block i b) ∙ p) (still_open c q)
            (sym (same_present c t) ∙ r));
    unlocked = v.unlocked;
  }
    where
      still_open :
          (c : ℕ)
          → (latched.blocks c).decoded ≢ decode_complete
          → (s.blocks c).decoded ≢ decode_complete
      still_open c q = elim (ℕ_discrete a c) [
        | yes here ↦ rw (← here) (open_before (λ e. q (rw (← here) (latched_at ∙ e))))
        | no away ↦ λ e. q (latched_away c away ∙ e)
      ]
