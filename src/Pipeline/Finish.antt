-- ===== src/Pipeline/Finish.antt =====
-- session_pipeline.cpp: finish_block, which completes a block and gives its slots back.
use receiver.Prelude.{ℕ, ◌≡◌, ◌≢◌, true, false, List, some, refl, sym, ◌∙◌, arith, ℕ_discrete}
use receiver.Shm.Layout.{decode_complete, decode_claimed}
use receiver.Shm.Segment.{Segment, SessionEntry}
use receiver.Shm.Block.{is_present}
use receiver.Shm.Block.Latch.{complete_won, complete_lost}
use receiver.Shm.Session.{block_entry}
use receiver.Shm.Ownership.Defs.{IsSegment}
use receiver.Shm.Ownership.Latch.{
  latched, latched-IsSegment, same_block, same_present, same_slot, latched_at,
}
use receiver.Pipeline.Release.{release_slots-Released, Released}
use receiver.Pipeline.{gathered, release_slots, finish_block}

-- The segment is valid for some list of free slots, with the session table `table`.
abbrev pub IsValid : (ℕ → SessionEntry) → Segment → Type 0
IsValid table s = (free : List ℕ) × IsSegment s free × (s.sessions ≡ table)

module _ (s : Segment) (n a : ℕ) where
  pub finish_block-claimed :
      (s.blocks a).decoded ≡ decode_claimed
      → finish_block s n a
        ≡ (true, release_slots (gathered (s.blocks a) n) a n (latched s a decode_complete))
  unfolding finish_block
  finish_block-claimed h = rw (complete_won (s.blocks a) h) refl

  pub finish_block-other : (s.blocks a).decoded ≢ decode_claimed → finish_block s n a ≡ (false, s)
  unfolding finish_block
  finish_block-other h = rw (complete_lost (s.blocks a) h) refl

  pub finish_block-Released :
      (i b : ℕ) (free : List ℕ)
      → IsSegment s free
      → block_entry s i b ≡ some a
      → (s.blocks a).decoded ≡ decode_claimed
      → (free' : List ℕ) × Released
          (latched s a decode_complete)
          (finish_block s n a).1
          a
          n
          (gathered (s.blocks a) n)
          free
          free'
  finish_block-Released i b free v at_block claimed = rw (finish_block-claimed claimed) (
      release_slots-Released (latched s a decode_complete) i b a (gathered (s.blocks a) n) free
        (latched-IsSegment s a decode_complete v (λ ne. absurd (ne refl)))
        (same_block s a decode_complete i b ∙ at_block) (latched_at s a decode_complete)
        (λ u g. same_present s a decode_complete a u ∙ gathered-present u g)
        (λ u g e.
          v.linked i b a u at_block (λ c. absurd (omega (arith, c, claimed))) (gathered-present u g)
            (sym (same_slot s a decode_complete a u) ∙ e))
        n)
    where
      gathered-present :
          (u : ℕ) → gathered (s.blocks a) n u ≡ true → is_present (s.blocks a) u ≡ true
      gathered-present u g = ground arith

  pub finish_block-IsValid :
      (table : ℕ → SessionEntry) (i b : ℕ)
      → IsValid table s
      → block_entry s i b ≡ some a
      → IsValid table (finish_block s n a).1
  finish_block-IsValid table i b (free, v, e) at_block =
      elim (ℕ_discrete (s.blocks a).decoded decode_claimed) [
        | yes claimed ↦
            let (free', r) = finish_block-Released i b free v at_block claimed in
            (free', r.valid, r.sessions ∙ e)
        | no other ↦ rw (finish_block-other other) (free, v, e)
      ]
