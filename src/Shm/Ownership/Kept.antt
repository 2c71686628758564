-- ===== src/Shm/Ownership/Kept.antt =====
-- shm_manager.cpp: what the sweep of close_session leaves as it was.
use receiver.Prelude.{ℕ, zero, suc, ◌/◌, ◌≡◌, inl, inr, refl, ◌∙◌, ◌==◌, Bool-cases}
use receiver.Shm.Layout.{slot_idx_free, entry_offset}
use receiver.Shm.Segment.{Segment, BlockEntry}
use receiver.Shm.Arena.{free_slot}
use receiver.Shm.Block.{word_has}
use receiver.Shm.Session.{release_symbol, sweep_symbols, sweep_blocks}

abbrev pub IsKept : Segment → Segment → Type 0
IsKept r r' =
    (r'.blocks ≡ r.blocks)
    × (r'.sessions ≡ r.sessions)
    × (r'.header.session_open_lock ≡ r.header.session_open_lock)
    × (r'.header.block_table_region_offset ≡ r.header.block_table_region_offset)

IsKept-trans : (q r s : Segment) → IsKept q r → IsKept r s → IsKept q s
IsKept-trans q r s (a, b, c, d) (e, f, g, h) = (e ∙ a, f ∙ b, g ∙ c, h ∙ d)

release_symbol-IsKept : (e : BlockEntry) (t : ℕ) (r : Segment) → IsKept r (release_symbol e t r)
unfolding release_symbol free_slot
release_symbol-IsKept e t r = elim (Bool-cases (word_has (e.present_mask (t / 64)) t)) [
  | inr absent ↦ simp absent (refl, refl, refl, refl)
  | inl there ↦ elim (Bool-cases (e.slot_idx t == slot_idx_free)) [
    | inl unlinked ↦ simp (there, unlinked) (refl, refl, refl, refl)
    | inr linked ↦ simp (there, linked) (refl, refl, refl, refl)
  ]
]

sweep_symbols-IsKept : (e : BlockEntry) (n : ℕ) (r : Segment) → IsKept r (sweep_symbols e n r)
unfolding sweep_symbols
sweep_symbols-IsKept e zero r = (refl, refl, refl, refl)
sweep_symbols-IsKept e (suc t) r =
    IsKept-trans r (sweep_symbols e t r) (release_symbol e t (sweep_symbols e t r))
      (sweep_symbols-IsKept e t r) (release_symbol-IsKept e t (sweep_symbols e t r))

pub sweep_blocks-IsKept :
    (table n total : ℕ) (r : Segment) → IsKept r (sweep_blocks table n total r)
unfolding sweep_blocks
sweep_blocks-IsKept table n zero r = (refl, refl, refl, refl)
sweep_blocks-IsKept table n (suc b) r =
    IsKept-trans r (sweep_blocks table n b r)
      (sweep_symbols ((sweep_blocks table n b r).blocks (entry_offset table b)) n
        (sweep_blocks table n b r))
      (sweep_blocks-IsKept table n b r)
      (sweep_symbols-IsKept ((sweep_blocks table n b r).blocks (entry_offset table b)) n
        (sweep_blocks table n b r))
