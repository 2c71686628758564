-- ===== src/Shm/Race.antt =====
-- shm_manager.cpp, `BlockView`: calls of register_symbol on one block, interleaved step by step.
pub mod Counts
pub mod Moves
pub mod Reached
use receiver.Prelude.{
  ℕ, ◌+◌, ◌/◌, ◌<◌, ◌≤◌, ◌≡◌, bit_or, Bool, true, false, if◌then◌else◌, ◌==◌, u32,
}
use receiver.Shm.Layout.{max_n}
use receiver.Shm.Memory.{update}
use receiver.Shm.Segment.{BlockEntry}
use receiver.Shm.Block.{symbol_bit, word_has}

-- Where a call stands: before its first load; in the loop, with the word that it read; after its
-- exchange; after its write of the slot; and returned.
pub data Call : Type 0 where
  waiting : (symbol_id slot : ℕ) → Call
  loaded : (symbol_id slot old_word : ℕ) → Call
  won : (symbol_id slot : ℕ) → Call
  linked : (symbol_id slot : ℕ) → Call
  returned_new : (symbol_id slot : ℕ) → Call
  returned_duplicate returned_invalid : Call

-- What the exchange stores.
abbrev pub set_bit : BlockEntry → ℕ → BlockEntry
set_bit e symbol_id = record e {
  present_mask =
      update e.present_mask (symbol_id / 64)
        (bit_or (e.present_mask (symbol_id / 64)) (symbol_bit symbol_id));
}

-- One atomic action of a call on the entry. An exchange fails when the word has changed, and may fail
-- when it has not.
pub data Move (e : BlockEntry) : Call → BlockEntry → Call → Type 0 where
  refuse : (s x : ℕ) → max_n ≤ s → Move e (waiting s x) e returned_invalid
  load_word : (s x : ℕ) → s < max_n → Move e (waiting s x) e (loaded s x (e.present_mask (s / 64)))
  find_set : (s x w : ℕ) → word_has w s ≡ true → Move e (loaded s x w) e returned_duplicate
  exchange :
      (s x w : ℕ)
      → word_has w s ≡ false
      → e.present_mask (s / 64) ≡ w
      → Move e (loaded s x w) (set_bit e s) (won s x)
  reload :
      (s x w : ℕ)
      → word_has w s ≡ false
      → Move e (loaded s x w) e (loaded s x (e.present_mask (s / 64)))
  link : (s x : ℕ) → Move e (won s x) (record e { slot_idx = update e.slot_idx s x }) (linked s x)
  add_seen :
      (s x : ℕ) → Move e (linked s x) (record e { seen = u32 (e.seen + 1) }) (returned_new s x)

pub record Race : Type 0 where
  pub entry : BlockEntry
  pub calls : ℕ → Call

-- A step of one of `n` calls, in any order.
pub data Step (n : ℕ) (r : Race) : Race → Type 0 where
  act :
      (i : ℕ) {e : BlockEntry} {c : Call}
      → i < n
      → Move r.entry (r.calls i) e c
      → Step n r (record { entry = e; calls = update r.calls i c })

pub data Reach (n : ℕ) (r : Race) : Race → Type 0 where
  start : Reach n r r
  later : {s t : Race} → Reach n r s → Step n s t → Reach n r t
