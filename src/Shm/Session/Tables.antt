-- ===== src/Shm/Session/Tables.antt =====
-- What the resets of `open_session` and `close_session` write in the block tables.
use receiver.Prelude.{ℕ, zero, suc, ◌<◌, ◌≡◌, ◌≢◌, refl, arith, ℕ_discrete, ne→not_==, ==_refl}
use receiver.Shm.Layout.{entry_offset}
use receiver.Shm.Segment.{BlockEntry, zero_entry}
use receiver.Shm.Session.{zero_blocks, reset_links}

-- The entries of the first `n` blocks of a table become zero,
pub zero_blocks-inside :
    (n table : ℕ) (f : ℕ → BlockEntry) (b : ℕ)
    → b < n
    → zero_blocks n table f (entry_offset table b) ≡ zero_entry
unfolding zero_blocks
zero_blocks-inside zero table f b lt = absurd (omega arith)
zero_blocks-inside (suc n) table f b lt = elim (ℕ_discrete n b) [
  | yes last ↦ rw (last, ==_refl (entry_offset table b)) refl
  | no before ↦
      rw (ne→not_== (entry_offset table n) (entry_offset table b) (λ e. before (omega arith)))
        (zero_blocks-inside n table f b (omega arith))
]

-- and what is no entry of theirs stays.
pub zero_blocks-outside :
    (n table : ℕ) (f : ℕ → BlockEntry) (c : ℕ)
    → ((b : ℕ) → b < n → entry_offset table b ≢ c)
    → zero_blocks n table f c ≡ f c
unfolding zero_blocks
zero_blocks-outside zero table f c away = refl
zero_blocks-outside (suc n) table f c away =
    rw (ne→not_== (entry_offset table n) c (away n (omega arith)))
      (zero_blocks-outside n table f c (λ b lt. away b (omega arith)))

pub reset_links-outside :
    (table k n : ℕ) (f : ℕ → BlockEntry) (c : ℕ)
    → ((b : ℕ) → b < n → entry_offset table b ≢ c)
    → reset_links table k n f c ≡ f c
unfolding reset_links
reset_links-outside table k zero f c away = refl
reset_links-outside table k (suc n) f c away =
    rw (ne→not_== (entry_offset table n) c (away n (omega arith)))
      (reset_links-outside table k n f c (λ b lt. away b (omega arith)))
