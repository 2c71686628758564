-- ===== src/Shm/Block/Symbols.antt =====
-- The presence bits as a set of symbols, and `seen` as its size.
use receiver.Prelude.{
  ℕ, ◌/◌, ◌%◌, ◌<◌, ◌≤◌, ◌≡◌, ◌⊎◌, inl, inr, refl, ap, sym, ◌∙◌, arith, true, false, if◌then◌else◌,
  ◌==◌, leb, Bool-cases, ℕ_discrete, count, count_insert, count-le, count-zero, ==_refl, ne→not_==,
}
use receiver.Prelude.Bits.{bit, bit-lt, bit_and_power, bit-set_self, bit-set_ne, bit-zero}
use native.Mathlib.Nat.{one-le-pow}
use receiver.Shm.Layout.{max_n, slot_idx_free}
use receiver.Shm.Segment.{BlockEntry, zero_entry}
use receiver.Shm.Block.{
  register_symbol, registered, is_present, word_has, new_symbol, duplicate, invalid_symbol_id,
  clear_slot, slot_of,
}

-- The test of a bit by its mask, as its binary digit.
word_has-bit : (word s : ℕ) → word_has word s ≡ (bit (s % 64) word == 1)
word_has-bit word s =
    ground (arith, bit_and_power (s % 64) word, bit-lt (s % 64) word, one-le-pow (s % 64) 2)

-- Setting one symbol's bit, seen at any symbol.
registered-bit :
    (e : BlockEntry) (s slot t : ℕ)
    → bit (t % 64) ((registered e s slot).present_mask (t / 64))
      ≡ (if s == t then 1 else bit (t % 64) (e.present_mask (t / 64)))
registered-bit e s slot t = elim (ℕ_discrete (s / 64) (t / 64)) [
  | yes word ↦ elim (ℕ_discrete (s % 64) (t % 64)) [
    | yes place ↦
        rw (the_same word place) (rw (==_refl (t / 64), ==_refl t) (bit-set_self (t % 64) _))
    | no other ↦
        rw (word, ==_refl (t / 64), ne→not_== s t (λ e. other (ap (λ (x : ℕ). x % 64) e)))
          (bit-set_ne (s % 64) (t % 64) _ other)
  ]
  | no far ↦ rw (ne→not_== _ _ far, ne→not_== s t (λ e. far (ap (λ (x : ℕ). x / 64) e))) refl
]
  where
    the_same : s / 64 ≡ t / 64 → s % 64 ≡ t % 64 → s ≡ t
    the_same p q = omega arith

-- After a registration, the symbol is present and every other is as before.
pub is_present-registered :
    (e : BlockEntry) (s slot t : ℕ)
    → s < max_n
    → is_present (registered e s slot) t ≡ (if s == t then true else is_present e t)
unfolding is_present
is_present-registered e s slot t lt =
    rw (word_has-bit _ t, word_has-bit (e.present_mask (t / 64)) t, registered-bit) (ground arith)

-- `seen` counts the symbols whose presence bits are set.
abbrev pub IsCounted : BlockEntry → Type 0
IsCounted e = e.seen ≡ count max_n (is_present e)

pub zero_entry-absent : (t : ℕ) → is_present zero_entry t ≡ false
unfolding is_present
zero_entry-absent t = rw (word_has-bit, bit-zero) (ground arith)

pub zero_entry-IsCounted : IsCounted zero_entry
zero_entry-IsCounted = sym (count-zero max_n (is_present zero_entry) (λ i lt. zero_entry-absent i))

pub registered-IsCounted :
    (e : BlockEntry) (s slot : ℕ)
    → s < max_n
    → is_present e s ≡ false
    → IsCounted e
    → IsCounted (registered e s slot)
registered-IsCounted e s slot lt absent counted = omega (
  arith,
  count-le max_n (is_present (registered e s slot)),
  count_insert max_n (is_present e) (is_present (registered e s slot)) s lt absent
      (is_present-registered e s slot s lt ∙ rw (==_refl s) refl)
      (λ t ne. is_present-registered e s slot t lt ∙ rw (ne→not_== s t (λ q. ne (sym q))) refl),
)

-- If a block's count is the number of its presence bits, then register_symbol refuses an id from
-- 255 on and an id that is present, in both cases without a change, and otherwise records the
-- symbol and its slot, and the count is again the number of presence bits.
pub register_symbol_lem :
    (e : BlockEntry) (s slot : ℕ)
    → IsCounted e
    → ((max_n ≤ s) × (register_symbol e s slot ≡ (invalid_symbol_id, e)))
      ⊎ (((s < max_n) × (is_present e s ≡ true) × (register_symbol e s slot ≡ (duplicate, e)))
          ⊎ ((s < max_n)
              × (is_present e s ≡ false)
              × (register_symbol e s slot ≡ (new_symbol, registered e s slot))
              × IsCounted (registered e s slot)))
unfolding register_symbol is_present
register_symbol_lem e s slot counted = elim (Bool-cases (leb max_n s)) [
  | inl out ↦ inl (ground arith, rw out)
  | inr within ↦ elim (Bool-cases (word_has (e.present_mask (s / 64)) s)) [
    | inl old ↦ inr (inl (ground arith, rw (within, old), rw (within, old)))
    | inr new ↦ inr (
        inr (
          ground arith,
          rw (within, new),
          rw (within, new),
          registered-IsCounted e s slot (ground arith) (rw (within, new)) counted,
        ))
  ]
]

-- The slot of the symbol just registered, and of the others.
pub slot_of-registered :
    (e : BlockEntry) (s slot t : ℕ)
    → s < max_n
    → slot_of (registered e s slot) t ≡ (if s == t then slot else slot_of e t)
unfolding slot_of
slot_of-registered e s slot t lt = ground arith

-- Clearing a symbol's link keeps the presence bits, as history, and the other links.
pub clear_slot_lem :
    (e : BlockEntry) (s t : ℕ)
    → (slot_of (clear_slot e s) t ≡ (if s == t then slot_idx_free else slot_of e t))
      × (is_present (clear_slot e s) t ≡ is_present e t)
unfolding slot_of clear_slot is_present
clear_slot_lem e s t = (ground arith, ground arith)
