-- ===== src/Wire/Bytes.antt =====
-- wire.cpp: the little-endian helpers decode what they encode.
use receiver.Prelude.{
  ℕ, ◌*◌, ◌^◌, ◌+◌, ◌<◌, ◌≡◌, ap, ap₂, ◌∙◌, bit_or, List, arith, u8, u16, shl, shr, get_or,
}
use receiver.Prelude.Bits.{bit_or-low}
use receiver.Wire.{get_le16, get_le32}

-- Two bytes joined by `|` and `<<`.
pub get_le16-value :
    (p : List ℕ) (at : ℕ)
    → get_or p at 0 < 2 ^ 8
    → get_or p (at + 1) 0 < 2 ^ 8
    → get_le16 p at ≡ get_or p at 0 + get_or p (at + 1) 0 * 2 ^ 8
unfolding get_le16
get_le16-value p at lo hi =
    ap (bit_or (get_or p at 0)) (omega arith) ∙ bit_or-low 8 _ (get_or p (at + 1) 0) lo

pub get_le16_of_bytes :
    (p : List ℕ) (at v : ℕ)
    → get_or p at 0 ≡ u8 v
    → get_or p (at + 1) 0 ≡ u8 (shr v 8)
    → v < 2 ^ 16
    → get_le16 p at ≡ v
get_le16_of_bytes p at v lo hi h = get_le16-value p at (omega arith) (omega arith) ∙ omega arith

pub get_le32_of_halves :
    (p : List ℕ) (at v : ℕ)
    → get_le16 p at ≡ u16 v
    → get_le16 p (at + 2) ≡ u16 (shr v 16)
    → v < 2 ^ 32
    → get_le32 p at ≡ v
unfolding get_le32
get_le32_of_halves p at v lo hi h =
    ap₂ (λ (a b : ℕ). bit_or a (shl b 16)) lo hi
    ∙ bit_or-low 16 (u16 v) (u16 (shr v 16)) (omega arith)
    ∙ omega arith

pub get_le16_cong :
    (p q : List ℕ) (at : ℕ)
    → get_or p at 0 ≡ get_or q at 0
    → get_or p (at + 1) 0 ≡ get_or q (at + 1) 0
    → get_le16 p at ≡ get_le16 q at
unfolding get_le16
get_le16_cong p q at lo hi = ap₂ (λ (a b : ℕ). bit_or a (u16 (shl b 8))) lo hi

pub get_le32_cong :
    (p q : List ℕ) (at : ℕ)
    → get_le16 p at ≡ get_le16 q at
    → get_le16 p (at + 2) ≡ get_le16 q (at + 2)
    → get_le32 p at ≡ get_le32 q at
unfolding get_le32
get_le32_cong p q at lo hi = ap₂ (λ (a b : ℕ). bit_or a (shl b 16)) lo hi
