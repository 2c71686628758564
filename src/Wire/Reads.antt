-- ===== src/Wire/Reads.antt =====
-- wire.cpp: `validate_frame_prefix` reads nothing past the bytes that were received.
use receiver.Prelude.{
  ℕ, ◌+◌, ◌≤◌, ◌≡◌, ◌∙◌, sym, List, arith, inl, inr, Bool-cases, ltb, some, take, drop, Agree,
  take_ext, get_or-drop, length, length-drop,
}
use receiver.Crc.{Cpu}
use receiver.Wire.{get_le16, get_le32, has_magic, validate_prefix, validate_frame_prefix}
use receiver.Wire.Bytes.{get_le16_cong, get_le32_cong}

module _ (p q : List ℕ) (n : ℕ) (same : Agree 0 n p q) where
  pub has_magic_cong : 4 ≤ n → has_magic p ≡ has_magic q
  unfolding has_magic
  has_magic_cong h =
      rw (same 0 (omega arith), same 1 (omega arith), same 2 (omega arith), same 3 (omega arith))

  pub le16_cong : (at : ℕ) → at + 2 ≤ n → get_le16 p at ≡ get_le16 q at
  le16_cong at h = get_le16_cong p q at (same at (omega arith)) (same (at + 1) (omega arith))

  le32_cong : (at : ℕ) → at + 4 ≤ n → get_le32 p at ≡ get_le32 q at
  le32_cong at h =
      get_le32_cong p q at (le16_cong at (omega arith)) (le16_cong (at + 2) (omega arith))

  -- A span inside the first `n` bytes.
  pub span_cong :
      (at m : ℕ)
      → n ≤ length p
      → n ≤ length q
      → at + m ≤ n
      → take m (drop at p) ≡ take m (drop at q)
  span_cong at m lp lq h =
      take_ext 0 m (drop at p) (drop at q) (omega (arith, length-drop at p))
        (omega (arith, length-drop at q))
        λ i lt. get_or-drop 0 at p i ∙ same (at + i) (omega arith) ∙ sym (get_or-drop 0 at q i)

module _ (cpu : Cpu) (p q : List ℕ) (n : ℕ) where
  body_check_cong :
      Agree 0 n p q
      → n ≤ length p
      → n ≤ length q
      → 12 ≤ n
      → validate_prefix cpu p n ≡ validate_prefix cpu q n
  unfolding validate_prefix
  body_check_cong same lp lq h =
      rw
        (
          has_magic_cong p q n same (omega arith),
          le16_cong p q n same 6 (omega arith),
          le16_cong p q n same 4 (omega arith),
          le32_cong p q n same 8 (omega arith),
          take_ext 0 6 p q (omega arith) (omega arith) (λ i lt. same i (omega arith)),
        )
        (elim (Bool-cases (ltb n (12 + get_le16 q 4))) [
          | inl long ↦ rw long
          | inr fits ↦ rw (span_cong p q n same 12 (get_le16 q 4) lp lq (ground arith))
        ])

  -- If two buffers both have at least n bytes and agree on the first n, validate_frame_prefix
  -- answers the same for both at length n: what lies behind the received length is never read.
  pub validate_frame_prefix-reads :
      n ≤ length p
      → n ≤ length q
      → Agree 0 n p q
      → validate_frame_prefix cpu (some p) n ≡ validate_frame_prefix cpu (some q) n
  unfolding validate_frame_prefix
  validate_frame_prefix-reads lp lq same = elim (Bool-cases (ltb n 12)) [
    | inl short ↦ rw short
    | inr holds ↦ rw holds (body_check_cong same lp lq (ground arith))
  ]
