-- ===== src/Wire/RoundTrip.antt =====
-- wire.cpp: a frame that `build_frame` writes passes `validate_frame_prefix`.
use receiver.Prelude.{
  ℕ, ◌^◌, ◌+◌, ◌<◌, ◌≤◌, ◌≡◌, refl, ap, ◌∙◌, sym, List, arith, inl, inr, Bool-cases, ltb,
  if◌then◌else◌, some, take, drop, Agree, take_ext, get_or-drop, length, length-drop, write_at,
  length-write_at, get_or-write_at_outside, length-take, get_or-take, ==_refl, le→not_ltb,
}
use receiver.Crc.{Cpu, crc16_ccitt_false, crc32c}
use receiver.Crc.Hardware.{crc32c-lt}
use receiver.Wire.{
  get_le32, validate_prefix, validate_frame_prefix, ok, write_header, write_body_crc, build_frame,
}
use receiver.Wire.Header.{
  IsHeader, IsHeader-cong, put_byte, Agree-write_at, write_header-IsHeader, length-write_header,
  get_le32-put,
}

-- The buffer that `build_frame` leaves, when there is room: header, body, checksum.
module _ (cpu : Cpu) (out body : List ℕ) (n : ℕ) where
  abbrev with_body : List ℕ
  with_body = if ltb 0 n then write_at 12 (take n body) (write_header out n) else write_header out n

  abbrev frame : List ℕ
  frame = write_body_crc cpu with_body n

  build_frame-frame :
      (cap : ℕ)
      → n < 2 ^ 16
      → 12 + n ≤ cap
      → build_frame cpu (some out) cap (some body) n ≡ record { size = 12 + n; buffer = frame }
  unfolding build_frame
  build_frame-frame cap small fits = ground arith

  module _ (room : 12 + n ≤ length out) (small : n < 2 ^ 16) (given : n ≤ length body) where
    with_body-long : length with_body ≡ length out
    with_body-long = elim (Bool-cases (ltb 0 n)) [
      | inl some_body ↦ rw some_body (length-write_at 12 _ _ ∙ length-write_header out n)
      | inr empty ↦ rw empty (length-write_header out n)
    ]

    with_body-Agree : Agree 0 8 (write_header out n) with_body
    with_body-Agree i lt = elim (Bool-cases (ltb 0 n)) [
      | inl some_body ↦ rw some_body (sym (Agree-write_at 12 _ _ i (omega arith)))
      | inr empty ↦ rw empty refl
    ]

    -- The body lies where the prefix ends.
    with_body-body : take n (drop 12 with_body) ≡ take n body
    with_body-body =
        take_ext 0 n (drop 12 with_body) body
          (omega (arith, with_body-long, length-drop 12 with_body)) given body_byte
      where
        body_byte : Agree 0 n (drop 12 with_body) body
        body_byte i lt = get_or-drop 0 12 with_body i ∙ elim (Bool-cases (ltb 0 n)) [
          | inl some_body ↦ rw some_body (
              put_byte 12 (take n body) (write_header out n) (12 + i) i refl
                (omega (arith, length-take n body)) (omega (arith, length-write_header out n))
              ∙ get_or-take n body i 0 lt)
          | inr empty ↦ absurd (ground arith)
        ]

    -- The checksum's four bytes touch neither the header nor the body.
    frame-header : Agree 0 8 (write_header out n) frame
    unfolding write_body_crc
    frame-header i lt = with_body-Agree i lt ∙ sym (Agree-write_at 8 _ _ i lt)

    frame-long : length frame ≡ length out
    unfolding write_body_crc
    frame-long = length-write_at 8 _ _ ∙ with_body-long

    frame-body : take n (drop 12 frame) ≡ take n body
    unfolding write_body_crc
    frame-body =
        take_ext 0 n (drop 12 frame) (drop 12 with_body)
          (omega (arith, frame-long, length-drop 12 frame))
          (omega (arith, with_body-long, length-drop 12 with_body)) past
        ∙ with_body-body
      where
        past : Agree 0 n (drop 12 frame) (drop 12 with_body)
        past i lt =
            get_or-drop 0 12 frame i
            ∙ get_or-write_at_outside 8 _ with_body (12 + i) 0 (inr (omega arith))
            ∙ sym (get_or-drop 0 12 with_body i)

    frame-crc : get_le32 frame 8 ≡ crc32c cpu (take n body)
    unfolding write_body_crc
    frame-crc =
        get_le32-put with_body 8 _ (crc32c-lt cpu _) (omega (arith, with_body-long))
        ∙ ap (crc32c cpu) with_body-body

    frame-IsHeader : IsHeader frame n
    frame-IsHeader =
        IsHeader-cong (write_header out n) frame n frame-header
          (frame-long ∙ sym (length-write_header out n))
          (write_header-IsHeader out n (omega arith) small)

    frame-valid :
        validate_frame_prefix cpu (some frame) (12 + n)
        ≡ record { code = ok; out_body = some 12; out_body_len = n }
    unfolding validate_frame_prefix validate_prefix
    frame-valid = rw (
      le→not_ltb (12 + n) 12 (omega arith),
      frame-IsHeader.magic,
      frame-IsHeader.len,
      frame-IsHeader.crc,
      ==_refl (crc16_ccitt_false (take 6 frame)),
      le→not_ltb (12 + n) (12 + n) (omega arith),
      frame-body,
      frame-crc,
      ==_refl (crc32c cpu (take n body)),
    )

-- If the buffer has at least cap bytes, the prefix and the n bytes of the body fit cap, n is below
-- 2 ^ 16 and the body has n bytes, then build_frame returns 12 + n, and validate_frame_prefix
-- accepts what it built, with the n bytes after the prefix as body, which are the body's.
pub validate-build_frame :
    (cpu : Cpu) (out body : List ℕ) (cap n : ℕ)
    → cap ≤ length out
    → 12 + n ≤ cap
    → n < 2 ^ 16
    → n ≤ length body
    → let built = build_frame cpu (some out) cap (some body) n in
      (built.size ≡ 12 + n)
      × (validate_frame_prefix cpu (some built.buffer) (12 + n)
          ≡ record { code = ok; out_body = some 12; out_body_len = n })
      × (take n (drop 12 built.buffer) ≡ take n body)
validate-build_frame cpu out body cap n whole fits small given =
    rw (build_frame-frame cpu out body n cap small fits) (
      refl,
      frame-valid cpu out body n (omega arith) small given,
      frame-body cpu out body n (omega arith) small given,
    )
