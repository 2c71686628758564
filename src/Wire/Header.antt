-- ===== src/Wire/Header.antt =====
-- wire.cpp: the eight bytes that `write_header` puts in front of a body.
use receiver.Prelude.{
  ℕ, ◌^◌, ◌+◌, ◌<◌, ◌≤◌, ◌≡◌, ap, ◌∙◌, sym, List, arith, get_or, inl, true, take, Agree, take_ext,
  length, write_at, length-write_at, get_or-write_at_inside, get_or-write_at_outside, u16, shr,
}
use receiver.Crc.{crc16_ccitt_false}
use receiver.Crc.Hardware.{crc16_ccitt_false-lt}
use receiver.Wire.{get_le16, get_le32, has_magic, wire_magic, put_le16, put_le32, write_header}
use receiver.Wire.Bytes.{get_le16_of_bytes, get_le32_of_halves}
use receiver.Wire.Reads.{has_magic_cong, le16_cong}

-- The first eight bytes are a header for a body of `n` bytes.
pub record IsHeader (p : List ℕ) (n : ℕ) : Type 0 where
  long : 12 ≤ length p
  pub magic : has_magic p ≡ true
  pub len : get_le16 p 4 ≡ n
  pub crc : get_le16 p 6 ≡ crc16_ccitt_false (take 6 p)

pub IsHeader-cong :
    (p q : List ℕ) (n : ℕ) → Agree 0 8 p q → length q ≡ length p → IsHeader p n → IsHeader q n
IsHeader-cong p q n same e h = record {
  long = omega arith;
  magic = sym (has_magic_cong p q 8 same (omega arith)) ∙ h.magic;
  len = sym (le16_cong p q 8 same 4 (omega arith)) ∙ h.len;
  crc =
      sym (le16_cong p q 8 same 6 (omega arith))
      ∙ h.crc
      ∙ ap crc16_ccitt_false
          (take_ext 0 6 p q (omega arith) (omega arith) (λ i lt. same i (omega arith)));
}

-- A write of `bs` at `off`, seen at its byte `k`.
pub put_byte :
    (off : ℕ) (bs p : List ℕ) (j k : ℕ)
    → j ≡ off + k
    → k < length bs
    → j < length p
    → get_or (write_at off bs p) j 0 ≡ get_or bs k 0
put_byte off bs p j k e lt room =
    get_or-write_at_inside off bs p j 0 (omega arith) (omega arith) room
    ∙ ap (λ (i : ℕ). get_or bs i 0) (omega arith)

pub Agree-write_at : (off : ℕ) (bs p : List ℕ) → Agree 0 off (write_at off bs p) p
Agree-write_at off bs p i lt = get_or-write_at_outside off bs p i 0 (inl lt)

-- Two bytes stored and read back.
get_le16-put :
    (p : List ℕ) (at v : ℕ)
    → v < 2 ^ 16
    → at + 2 ≤ length p
    → get_le16 (write_at at (put_le16 v) p) at ≡ v
unfolding put_le16
get_le16-put p at v h room =
    get_le16_of_bytes _ at v (put_byte at _ p at 0 (omega arith) (omega arith) (omega arith))
      (put_byte at _ p (at + 1) 1 (omega arith) (omega arith) (omega arith)) h

magic-write_at : (out : List ℕ) → 4 ≤ length out → has_magic (write_at 0 wire_magic out) ≡ true
unfolding has_magic
magic-write_at out h = rw (
  put_byte 0 wire_magic out 0 0 (omega arith) (omega arith) (omega arith),
  put_byte 0 wire_magic out 1 1 (omega arith) (omega arith) (omega arith),
  put_byte 0 wire_magic out 2 2 (omega arith) (omega arith) (omega arith),
  put_byte 0 wire_magic out 3 3 (omega arith) (omega arith) (omega arith),
)

pub write_header-IsHeader :
    (out : List ℕ) (n : ℕ) → 12 ≤ length out → n < 2 ^ 16 → IsHeader (write_header out n) n
unfolding write_header
write_header-IsHeader out n room small = record {
  long = omega (arith, length-write_at {0} 6 (put_le16 sum) with_len, with_len-long);
  magic =
      has_magic_cong _ with_len 6 below6 (omega arith)
      ∙ has_magic_cong with_len with_magic 4 (Agree-write_at 4 _ _) (omega arith)
      ∙ magic-write_at out (omega arith);
  len =
      le16_cong _ with_len 6 below6 4 (omega arith)
      ∙ get_le16-put with_magic 4 (u16 n) (omega arith) (omega (arith, with_magic-long))
      ∙ omega arith;
  crc =
      get_le16-put with_len 6 sum (crc16_ccitt_false-lt _) (omega (arith, with_len-long))
      ∙ ap crc16_ccitt_false (
          take_ext 0 6 with_len _ (omega (arith, with_len-long))
            (omega (arith, length-write_at {0} 6 (put_le16 sum) with_len, with_len-long))
            (λ i lt. sym (below6 i lt)));
}
  where
    with_magic : List ℕ
    with_magic = write_at 0 wire_magic out

    with_len : List ℕ
    with_len = write_at 4 (put_le16 (u16 n)) with_magic

    sum : ℕ
    sum = crc16_ccitt_false (take 6 with_len)

    with_magic-long : 12 ≤ length with_magic
    with_magic-long = omega (arith, length-write_at {0} 0 wire_magic out)

    with_len-long : 12 ≤ length with_len
    with_len-long =
        omega (arith, length-write_at {0} 4 (put_le16 (u16 n)) with_magic, with_magic-long)

    below6 : Agree 0 6 (write_at 6 (put_le16 sum) with_len) with_len
    below6 = Agree-write_at 6 _ _

pub length-write_header : (out : List ℕ) (n : ℕ) → length (write_header out n) ≡ length out
unfolding write_header
length-write_header out n =
    length-write_at 6 _ _ ∙ length-write_at 4 _ _ ∙ length-write_at 0 wire_magic out

-- The four bytes of the body checksum, stored and read back.
pub get_le32-put :
    (p : List ℕ) (at v : ℕ)
    → v < 2 ^ 32
    → at + 4 ≤ length p
    → get_le32 (write_at at (put_le32 v) p) at ≡ v
unfolding put_le32
get_le32-put p at v h room =
    get_le32_of_halves _ at v
      (get_le16_of_bytes _ at (u16 v)
        (put_byte at _ p at 0 (omega arith) (omega arith) (omega arith))
        (put_byte at _ p (at + 1) 1 (omega arith) (omega arith) (omega arith)) (omega arith))
      (get_le16_of_bytes _ (at + 2) (u16 (shr v 16))
        (put_byte at _ p (at + 2) 2 (omega arith) (omega arith) (omega arith))
        (put_byte at _ p (at + 2 + 1) 3 (omega arith) (omega arith) (omega arith)) (omega arith))
      h
