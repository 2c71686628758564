-- ===== src/Crc/Hardware.antt =====
-- crc.cpp: the hardware path of CRC32C agrees with the portable one, and the bounds of both sums.
use receiver.Prelude.{
  ℕ, zero, suc, ◌-◌, ◌*◌, ◌/◌, ◌%◌, ◌^◌, ◌≤◌, ◌<◌, ◌≡◌, refl, bit_and, bit_xor, List, [], ◌∷◌,
  arith, take, drop, length, u32,
}
use receiver.Prelude.Bits.{bit_and-step, bit_and-zero, bit_xor-lt}
use receiver.Crc.{
  Cpu, crc16_bit, crc16_bits, crc16_loop, crc16_ccitt_false, crc32c_bit, crc32c_bits, crc32c_byte,
  crc32c_loop, crc32c, load64,
}

crc16_bit-lt : (crc : ℕ) → crc16_bit crc < 2 ^ 16
unfolding crc16_bit
crc16_bit-lt crc = ground arith

crc16_bits-lt : (rounds crc : ℕ) → crc < 2 ^ 16 → crc16_bits rounds crc < 2 ^ 16
unfolding crc16_bits
crc16_bits-lt zero crc h = h
crc16_bits-lt (suc rounds) crc h = crc16_bits-lt rounds (crc16_bit crc) (crc16_bit-lt crc)

crc16_loop-lt : (data_bytes : List ℕ) (crc : ℕ) → crc < 2 ^ 16 → crc16_loop crc data_bytes < 2 ^ 16
unfolding crc16_loop
crc16_loop-lt [] crc h = h
crc16_loop-lt (d ∷ ds) crc h =
    crc16_loop-lt ds _ (crc16_bits-lt 7 _ (crc16_bit-lt (bit_xor crc (d * 2 ^ 8))))

-- The header checksum fits the two bytes of `hdr_crc16`.
pub crc16_ccitt_false-lt : (data_bytes : List ℕ) → crc16_ccitt_false data_bytes < 2 ^ 16
unfolding crc16_ccitt_false
crc16_ccitt_false-lt data_bytes = crc16_loop-lt data_bytes 0xFFFF (omega arith)

-- The body checksum fits the four bytes of `body_crc32c`, on any processor.
pub crc32c-lt : (cpu : Cpu) (data_bytes : List ℕ) → crc32c cpu data_bytes < 2 ^ 32
unfolding crc32c
crc32c-lt cpu data_bytes = ground arith

low_bit : (crc : ℕ) → bit_and crc 1 ≡ crc % 2
low_bit crc = omega (arith, bit_and-step crc 1, bit_and-zero (crc / 2))

mask-lt : (c : ℕ) → c < 2 → bit_and 0x82F63B78 (u32 (2 ^ 32 - c)) < 2 ^ 32
mask-lt zero h = omega arith
mask-lt (suc zero) h = omega arith
mask-lt (suc (suc c)) h = absurd (omega arith)

crc32c_bit-lt : (crc : ℕ) → crc < 2 ^ 32 → crc32c_bit crc < 2 ^ 32
unfolding crc32c_bit
crc32c_bit-lt crc h =
    bit_xor-lt 32 _ _ (omega arith) (mask-lt (bit_and crc 1) (omega (arith, low_bit crc)))

crc32c_bits-lt : (rounds crc : ℕ) → crc < 2 ^ 32 → crc32c_bits rounds crc < 2 ^ 32
unfolding crc32c_bits
crc32c_bits-lt zero crc h = h
crc32c_bits-lt (suc rounds) crc h = crc32c_bits-lt rounds (crc32c_bit crc) (crc32c_bit-lt crc h)

pub crc32c_byte-lt : (crc d : ℕ) → crc < 2 ^ 32 → d < 2 ^ 8 → crc32c_byte crc d < 2 ^ 32
unfolding crc32c_byte
crc32c_byte-lt crc d h k = crc32c_bits-lt 8 _ (bit_xor-lt 32 crc d h (omega arith))

abbrev pub AreBytes : List ℕ → Type 0
AreBytes [] = Unit {0}
AreBytes (d ∷ ds) = (d < 2 ^ 8) × AreBytes ds

-- What the instruction manual says: `crc32 r32, r8` is the bitwise step for one byte, and
-- `crc32 r64, r64` that step for the eight bytes of its operand, the lowest first.
pub record IsCrc32 (cpu : Cpu) : Type 0 where
  pub u8_lem : (crc d : ℕ) → crc < 2 ^ 32 → d < 2 ^ 8 → cpu.mm_crc32_u8 crc d ≡ crc32c_byte crc d
  pub u64_lem :
      (crc : ℕ) (p : List ℕ)
      → crc < 2 ^ 32
      → 8 ≤ length p
      → AreBytes p
      → cpu.mm_crc32_u64 crc (load64 p) ≡ crc32c_loop crc (take 8 p)

pub crc32c_loop-take-drop :
    (n crc : ℕ) (ds : List ℕ)
    → crc32c_loop (crc32c_loop crc (take n ds)) (drop n ds) ≡ crc32c_loop crc ds
unfolding crc32c_loop
crc32c_loop-take-drop zero crc ds = refl
crc32c_loop-take-drop (suc n) crc [] = refl
crc32c_loop-take-drop (suc n) crc (d ∷ ds) = crc32c_loop-take-drop n (crc32c_byte crc d) ds

pub AreBytes-drop : (n : ℕ) (ds : List ℕ) → AreBytes ds → AreBytes (drop n ds)
AreBytes-drop zero ds bs = bs
AreBytes-drop (suc n) [] bs = tt
AreBytes-drop (suc n) (d ∷ ds) bs = AreBytes-drop n ds bs.1

pub crc32c_loop-lt :
    (crc : ℕ) (ds : List ℕ) → crc < 2 ^ 32 → AreBytes ds → crc32c_loop crc ds < 2 ^ 32
unfolding crc32c_loop
crc32c_loop-lt crc [] h bs = h
crc32c_loop-lt crc (d ∷ ds) h bs =
    crc32c_loop-lt (crc32c_byte crc d) ds (crc32c_byte-lt crc d h bs.0) bs.1
