-- ===== src/Crc.antt =====
-- src/common/crc.cpp: the two checksums of the wire prefix. A pointer with a length is the list of
-- the bytes that it spans.
pub mod Hardware
use receiver.Prelude.{
  ℕ, zero, suc, ◌-◌, ◌*◌, ◌/◌, ◌%◌, ◌^◌, ◌+◌, bit_and, bit_xor, Bool, true, false, List, [], ◌∷◌,
  if◌then◌else◌, ◌==◌, u16, u32, shl, shr, get_or, drop, length,
}

-- One round of the inner loop of `crc16_ccitt_false`.
crc16_bit : ℕ → ℕ
crc16_bit crc =
    if bit_and crc 0x8000 == 0 then u16 (shl crc 1) else u16 (bit_xor (shl crc 1) 0x1021)

-- `for (bit = 0; bit < 8; ++bit)`, by the rounds that are left.
crc16_bits : ℕ → ℕ → ℕ
unfolding crc16_bit
crc16_bits zero crc = crc
crc16_bits (suc rounds) crc = crc16_bits rounds (crc16_bit crc)

crc16_loop : ℕ → List ℕ → ℕ
unfolding crc16_bits
crc16_loop crc [] = crc
crc16_loop crc (d ∷ ds) = crc16_loop (crc16_bits 8 (bit_xor crc (shl d 8))) ds

unfoldable pub crc16_ccitt_false : List ℕ → ℕ
unfolding crc16_loop
crc16_ccitt_false data_bytes = crc16_loop 0xFFFF data_bytes

-- One round of the inner loop of `crc32c_sw`; `mask` is all ones if the low bit is set, else 0.
crc32c_bit : ℕ → ℕ
crc32c_bit crc =
    let mask = u32 (2 ^ 32 - bit_and crc 1) in bit_xor (shr crc 1) (bit_and 0x82F63B78 mask)

crc32c_bits : ℕ → ℕ → ℕ
unfolding crc32c_bit
crc32c_bits zero crc = crc
crc32c_bits (suc rounds) crc = crc32c_bits rounds (crc32c_bit crc)

-- The body of the outer loop, for one byte.
unfoldable pub crc32c_byte : ℕ → ℕ → ℕ
unfolding crc32c_bits
crc32c_byte crc d = crc32c_bits 8 (bit_xor crc d)

unfoldable pub crc32c_loop : ℕ → List ℕ → ℕ
unfolding crc32c_byte
crc32c_loop crc [] = crc
crc32c_loop crc (d ∷ ds) = crc32c_loop (crc32c_byte crc d) ds

-- `~x` on a uint32_t.
abbrev pub complement32 : ℕ → ℕ
complement32 x = 0xFFFFFFFF - x

unfoldable pub crc32c_sw : List ℕ → ℕ
unfolding crc32c_loop
crc32c_sw data_bytes = complement32 (crc32c_loop 0xFFFFFFFF data_bytes)

-- The processor: what `__builtin_cpu_supports("sse4.2")` answers, and the two intrinsics.
pub record Cpu : Type 0 where
  pub has_sse42 : Bool
  pub mm_crc32_u8 : ℕ → ℕ → ℕ
  pub mm_crc32_u64 : ℕ → ℕ → ℕ

-- `memcpy(&v, p, 8)` into a uint64_t on a little-endian host.
unfoldable pub load64 : List ℕ → ℕ
load64 p =
    get_or p 0 0
    + shl (get_or p 1 0) 8
    + shl (get_or p 2 0) 16
    + shl (get_or p 3 0) 24
    + shl (get_or p 4 0) 32
    + shl (get_or p 5 0) 40
    + shl (get_or p 6 0) 48
    + shl (get_or p 7 0) 56

-- `while (n--)`
unfoldable pub crc32c_hw_tail : Cpu → ℕ → List ℕ → ℕ
crc32c_hw_tail cpu crc [] = crc
crc32c_hw_tail cpu crc (d ∷ ds) = crc32c_hw_tail cpu (cpu.mm_crc32_u8 (u32 crc) d) ds

-- `while (n >= 8)` makes `n / 8` rounds of eight bytes; the tail loop takes what is left.
unfoldable pub crc32c_hw_loop : Cpu → ℕ → ℕ → List ℕ → ℕ
unfolding crc32c_hw_tail load64
crc32c_hw_loop cpu zero crc p = crc32c_hw_tail cpu crc p
crc32c_hw_loop cpu (suc rounds) crc p =
    crc32c_hw_loop cpu rounds (cpu.mm_crc32_u64 crc (load64 p)) (drop 8 p)

unfoldable pub crc32c_hw : Cpu → List ℕ → ℕ
unfolding crc32c_hw_loop
crc32c_hw cpu data_bytes =
    complement32 (u32 (crc32c_hw_loop cpu (length data_bytes / 8) 0xFFFFFFFF data_bytes))

unfoldable pub crc32c : Cpu → List ℕ → ℕ
unfolding crc32c_hw crc32c_sw
crc32c cpu data_bytes = if cpu.has_sse42 then crc32c_hw cpu data_bytes else crc32c_sw data_bytes
