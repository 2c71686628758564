-- ===== src/Wire.antt =====
-- src/common/wire.cpp: the 12-byte prefix of a datagram. A pointer that may be null is an `Option`,
-- and the bytes that it points at are a list.
pub mod Bytes
pub mod Reads
pub mod Header
pub mod RoundTrip
use receiver.Prelude.{
  ℕ, zero, suc, ◌-◌, ◌*◌, ◌/◌, ◌%◌, ◌^◌, ◌+◌, bit_or, Bool, true, false, List, [], ◌∷◌, ◌++◌,
  Option, none, some, if◌then◌else◌, ◌==◌, ltb, leb, ◌||◌, not, ◌&&◌, u8, u16, shl, shr, get_or,
  take, drop, write_at,
}
use receiver.Crc.{Cpu, crc16_ccitt_false, crc32c}

abbrev pub wire_prefix_size : ℕ
wire_prefix_size = 12

-- 'U', 'N', 'I', 'F'
abbrev pub wire_magic : List ℕ
wire_magic = 0x55 ∷ 0x4E ∷ 0x49 ∷ 0x46 ∷ []

pub data WireValidateResult : Type 0 where
  ok bad_magic bad_header_crc proto_len_out_of_bounds bad_body_crc : WireValidateResult

-- The bytes that the encoders store at `p`.
unfoldable pub put_le16 : ℕ → List ℕ
put_le16 v = u8 v ∷ u8 (shr v 8) ∷ []

unfoldable pub put_le32 : ℕ → List ℕ
unfolding put_le16
put_le32 v = put_le16 (u16 v) ++ put_le16 (u16 (shr v 16))

-- The decoders at `p + at`.
unfoldable pub get_le16 : List ℕ → ℕ → ℕ
get_le16 p at = bit_or (get_or p at 0) (u16 (shl (get_or p (at + 1) 0) 8))

unfoldable pub get_le32 : List ℕ → ℕ → ℕ
unfolding get_le16
get_le32 p at = bit_or (get_le16 p at) (shl (get_le16 p (at + 2)) 16)

-- `memcmp(datagram, WIRE_MAGIC, 4) == 0`
unfoldable pub has_magic : List ℕ → Bool
has_magic p =
    get_or p 0 0 == 0x55 && get_or p 1 0 == 0x4E && get_or p 2 0 == 0x49 && get_or p 3 0 == 0x46

-- What `validate_frame_prefix` returns and what it stores through its two out parameters: the body
-- as an offset into the datagram, or null, and its length.
pub record Validation : Type 0 where
  pub code : WireValidateResult
  pub out_body : Option ℕ
  pub out_body_len : ℕ

abbrev pub rejected : WireValidateResult → Validation
rejected code = record { code = code; out_body = none; out_body_len = 0 }

-- The checks on a datagram that holds a prefix, in the order of the source.
unfoldable pub validate_prefix : Cpu → List ℕ → ℕ → Validation
unfolding get_le16 get_le32 has_magic
validate_prefix cpu p datagram_len =
    if not (has_magic p)
    then rejected bad_magic
    else if not (get_le16 p 6 == crc16_ccitt_false (take 6 p))
    then rejected bad_header_crc
    else if ltb datagram_len (wire_prefix_size + get_le16 p 4)
    then rejected proto_len_out_of_bounds
    else if not (get_le32 p 8 == crc32c cpu (take (get_le16 p 4) (drop wire_prefix_size p)))
    then rejected bad_body_crc
    else record { code = ok; out_body = some wire_prefix_size; out_body_len = get_le16 p 4 }

unfoldable pub validate_frame_prefix : Cpu → Option (List ℕ) → ℕ → Validation
unfolding validate_prefix
validate_frame_prefix cpu none datagram_len = rejected bad_magic
validate_frame_prefix cpu (some p) datagram_len =
    if ltb datagram_len wire_prefix_size
    then rejected bad_magic
    else validate_prefix cpu p datagram_len

-- What `build_frame` returns, with the buffer as it leaves it.
pub record Built : Type 0 where
  pub size : ℕ
  pub buffer : List ℕ

-- The magic, the length and the header checksum over the six bytes just written.
unfoldable pub write_header : List ℕ → ℕ → List ℕ
unfolding put_le16
write_header out body_len =
    let with_len = write_at 4 (put_le16 (u16 body_len)) (write_at 0 wire_magic out) in
    write_at 6 (put_le16 (crc16_ccitt_false (take 6 with_len))) with_len

-- The body checksum, over the body in the buffer.
unfoldable pub write_body_crc : Cpu → List ℕ → ℕ → List ℕ
unfolding put_le32
write_body_crc cpu out body_len =
    write_at 8 (put_le32 (crc32c cpu (take body_len (drop wire_prefix_size out)))) out

abbrev pub finish : Cpu → List ℕ → ℕ → Built
finish cpu out body_len = record {
  size = wire_prefix_size + body_len;
  buffer = write_body_crc cpu out body_len;
}

-- `if (body_len > 0) { … }`, on the buffer with its header written.
unfoldable pub write_body : Cpu → List ℕ → Option (List ℕ) → ℕ → Built
unfolding write_body_crc
write_body cpu out none body_len =
    if ltb 0 body_len then record { size = 0; buffer = out } else finish cpu out body_len
write_body cpu out (some body) body_len =
    finish cpu (if ltb 0 body_len then write_at wire_prefix_size (take body_len body) out else out)
      body_len

unfoldable pub build_frame : Cpu → Option (List ℕ) → ℕ → Option (List ℕ) → ℕ → Built
unfolding write_header write_body
build_frame cpu none cap body body_len = record { size = 0; buffer = [] }
build_frame cpu (some out) cap body body_len =
    if ltb 0xFFFF body_len
    then record { size = 0; buffer = out }
    else if ltb cap (wire_prefix_size + body_len)
    then record { size = 0; buffer = out }
    else write_body cpu (write_header out body_len) body body_len
