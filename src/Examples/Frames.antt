-- ===== src/Examples/Frames.antt =====
-- Frames and checksums on a processor whose instructions do what the theorems ask.
use receiver.Prelude.{
  ℕ, zero, suc, ◌/◌, ◌%◌, ◌^◌, ◌≡◌, true, List, [], ◌∷◌, some, refl, ap, arith, Agree, take, drop,
  replicate,
}
use receiver.Crc.{Cpu, crc32c_byte, crc32c_loop}
use receiver.Wire.{build_frame, validate_frame_prefix, ok, WireValidateResult}
use receiver.Wire.Reads.{validate_frame_prefix-reads}
use receiver.Dispatch.{FrameClass, FrameDecodeResult, decode_frame, body_of}
use receiver.Dispatch.Frames.{decode_frame-build_frame, decode_frame-ok}
use receiver.Wire.RoundTrip.{validate-build_frame}

-- The eight bytes of a word, the lowest first.
abbrev pub bytes_of : ℕ → List ℕ
bytes_of v =
    v % 256
    ∷ v / 2 ^ 8 % 256
    ∷ v / 2 ^ 16 % 256
    ∷ v / 2 ^ 24 % 256
    ∷ v / 2 ^ 32 % 256
    ∷ v / 2 ^ 40 % 256
    ∷ v / 2 ^ 48 % 256
    ∷ v / 2 ^ 56 % 256
    ∷ []

abbrev pub cpu : Cpu
cpu = record {
  has_sse42 = true;
  mm_crc32_u8 = crc32c_byte;
  mm_crc32_u64 = λ crc v. crc32c_loop crc (bytes_of v);
}

abbrev check_bytes : List ℕ
check_bytes = 49 ∷ 50 ∷ 51 ∷ 52 ∷ 53 ∷ 54 ∷ 55 ∷ 56 ∷ 57 ∷ []

validate-build_frame_example :
    let built = build_frame cpu (some (replicate 16 0)) 16 (some (5 ∷ 6 ∷ [])) 2 in
    (built.size ≡ 14)
    × (validate_frame_prefix cpu (some built.buffer) 14
        ≡ record { code = ok; out_body = some 12; out_body_len = 2 })
    × (take 2 (drop 12 built.buffer) ≡ 5 ∷ 6 ∷ [])
validate-build_frame_example =
    validate-build_frame cpu (replicate 16 0) (5 ∷ 6 ∷ []) 16 2 (omega arith) (omega arith)
      (omega arith) (omega arith)

agree : Agree {A = ℕ} 0 1 (85 ∷ 0 ∷ []) (85 ∷ 1 ∷ [])
agree zero lt = refl
agree (suc i) lt = absurd (omega arith)

validate_frame_prefix-reads_example :
    validate_frame_prefix cpu (some (85 ∷ 0 ∷ [])) 1
    ≡ validate_frame_prefix cpu (some (85 ∷ 1 ∷ [])) 1
validate_frame_prefix-reads_example =
    validate_frame_prefix-reads cpu (85 ∷ 0 ∷ []) (85 ∷ 1 ∷ []) 1 (omega arith) (omega arith) agree

-- A class whose frames are their bytes.
abbrev proto : FrameClass
proto = record {
  Frame = List ℕ;
  cleared = [];
  parse_from_array = λ body. (true, body);
  msg_set = λ frame. true;
}

decode_frame-build_frame_example :
    let built = build_frame cpu (some (replicate 16 0)) 16 (some (5 ∷ 6 ∷ [])) 2 in
    decode_frame proto cpu built.buffer built.size ≡ (FrameDecodeResult.ok, 5 ∷ 6 ∷ [])
decode_frame-build_frame_example =
    decode_frame-build_frame proto cpu (replicate 16 0) (5 ∷ 6 ∷ []) 16 2 (5 ∷ 6 ∷ []) (omega arith)
      (omega arith) (omega arith) (omega arith) refl refl

accepted :
    (decode_frame proto cpu
      (build_frame cpu (some (replicate 16 0)) 16 (some (5 ∷ 6 ∷ [])) 2).buffer
      14).0
    ≡ FrameDecodeResult.ok
unfolding build_frame
accepted =
    ap (λ (r : FrameDecodeResult × List ℕ). r.0)
      (decode_frame-build_frame proto cpu (replicate 16 0) (5 ∷ 6 ∷ []) 16 2 (5 ∷ 6 ∷ [])
        (omega arith) (omega arith) (omega arith) (omega arith) refl refl)

decode_frame-ok_example :
    let datagram = (build_frame cpu (some (replicate 16 0)) 16 (some (5 ∷ 6 ∷ [])) 2).buffer in
    let v = validate_frame_prefix cpu (some datagram) 14 in
    let frame = (decode_frame proto cpu datagram 14).1 in
    (v.code ≡ WireValidateResult.ok)
    × (proto.parse_from_array (body_of datagram v) ≡ (true, frame))
    × (proto.msg_set frame ≡ true)
decode_frame-ok_example =
    decode_frame-ok proto cpu
      (build_frame cpu (some (replicate 16 0)) 16 (some (5 ∷ 6 ∷ [])) 2).buffer 14 accepted
