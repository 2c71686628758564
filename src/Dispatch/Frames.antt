-- ===== src/Dispatch/Frames.antt =====
-- frame_dispatcher.cpp: what is accepted.
use receiver.Prelude.{
  ℕ, ◌+◌, ◌<◌, ◌≤◌, ◌≡◌, ◌^◌, inl, inr, Bool, true, false, List, Option, some, take, drop, refl, ap,
  sym, ◌∙◌, length, Bool-cases,
}
use mathlib.Core.Bool.{false≢true}
use receiver.Crc.{Cpu}
use receiver.Wire.{validate_frame_prefix, build_frame, WireValidateResult, Validation}
use receiver.Wire.RoundTrip.{validate-build_frame}
use receiver.Dispatch.{FrameDecodeResult, FrameClass, body_of, parse_body, decode_frame, dispatch}

abbrev is_ok : FrameDecodeResult → Bool
is_ok FrameDecodeResult.ok = true
is_ok FrameDecodeResult.bad_magic = false
is_ok FrameDecodeResult.crc_fail = false
is_ok FrameDecodeResult.unparsable = false

not_ok : {r : FrameDecodeResult} → is_ok r ≡ false → ¬ (r ≡ FrameDecodeResult.ok)
not_ok other e = false≢true (sym other ∙ ap is_ok e)

module _ (proto : FrameClass) (cpu : Cpu) where
  parse_body-frame :
      (body : List ℕ) (frame : proto.Frame)
      → proto.parse_from_array body ≡ (true, frame)
      → proto.msg_set frame ≡ true
      → parse_body proto body ≡ (FrameDecodeResult.ok, frame)
  unfolding parse_body
  parse_body-frame body frame parses set = rw (parses, parse_body, set) refl

  decode_frame-accepted :
      (datagram : List ℕ) (len n : ℕ)
      → validate_frame_prefix cpu (some datagram) len
        ≡ record { code = WireValidateResult.ok; out_body = some 12; out_body_len = n }
      → decode_frame proto cpu datagram len ≡ parse_body proto (take n (drop 12 datagram))
  unfolding decode_frame dispatch body_of
  decode_frame-accepted datagram len n accepted = ap (dispatch proto datagram) accepted

  -- If the buffer has at least cap bytes, prefix and body fit cap, the body has n bytes, n is below
  -- 2 ^ 16, and protobuf parses those bytes to a frame with a member set, then decode_frame accepts
  -- what build_frame built and gives that frame.
  pub decode_frame-build_frame :
      (out body : List ℕ) (cap n : ℕ) (frame : proto.Frame)
      → cap ≤ length out
      → 12 + n ≤ cap
      → n < 2 ^ 16
      → n ≤ length body
      → proto.parse_from_array (take n body) ≡ (true, frame)
      → proto.msg_set frame ≡ true
      → let built = build_frame cpu (some out) cap (some body) n in
        decode_frame proto cpu built.buffer built.size ≡ (FrameDecodeResult.ok, frame)
  decode_frame-build_frame out body cap n frame whole fits small given parses set =
      let (size, accepted, same) = validate-build_frame cpu out body cap n whole fits small given in
      rw size (
        decode_frame-accepted (build_frame cpu (some out) cap (some body) n).buffer (12 + n) n
          accepted
        ∙ ap (parse_body proto) same
        ∙ parse_body-frame (take n body) frame parses set)

  -- A frame is accepted only if its prefix is, its body parses and a member is set.
  parse_body-ok :
      (body : List ℕ)
      → (parse_body proto body).0 ≡ FrameDecodeResult.ok
      → (proto.parse_from_array body ≡ (true, (parse_body proto body).1))
        × (proto.msg_set (parse_body proto body).1 ≡ true)
  unfolding parse_body
  parse_body-ok body done = elim (Bool-cases (proto.parse_from_array body).0) [
    | inr fails ↦ absurd (not_ok refl (rw fails at done))
    | inl parses ↦ elim (Bool-cases (proto.msg_set (proto.parse_from_array body).1)) [
      | inr empty ↦ absurd (not_ok refl (rw (parses, empty) at done))
      | inl set ↦ rw (parses, set) (refl, set)
    ]
  ]

  by_code :
      (datagram : List ℕ) (code : WireValidateResult) (at : Option ℕ) (len : ℕ)
      → let v : Validation = record { code = code; out_body = at; out_body_len = len } in
        (dispatch proto datagram v).0 ≡ FrameDecodeResult.ok
        → (code ≡ WireValidateResult.ok)
          × (proto.parse_from_array (body_of datagram v) ≡ (true, (dispatch proto datagram v).1))
          × (proto.msg_set (dispatch proto datagram v).1 ≡ true)
  unfolding dispatch
  by_code datagram WireValidateResult.ok at len done =
      let (parses, set) =
        parse_body-ok
          (body_of datagram
            (record { code = WireValidateResult.ok; out_body = at; out_body_len = len }))
          done in
      (refl, parses, set)
  by_code datagram WireValidateResult.bad_magic at len done = absurd (not_ok refl done)
  by_code datagram WireValidateResult.bad_header_crc at len done = absurd (not_ok refl done)
  by_code datagram WireValidateResult.bad_body_crc at len done = absurd (not_ok refl done)
  by_code datagram WireValidateResult.proto_len_out_of_bounds at len done =
      absurd (not_ok refl done)

  dispatch-ok :
      (datagram : List ℕ) (v : Validation)
      → (dispatch proto datagram v).0 ≡ FrameDecodeResult.ok
      → (v.code ≡ WireValidateResult.ok)
        × (proto.parse_from_array (body_of datagram v) ≡ (true, (dispatch proto datagram v).1))
        × (proto.msg_set (dispatch proto datagram v).1 ≡ true)
  unfolding dispatch
  dispatch-ok datagram v done = by_code datagram v.code v.out_body v.out_body_len done

  -- If decode_frame accepts a datagram, then its prefix was accepted, protobuf parsed the body that
  -- the prefix points at to the frame returned, and that frame has a member set.
  pub decode_frame-ok :
      (datagram : List ℕ) (datagram_len : ℕ)
      → (decode_frame proto cpu datagram datagram_len).0 ≡ FrameDecodeResult.ok
      → let v = validate_frame_prefix cpu (some datagram) datagram_len in
        let frame = (decode_frame proto cpu datagram datagram_len).1 in
        (v.code ≡ WireValidateResult.ok)
        × (proto.parse_from_array (body_of datagram v) ≡ (true, frame))
        × (proto.msg_set frame ≡ true)
  unfolding decode_frame
  decode_frame-ok datagram datagram_len =
      dispatch-ok datagram (validate_frame_prefix cpu (some datagram) datagram_len)
