-- ===== src/Dispatch.antt =====
-- src/receiver/frame_dispatcher.cpp: a datagram decoded to a frame. Protobuf is a parameter.
pub mod Frames
use receiver.Prelude.{
  ℕ, Bool, true, false, List, [], Option, some, none, take, drop, if◌then◌else◌, not,
}
use receiver.Crc.{Cpu}
use receiver.Wire.{validate_frame_prefix, Validation, WireValidateResult}

pub data FrameDecodeResult : Type 0 where
  ok bad_magic crc_fail unparsable : FrameDecodeResult

-- What the code calls of the generated class: `Clear` gives the empty frame, `ParseFromArray` says
-- whether the bytes parse, with what it leaves in the frame, and `msg_case` whether a member is set.
pub record FrameClass : Type 1 where
  pub Frame : Type 0
  pub cleared : Frame
  pub parse_from_array : List ℕ → Bool × Frame
  pub msg_set : Frame → Bool

-- The span that a validation points at.
unfoldable pub body_of : List ℕ → Validation → List ℕ
body_of datagram v = elim v.out_body [
  | none ↦ []
  | some at ↦ take v.out_body_len (drop at datagram)
]

unfoldable pub parse_body : (proto : FrameClass) → List ℕ → FrameDecodeResult × proto.Frame
parse_body proto body =
    let (parsed, frame) = proto.parse_from_array body in
    if not parsed
    then (FrameDecodeResult.unparsable, frame)
    else if not (proto.msg_set frame)
    then (FrameDecodeResult.unparsable, frame)
    else (FrameDecodeResult.ok, frame)

-- The switch on the result of the validation.
unfoldable pub dispatch :
    (proto : FrameClass) → List ℕ → Validation → FrameDecodeResult × proto.Frame
unfolding body_of parse_body
dispatch proto datagram v = elim v.code [
  | WireValidateResult.ok ↦ parse_body proto (body_of datagram v)
  | WireValidateResult.bad_magic ↦ (FrameDecodeResult.bad_magic, proto.cleared)
  | WireValidateResult.bad_header_crc ↦ (FrameDecodeResult.crc_fail, proto.cleared)
  | WireValidateResult.bad_body_crc ↦ (FrameDecodeResult.crc_fail, proto.cleared)
  | WireValidateResult.proto_len_out_of_bounds ↦ (FrameDecodeResult.unparsable, proto.cleared)
]

-- The result, and the frame behind `out_frame`.
unfoldable pub decode_frame :
    (proto : FrameClass) → Cpu → List ℕ → ℕ → FrameDecodeResult × proto.Frame
unfolding dispatch
decode_frame proto cpu datagram datagram_len =
    dispatch proto datagram (validate_frame_prefix cpu (some datagram) datagram_len)
