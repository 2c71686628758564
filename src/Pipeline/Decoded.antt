-- ===== src/Pipeline/Decoded.antt =====
-- session_pipeline.cpp: a block that was decoded and flushed, as the block table and the file have it.
use receiver.Prelude.{
  ℕ, zero, suc, ◌+◌, ◌<◌, ◌≡◌, ◌⊎◌, inl, inr, Bool, true, false, List, some, refl, ap, sym, ◌∙◌,
  arith, Bool-cases, ℕ_discrete, ==_refl, length, get_or,
}
use mathlib.Core.Bool.{false≢true}
use receiver.Shm.Layout.{decode_complete, decode_claimed}
use receiver.Shm.Segment.{Segment, BlockEntry}
use receiver.Shm.Arena.{free_slot}
use receiver.Shm.Block.{SymbolRegisterResult, clear_slot}
use receiver.Codec.{IsaL, decode}
use receiver.Writer.{block_off, block_len}
use receiver.Pipeline.{
  DataPacketOutcome, SessionContext, finish_block, symbol_at, gathered, release_slots,
  block_decoded, registered_only, duplicate, unknown_session, invalid_block_or_symbol,
  arena_exhausted,
}
use receiver.Pipeline.Finish.{finish_block-claimed, finish_block-other}

-- The block at `a` is complete, and the bytes decoded from the symbols in their slots are durable at
-- the block's place in the file.
pub record Durable (lib : IsaL) (ctx ctx' : SessionContext) (block_id a : ℕ) (s' : Segment)
    : Type 0 where
  pub gathered_in : Segment
  pub decoded : List ℕ
  pub decodes :
      decode lib ctx.codec
        (symbol_at gathered_in (gathered_in.blocks a) ctx.symbol_bytes)
        (gathered (gathered_in.blocks a) ctx.n)
      ≡ some decoded
  pub on_disk :
      (i : ℕ)
      → i < block_len ctx.writer block_id
      → i < length decoded
      → ctx'.writer.disk (block_off ctx.writer block_id + i) ≡ get_or decoded i 0
  pub complete : (s'.blocks a).decoded ≡ decode_complete

clear_slot-decoded : (e : BlockEntry) (t : ℕ) → (clear_slot e t).decoded ≡ e.decoded
unfolding clear_slot
clear_slot-decoded e t = ground arith

release_slots-decoded :
    (present : ℕ → Bool) (a n : ℕ) (s : Segment)
    → ((release_slots present a n s).blocks a).decoded ≡ (s.blocks a).decoded
unfolding release_slots free_slot
release_slots-decoded present a zero s = refl
release_slots-decoded present a (suc n) s = elim (Bool-cases (present n)) [
  | inl there ↦ rw (there, ==_refl a) (clear_slot-decoded _ n ∙ release_slots-decoded present a n s)
  | inr out ↦ rw out (release_slots-decoded present a n s)
]

pub finish_block_complete :
    (s : Segment) (n a : ℕ)
    → (finish_block s n a).0 ≡ true
    → ((finish_block s n a).1.blocks a).decoded ≡ decode_complete
finish_block_complete s n a done = elim (ℕ_discrete (s.blocks a).decoded decode_claimed) [
  | yes claimed ↦
      rw (finish_block-claimed s n a claimed) (release_slots-decoded _ a n _ ∙ rw (==_refl a) refl)
  | no other ↦
      absurd (
        false≢true (sym (ap (λ (r : Bool × Segment). r.0) (finish_block-other s n a other)) ∙ done))
]

-- No other outcome is that of a decoded block.
abbrev is_decoded : DataPacketOutcome → Bool
is_decoded registered_only = false
is_decoded duplicate = false
is_decoded unknown_session = false
is_decoded invalid_block_or_symbol = false
is_decoded arena_exhausted = false
is_decoded block_decoded = true

pub not_decoded : {o : DataPacketOutcome} → is_decoded o ≡ false → ¬ (o ≡ block_decoded)
not_decoded other e = false≢true (sym other ∙ ap is_decoded e)

pub result_cases :
    (r : SymbolRegisterResult)
    → (r ≡ SymbolRegisterResult.new_symbol)
      ⊎ ((r ≡ SymbolRegisterResult.duplicate) ⊎ (r ≡ SymbolRegisterResult.invalid_symbol_id))
result_cases SymbolRegisterResult.new_symbol = inl refl
result_cases SymbolRegisterResult.duplicate = inr (inl refl)
result_cases SymbolRegisterResult.invalid_symbol_id = inr (inr refl)
