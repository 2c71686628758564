-- ===== src/Pipeline/Durable.antt =====
-- session_pipeline.cpp: what is true of a block that a packet reports as decoded.
use receiver.Prelude.{ℕ, ◌≡◌, Bool, some}
use receiver.Shm.Segment.{Segment}
use receiver.Shm.Session.{block_entry}
use receiver.Codec.{IsaL}
use receiver.Writer.{Os}
use receiver.Pipeline.{SessionContext, Pipeline, Handled}
use receiver.Pipeline.Decoded.{Durable}

module _ (lib : IsaL) (os : Os) (ctx : SessionContext) (block_id a : ℕ) where
  -- What is reported of a block that is decoded.
  abbrev Reported : Handled → Type 0
  Reported h = (h.out_decoded_block_id ≡ some block_id) × Durable lib ctx h.context block_id a h.shm

module _ (lib : IsaL) (os : Os) where
  -- The block that a packet of a known session decodes.
  record Decoded (s : Segment) (ctx : SessionContext) (block_id : ℕ) (h : Handled) : Type 0 where
    at : ℕ
    at_block : block_entry s ctx.session_idx block_id ≡ some at
    reported : Reported lib os ctx block_id at h
