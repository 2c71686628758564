-- ===== src/Loop/Reports.antt =====
-- main.cpp: what a data packet reports to the manager.
use receiver.Prelude.{ℕ, ◌≡◌, ◌⊎◌, List, [], ◌∷◌, ◌++◌, some, find_key}
use receiver.Envelope.{build_block_decoded}
use receiver.Shm.Session.{block_entry}
use receiver.Pipeline.{Pipeline, SessionContext}
use receiver.Pipeline.Decoded.{Durable}
use receiver.Loop.{Platform, Receiver, Datagram}

module _ (sys : Platform) (receiver_id : ℕ) where
  open sys use {lib, os, envelopes}

  -- The packet's block is complete and its bytes are on the disk.
  abbrev pub IsReported : Pipeline → Pipeline → List ℕ → ℕ → Type 0
  IsReported p p' id block_id =
      (ctx : SessionContext) × (ctx' : SessionContext) × (a : ℕ) × (find_key id p.sessions
        ≡ some ctx)
      × (find_key id p'.sessions ≡ some ctx')
      × (block_entry p.shm ctx.session_idx block_id ≡ some a)
      × Durable lib ctx ctx' block_id a p'.shm

  abbrev Reports : Receiver → List ℕ → Datagram → Receiver → Type 0
  Reports r id d r' =
      (r'.sent ≡ r.sent)
      ⊎ ((r'.sent ≡ r.sent ++ build_block_decoded envelopes id receiver_id (d.block_id ∷ []) ∷ [])
          × IsReported r.pipeline r'.pipeline id d.block_id)
