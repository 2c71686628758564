-- ===== src/Shm/Block/Latch.antt =====
-- The decode latch: what its two transitions do in each state.
use receiver.Prelude.{◌≡◌, ◌≢◌, true, false, ne→not_==}
use receiver.Shm.Layout.{decode_pending, decode_claimed, decode_complete}
use receiver.Shm.Segment.{BlockEntry}
use receiver.Shm.Block.{try_claim_decode, mark_decode_complete}

module _ (e : BlockEntry) where
  pub claim_won :
      e.decoded ≡ decode_pending
      → try_claim_decode e ≡ (true, record e { decoded = decode_claimed })
  unfolding try_claim_decode
  claim_won h = simp h

  pub claim_lost : e.decoded ≢ decode_pending → try_claim_decode e ≡ (false, e)
  unfolding try_claim_decode
  claim_lost h = simp (ne→not_== e.decoded decode_pending h)

  pub complete_won :
      e.decoded ≡ decode_claimed
      → mark_decode_complete e ≡ (true, record e { decoded = decode_complete })
  unfolding mark_decode_complete
  complete_won h = simp h

  pub complete_lost : e.decoded ≢ decode_claimed → mark_decode_complete e ≡ (false, e)
  unfolding mark_decode_complete
  complete_lost h = simp (ne→not_== e.decoded decode_claimed h)
