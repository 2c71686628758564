-- ===== src/Examples/Triggers.antt =====
-- Two calls that count the last symbols of a block, both of which find enough of them.
use receiver.Prelude.{ℕ, ◌+◌, ◌<◌, ◌≡◌, refl, arith, true}
use receiver.Shm.Layout.{decode_claimed, decode_complete}
use receiver.Shm.Segment.{BlockEntry, zero_entry}
use receiver.Shm.Block.{try_claim_decode, mark_decode_complete}
use receiver.Pipeline.Trigger.{
  counted, due, decoding, registered, completed, Trigger, at_call, Reach, start, later, add_seen,
  enough, claim, miss, complete,
}
use receiver.Pipeline.Trigger.Invariant.{has_claimed, latch_of}
use receiver.Pipeline.Trigger.Reached.{begun, is_returned, Reach-decided}

abbrev two_seen : BlockEntry
two_seen = record zero_entry { seen = 2 }

abbrev both_due : Trigger
both_due =
    at_call
      (at_call
        (at_call (at_call (begun zero_entry) (record zero_entry { seen = 1 }) 0 counted) two_seen 1
          counted)
        two_seen 0 due)
      two_seen 1 due

both_due-Reach : Reach 1 2 (begun zero_entry) both_due
both_due-Reach =
    later
      (later (later (later start (add_seen 0 (omega arith) refl)) (add_seen 1 (omega arith) refl))
        (enough 0 (omega arith) refl (omega arith)))
      (enough 1 (omega arith) refl (omega arith))

abbrev block_claimed : BlockEntry
block_claimed = record two_seen { decoded = decode_claimed }

abbrev block_complete : BlockEntry
block_complete = record two_seen { decoded = decode_complete }

-- The first call claims, the second misses, and the first completes.
abbrev both_returned : Trigger
both_returned =
    at_call (at_call (at_call both_due block_claimed 0 decoding) block_claimed 1 registered)
      block_complete 0 completed

both_returned-Reach : Reach 1 2 (begun zero_entry) both_returned
unfolding try_claim_decode mark_decode_complete
both_returned-Reach =
    later
      (later (later both_due-Reach (claim 0 block_claimed (omega arith) refl refl))
        (miss 1 block_claimed (omega arith) refl refl))
      (complete 0 block_complete (omega arith) refl refl)

all_returned : (i : ℕ) → i < 2 → is_returned (both_returned.calls i) ≡ true
unfolding is_returned
all_returned i lt = ground arith

Reach-decided_example :
    (both_returned.entry.seen ≡ zero_entry.seen + 2)
    × ((i : ℕ) × (i < 2)
        × (has_claimed (both_returned.calls i) ≡ true)
        × (both_returned.entry.decoded ≡ latch_of (both_returned.calls i))
        × ((j : ℕ) → has_claimed (both_returned.calls j) ≡ true → i ≡ j))
Reach-decided_example =
    Reach-decided 1 2 zero_entry both_returned refl (omega arith) (omega arith) (omega arith)
      both_returned-Reach all_returned
