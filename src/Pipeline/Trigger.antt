-- ===== src/Pipeline/Trigger.antt =====
-- session_pipeline.cpp: calls that have registered a symbol of one block, from the addition to seen on:
-- the test of the threshold, the claim of the latch, and how the decode ends, step by step.
pub mod Invariant
pub mod Reached
use receiver.Prelude.{ℕ, ◌+◌, ◌<◌, ◌≤◌, ◌≡◌, true, false, u32}
use receiver.Shm.Memory.{update}
use receiver.Shm.Segment.{BlockEntry}
use receiver.Shm.Block.{try_claim_decode, mark_decode_complete}

-- Where a call stands: before its addition to seen; before the test of the threshold; before the claim;
-- in decode_and_write_block; and returned, without a claim, with a claim and no decoded block, or with
-- the block complete.
pub data Registration : Type 0 where
  counting counted due decoding registered failed completed : Registration

pub record Trigger : Type 0 where
  pub entry : BlockEntry
  pub calls : ℕ → Registration

abbrev pub at_call : Trigger → BlockEntry → ℕ → Registration → Trigger
at_call s e i c = record { entry = e; calls = update s.calls i c }

-- One atomic action of one of `n` calls, in any order. `k` symbols are enough to decode.
pub data Step (k n : ℕ) (s : Trigger) : Trigger → Type 0 where
  add_seen :
      (i : ℕ)
      → i < n
      → s.calls i ≡ counting
      → Step k n s (at_call s (record s.entry { seen = u32 (s.entry.seen + 1) }) i counted)
  too_few :
      (i : ℕ)
      → i < n
      → s.calls i ≡ counted
      → s.entry.seen < k
      → Step k n s (at_call s s.entry i registered)
  enough :
      (i : ℕ)
      → i < n
      → s.calls i ≡ counted
      → k ≤ s.entry.seen
      → Step k n s (at_call s s.entry i due)
  claim :
      (i : ℕ) (e : BlockEntry)
      → i < n
      → s.calls i ≡ due
      → try_claim_decode s.entry ≡ (true, e)
      → Step k n s (at_call s e i decoding)
  miss :
      (i : ℕ) (e : BlockEntry)
      → i < n
      → s.calls i ≡ due
      → try_claim_decode s.entry ≡ (false, e)
      → Step k n s (at_call s e i registered)
  fail : (i : ℕ) → i < n → s.calls i ≡ decoding → Step k n s (at_call s s.entry i failed)
  complete :
      (i : ℕ) (e : BlockEntry)
      → i < n
      → s.calls i ≡ decoding
      → mark_decode_complete s.entry ≡ (true, e)
      → Step k n s (at_call s e i completed)
  complete_fails :
      (i : ℕ) (e : BlockEntry)
      → i < n
      → s.calls i ≡ decoding
      → mark_decode_complete s.entry ≡ (false, e)
      → Step k n s (at_call s e i failed)

pub data Reach (k n : ℕ) (s : Trigger) : Trigger → Type 0 where
  start : Reach k n s s
  later : {t u : Trigger} → Reach k n s t → Step k n t u → Reach k n s u
