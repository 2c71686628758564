-- ===== src/Shm/Stack.antt =====
-- shm_manager.cpp: calls of alloc_slot and free_slot by several workers, interleaved step by step. The
-- statistics, which no step reads, are left out.
pub mod Invariant
pub mod Exchanges
pub mod Reached
pub mod Alone
use receiver.Prelude.{
  ℕ, ◌+◌, ◌<◌, ◌≤◌, ◌≡◌, ◌≢◌, Bool, true, false, if◌then◌else◌, ◌==◌, u32, List, Option, some, none,
  length,
}
use receiver.Shm.Layout.{list_end, slot_size}
use receiver.Shm.Memory.{Bytes, update, read64, write64, store}
use receiver.Shm.Segment.{slot_at}
use receiver.Shm.Arena.{pack_head, head_idx, head_gen}

-- Where a worker stands: in no call and with no slot; in alloc_slot, with the head that it loaded, and
-- then the link that it read; with a slot of its own; and in free_slot of that slot, with the head
-- that it loaded, before and after it wrote the link.
pub data Worker : Type 0 where
  idle : Worker
  alloc_loaded : (old_head : ℕ) → Worker
  alloc_read : (old_head next : ℕ) → Worker
  allocated : (slot : ℕ) → Worker
  free_loaded : (slot old_head : ℕ) → Worker
  free_linked : (slot old_head : ℕ) → Worker

-- `done` counts the exchanges that have succeeded; no step reads it.
pub record Stack : Type 0 where
  pub arena : Bytes
  pub head : ℕ
  pub done : ℕ
  pub workers : ℕ → Worker

abbrev pub moved : Stack → ℕ → Worker → Stack
moved s i w = record s { workers = update s.workers i w }

-- The arena is written too.
abbrev pub wrote : Stack → Bytes → ℕ → Worker → Stack
wrote s arena i w = record s { arena = arena; workers = update s.workers i w }

-- An exchange that succeeds publishes a head of the next generation.
abbrev pub exchanged : Stack → ℕ → ℕ → ℕ → Worker → Stack
exchanged s idx old_head i w = record s {
  head = pack_head idx (u32 (head_gen old_head + 1));
  done = s.done + 1;
  workers = update s.workers i w;
}

-- One atomic action of one of `n` workers, in any order. An exchange fails when the head has changed,
-- and may fail when it has not.
pub data Step (n : ℕ) (s : Stack) : Stack → Type 0 where
  load_top : (i : ℕ) → i < n → s.workers i ≡ idle → Step n s (moved s i (alloc_loaded s.head))
  find_end :
      (i old : ℕ)
      → i < n
      → s.workers i ≡ alloc_loaded old
      → head_idx old ≡ list_end
      → Step n s (moved s i idle)
  read_next :
      (i old : ℕ)
      → i < n
      → s.workers i ≡ alloc_loaded old
      → head_idx old ≢ list_end
      → Step n s (moved s i (alloc_read old (u32 (read64 s.arena (slot_at (head_idx old))))))
  pop :
      (i old next : ℕ)
      → i < n
      → s.workers i ≡ alloc_read old next
      → s.head ≡ old
      → Step n s (exchanged s next old i (allocated (head_idx old)))
  pop_fails :
      (i old next : ℕ)
      → i < n
      → s.workers i ≡ alloc_read old next
      → Step n s (moved s i (alloc_loaded s.head))
  fill :
      (i slot : ℕ) (payload : List ℕ)
      → i < n
      → s.workers i ≡ allocated slot
      → length payload ≤ slot_size
      → Step n s (wrote s (store s.arena (slot_at slot) payload) i (allocated slot))
  begin_free :
      (i slot : ℕ)
      → i < n
      → s.workers i ≡ allocated slot
      → Step n s (moved s i (free_loaded slot s.head))
  link_node :
      (i slot old : ℕ)
      → i < n
      → s.workers i ≡ free_loaded slot old
      → Step n s (wrote s (write64 s.arena (slot_at slot) (head_idx old)) i (free_linked slot old))
  push :
      (i slot old : ℕ)
      → i < n
      → s.workers i ≡ free_linked slot old
      → s.head ≡ old
      → Step n s (exchanged s slot old i idle)
  push_fails :
      (i slot old : ℕ)
      → i < n
      → s.workers i ≡ free_linked slot old
      → Step n s (moved s i (free_loaded slot s.head))

pub data Reach (n : ℕ) (s : Stack) : Stack → Type 0 where
  start : Reach n s s
  later : {t u : Stack} → Reach n s t → Step n t u → Reach n s u
