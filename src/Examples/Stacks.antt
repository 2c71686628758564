-- ===== src/Examples/Stacks.antt =====
-- Two workers that load one head of the free list, of which the first pops the slot.
use receiver.Prelude.{
  ℕ, ◌<◌, ◌≡◌, ◌≢◌, refl, arith, true, false, List, [], ◌∷◌, Distinct, contains, u32,
}
use receiver.Shm.Layout.{list_end}
use receiver.Shm.Memory.{read64}
use receiver.Shm.Segment.{slot_at}
use receiver.Shm.Arena.{head_idx, alloc_slot, chain_slots}
use receiver.Shm.Arena.FreeList.{IsChain}
use receiver.Shm.Stack.{
  idle, alloc_loaded, alloc_read, allocated, Stack, moved, exchanged, Reach, start, later, load_top,
  read_next, pop,
}
use receiver.Shm.Stack.Invariant.{holds}
use receiver.Shm.Stack.Alone.{Runs, next_call, next_call-Runs}
use receiver.Shm.Stack.Reached.{IsQuiet, IsSole, Reach-IsSole}
use receiver.Examples.Segments.{segment, segment-IsArena}

abbrev quiet : Stack
quiet = record {
  arena = segment.arena;
  head = segment.header.free_list_head;
  done = 0;
  workers = λ i. idle;
}

quiet-IsQuiet : IsQuiet 2 quiet
unfolding contains
quiet-IsQuiet = record {
  free = 0 ∷ 1 ∷ [];
  small = segment-IsArena.small;
  chain = segment-IsArena.chain;
  distinct = segment-IsArena.distinct;
  full = λ x lt. ground arith;
  fresh = refl;
  calm = λ i. refl;
}

abbrev first_loaded : Stack
first_loaded = moved quiet 0 (alloc_loaded quiet.head)

abbrev both_loaded : Stack
both_loaded = moved first_loaded 1 (alloc_loaded quiet.head)

abbrev first_link : ℕ
first_link = u32 (read64 segment.arena (slot_at (head_idx quiet.head)))

abbrev first_read : Stack
first_read = moved both_loaded 0 (alloc_read quiet.head first_link)

abbrev first_popped : Stack
first_popped = exchanged first_read first_link quiet.head 0 (allocated (head_idx quiet.head))

not_empty : head_idx quiet.head ≢ list_end
unfolding head_idx
not_empty e = omega arith

first_popped-Reach : Reach 2 quiet first_popped
first_popped-Reach =
    later
      (later (later (later start (load_top 0 (omega arith) refl)) (load_top 1 (omega arith) refl))
        (read_next 0 quiet.head (omega arith) refl not_empty))
      (pop 0 quiet.head first_link (omega arith) refl refl)

Reach-IsSole_example :
    (free : List ℕ) × IsChain first_popped.arena 2 (head_idx first_popped.head) free
    × Distinct free
    × ((i x : ℕ) → holds x (first_popped.workers i) ≡ true → IsSole 2 free first_popped i x)
    × ((x : ℕ)
        → x < 2
        → contains x free ≡ false
        → (i : ℕ) × (holds x (first_popped.workers i) ≡ true))
Reach-IsSole_example = Reach-IsSole 2 quiet-IsQuiet first_popped-Reach (omega arith)

next_call-Runs_example :
    Runs 2 0 first_popped (next_call (allocated (head_idx quiet.head)) (alloc_slot segment).1)
unfolding alloc_slot head_idx chain_slots
next_call-Runs_example =
    next_call-Runs 2 0 (omega arith) (alloc_slot segment).1 first_popped (refl, refl)
