-- ===== src/Shm/Arena/FreeList.antt =====
-- The free list as a list of slots: `alloc_slot` takes its first, `free_slot` puts one in front.
use receiver.Prelude.{
  ℕ, ◌*◌, ◌^◌, ◌+◌, ◌<◌, ◌≤◌, ◌≡◌, ◌≢◌, refl, sym, subst, arith, u32, List, [], ◌∷◌, length, Absent,
  Distinct, AllBelow, length-le-AllBelow, ne→not_==,
}
use receiver.Prelude.Bits.{bit_or-high, bit_and-ones}
use receiver.Shm.Layout.{list_end, slot_size}
use receiver.Shm.Memory.{
  Bytes, read64, write64, read64-write64, write64-outside, read64_cong, store-outside,
}
use receiver.Shm.Segment.{Segment, slot_at, BlockEntry, set_block}
use receiver.Shm.Arena.{pack_head, head_idx, head_gen, alloc_slot, free_slot, fill_slot}

pub pack_head-value : (idx gen : ℕ) → idx < 2 ^ 32 → pack_head idx gen ≡ gen * 2 ^ 32 + idx
unfolding pack_head
pack_head-value idx gen h = bit_or-high 32 gen idx h

-- The head packs an index and a generation without loss.
pub head_idx-pack_head : (idx gen : ℕ) → idx < 2 ^ 32 → head_idx (pack_head idx gen) ≡ idx
unfolding head_idx
head_idx-pack_head idx gen h =
    rw (pack_head-value idx gen h) (omega (arith, bit_and-ones 32 gen idx h))

pub head_gen-pack_head :
    (idx gen : ℕ) → idx < 2 ^ 32 → gen < 2 ^ 32 → head_gen (pack_head idx gen) ≡ gen
unfolding head_gen
head_gen-pack_head idx gen h k = rw (pack_head-value idx gen h) (omega arith)

-- The slots that the links run through from `top`, each below `count`.
abbrev pub IsChain : Bytes → ℕ → ℕ → List ℕ → Type 0
IsChain mem count top [] = top ≡ list_end
IsChain mem count top (i ∷ rest) =
    (top ≡ i) × (i < count) × IsChain mem count (u32 (read64 mem (slot_at i))) rest

pub record IsArena (s : Segment) (free : List ℕ) : Type 0 where
  pub small : s.header.slot_count < list_end
  pub chain : IsChain s.arena s.header.slot_count (head_idx s.header.free_list_head) free
  pub distinct : Distinct free
  pub counted : s.header.used_slots + length free ≡ s.header.slot_count
  pub peak : s.header.used_slots ≤ s.header.high_water_used

pub IsChain-AllBelow :
    (mem : Bytes) (count : ℕ) (free : List ℕ) (top : ℕ)
    → IsChain mem count top free
    → AllBelow count free
IsChain-AllBelow mem count [] top c = tt
IsChain-AllBelow mem count (i ∷ rest) top c = (c.1, IsChain-AllBelow mem count rest _ c.2)

-- A change to one slot is not seen by a chain that avoids it.
IsChain-cong :
    (m m' : Bytes) (count slot : ℕ) (free : List ℕ) (top : ℕ)
    → ((i : ℕ) → i ≢ slot → read64 m' (slot_at i) ≡ read64 m (slot_at i))
    → Absent slot free
    → IsChain m count top free
    → IsChain m' count top free
IsChain-cong m m' count slot [] top same a c = c
IsChain-cong m m' count slot (i ∷ rest) top same a c = (
  c.0,
  c.1,
  subst (λ (l : ℕ). IsChain m' count (u32 l) rest) (sym (same i (λ e. a.0 (sym e))))
      (IsChain-cong m m' count slot rest _ same a.1 c.2),
)

pub write64-other :
    (mem : Bytes) (slot v i : ℕ)
    → i ≢ slot
    → read64 (write64 mem (slot_at slot) v) (slot_at i) ≡ read64 mem (slot_at i)
write64-other mem slot v i ne =
    read64_cong _ _ (slot_at i) (λ k lt. write64-outside mem (slot_at slot) v _ (omega arith))

-- With no slot left, `alloc_slot` says so and changes nothing.
pub alloc_slot-nil : (s : Segment) → IsArena s [] → alloc_slot s ≡ (list_end, s)
unfolding alloc_slot
alloc_slot-nil s h = rw h.chain

-- If the links of the arena run through a list of distinct slots, counted by the statistics, that
-- starts with i, then alloc_slot returns i and the links run through the rest, with the statistics
-- and the high-water mark in step.
pub alloc_slot-cons :
    (s : Segment) (i : ℕ) (free : List ℕ)
    → IsArena s (i ∷ free)
    → ((alloc_slot s).0 ≡ i) × IsArena (alloc_slot s).1 free
unfolding alloc_slot
alloc_slot-cons s i free h =
    rw (h.chain.0, ne→not_== i list_end (omega (arith, h.chain.1, h.small)))
      (
        refl,
        record {
          small = h.small;
          chain =
              subst (λ (t : ℕ). IsChain s.arena s.header.slot_count t free) (sym new_top) h.chain.2;
          distinct = h.distinct.1;
          counted = omega (arith, h.counted, h.small);
          peak = ground arith;
        },
      )
  where
    new_top :
        head_idx (
          pack_head (u32 (read64 s.arena (slot_at i))) (u32 (head_gen s.header.free_list_head + 1)))
        ≡ u32 (read64 s.arena (slot_at i))
    new_top = head_idx-pack_head _ _ (omega arith)

-- A slot that is not free is one of the used ones.
used-pos :
    (s : Segment) (slot : ℕ) (free : List ℕ)
    → IsArena s free
    → slot < s.header.slot_count
    → Absent slot free
    → 0 < s.header.used_slots
used-pos s slot free h lt a = omega (
  arith,
  h.counted,
  length-le-AllBelow s.header.slot_count (slot ∷ free) (a, h.distinct)
      (lt, IsChain-AllBelow _ _ free _ h.chain),
)

chain-top-lt :
    (s : Segment) (free : List ℕ) → IsArena s free → head_idx s.header.free_list_head < 2 ^ 32
chain-top-lt s [] h = omega (arith, h.chain)
chain-top-lt s (i ∷ free) h = omega (arith, h.chain.0, h.chain.1, h.small)

-- If the links of the arena run through a list of distinct slots, counted by the statistics, and a
-- slot below the slot count is not among them, then free_slot puts it in front: the links run
-- through it and then the list, and the statistics count it.
pub free_slot-IsArena :
    (s : Segment) (slot : ℕ) (free : List ℕ)
    → IsArena s free
    → slot < s.header.slot_count
    → Absent slot free
    → IsArena (free_slot s slot) (slot ∷ free)
unfolding free_slot
free_slot-IsArena s slot free h lt a = record {
  small = h.small;
  chain = (
    head_idx-pack_head slot _ (omega (arith, h.small)),
    lt,
    subst (λ (t : ℕ). IsChain linked s.header.slot_count t free)
        (sym (read64-write64 s.arena (slot_at slot) _ (chain-top-lt s free h)))
        (IsChain-cong s.arena linked s.header.slot_count slot free _ (write64-other s.arena slot _)
          a h.chain),
  );
  distinct = (a, h.distinct);
  counted = omega (arith, h.counted, h.small, used-pos s slot free h lt a);
  peak = omega (arith, h.counted, h.small, used-pos s slot free h lt a, h.peak);
}
  where
    linked : Bytes
    linked = write64 s.arena (slot_at slot) (head_idx s.header.free_list_head)

-- Bytes that fit the slot leave the free list as it was.
pub fill_slot-IsArena :
    (s : Segment) (slot : ℕ) (payload free : List ℕ)
    → IsArena s free
    → Absent slot free
    → length payload ≤ slot_size
    → IsArena (fill_slot s slot payload) free
unfolding fill_slot
fill_slot-IsArena s slot payload free h a fits = record {
  small = h.small;
  chain =
      IsChain-cong s.arena _ s.header.slot_count slot free _
        (λ i ne.
          read64_cong _ _ (slot_at i)
            (λ k lt. store-outside payload s.arena (slot_at slot) _ (omega arith)))
        a h.chain;
  distinct = h.distinct;
  counted = h.counted;
  peak = h.peak;
}

-- The free list does not depend on the block tables.
pub set_block-IsArena :
    (s : Segment) (a : ℕ) (e : BlockEntry) (free : List ℕ)
    → IsArena s free
    → IsArena (set_block s a e) free
set_block-IsArena s a e free h = record {
  small = h.small;
  chain = h.chain;
  distinct = h.distinct;
  counted = h.counted;
  peak = h.peak;
}
