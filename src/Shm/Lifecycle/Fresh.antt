-- ===== src/Shm/Lifecycle/Fresh.antt =====
-- shm_manager.cpp: a segment just created is valid, and passes the checks of a process that attaches.
use receiver.Prelude.{
  ℕ, zero, suc, ◌+◌, ◌/◌, ◌^◌, ◌<◌, ◌≤◌, ◌≡◌, ◌≢◌, true, List, [], ◌∷◌, some, refl, ap, sym, ◌∙◌,
  subst, arith, if◌then◌else◌, ℕ_discrete, ltb, u32, length, Absent, Distinct, contains,
}
use mathlib.Core.Bool.{false≢true}
use receiver.Shm.Layout.{
  slot_size, list_end, session_state_open, compute_total_size, compute_arena_offset,
}
use receiver.Shm.Memory.{Bytes, read64, read64-write64}
use receiver.Shm.Segment.{slot_at}
use receiver.Shm.Arena.{chain_slots}
use receiver.Shm.Arena.FreeList.{IsArena, IsChain, write64-other, head_idx-pack_head}
use receiver.Shm.Session.{block_entry}
use receiver.Shm.Ownership.Links.{LinkOf}
use receiver.Shm.Ownership.Defs.{IsSegment, block_entry-some}
use receiver.Shm.Lifecycle.{init_header, map_and_validate, header_valid, offsets_valid}

-- `n` slots from `i` on.
unfoldable pub slots_from : ℕ → ℕ → List ℕ
slots_from i zero = []
slots_from i (suc n) = i ∷ slots_from (i + 1) n

length-slots_from : (n i : ℕ) → length (slots_from i n) ≡ n
unfolding slots_from
length-slots_from zero i = refl
length-slots_from (suc n) i = omega (arith, length-slots_from n (i + 1))

slots_from-Absent : (n y i : ℕ) → y < i → Absent y (slots_from i n)
unfolding slots_from
slots_from-Absent zero y i lt = tt
slots_from-Absent (suc n) y i lt = ((λ e. omega arith), slots_from-Absent n y (i + 1) (omega arith))

slots_from-Distinct : (n i : ℕ) → Distinct (slots_from i n)
unfolding slots_from
slots_from-Distinct zero i = tt
slots_from-Distinct (suc n) i =
    (slots_from-Absent n i (i + 1) (omega arith), slots_from-Distinct n (i + 1))

slots_from-all : (n i y : ℕ) → i ≤ y → y < i + n → contains y (slots_from i n) ≡ true
unfolding slots_from contains
slots_from-all zero i y lo hi = absurd (omega arith)
slots_from-all (suc n) i y lo hi = ground (arith, slots_from-all n (i + 1) y)

-- The link that `init_header` writes in slot `i`.
abbrev next_of : ℕ → ℕ → ℕ
next_of count i = if ltb (i + 1) count then i + 1 else list_end

chain_slots-next :
    (count k : ℕ) (mem : Bytes) (i : ℕ)
    → count < list_end
    → i < k
    → u32 (read64 (chain_slots count k mem) (slot_at i)) ≡ next_of count i
unfolding chain_slots
chain_slots-next count zero mem i small lt = absurd (omega arith)
chain_slots-next count (suc k) mem i small lt = elim (ℕ_discrete i k) [
  | yes last ↦
      ap (λ (x : ℕ). u32 (read64 (chain_slots count (suc k) mem) (slot_at x))) last
      ∙ read64-write64 (chain_slots count k mem) (slot_at k) (next_of count k) (ground arith)
      ∙ ap (next_of count) (sym last)
  | no before ↦
      ap u32 (write64-other (chain_slots count k mem) k (next_of count k) i before)
      ∙ chain_slots-next count k mem i small (omega arith)
]

IsChain-from :
    (count r i : ℕ)
    → count < list_end
    → i + r ≡ count
    → IsChain
        (chain_slots count count (λ _. 0))
        count
        (if ltb i count then i else list_end)
        (slots_from i r)
unfolding slots_from
IsChain-from count zero i small sum = ground arith
IsChain-from count (suc r) i small sum = (
  ground arith,
  omega arith,
  subst (λ (t : ℕ). IsChain (chain_slots count count (λ _. 0)) count t (slots_from (i + 1) r))
      (sym (chain_slots-next count count (λ _. 0) i small (omega arith)))
      (IsChain-from count r (i + 1) small (omega arith)),
)

module _ (getpid : ℕ) (boot_id : List ℕ) (arena_bytes : ℕ)
    (few : arena_bytes / slot_size < list_end) where
  count_is : u32 (arena_bytes / slot_size) ≡ arena_bytes / slot_size
  count_is = omega arith

  pub never_open :
      (j : ℕ) → ((init_header getpid boot_id arena_bytes).sessions j).state ≢ session_state_open
  unfolding init_header
  never_open j e = omega (arith, e)

  no_block : (i b a : ℕ) → block_entry (init_header getpid boot_id arena_bytes) i b ≢ some a
  no_block i b a found =
      let (lt, opened, _, _) =
        block_entry-some (init_header getpid boot_id arena_bytes) i b a found in
      never_open i opened

  no_link : (a t x : ℕ) → ¬ LinkOf (init_header getpid boot_id arena_bytes) a t x
  no_link a t x l = no_block l.session_idx l.block_id a l.at_block

  init_header-IsArena :
      IsArena
        (init_header getpid boot_id arena_bytes)
        (slots_from 0 (u32 (arena_bytes / slot_size)))
  unfolding init_header
  init_header-IsArena = record {
    small = omega arith;
    chain =
        subst
          (λ (t : ℕ).
            IsChain
              (chain_slots (u32 (arena_bytes / slot_size)) (u32 (arena_bytes / slot_size)) (λ _. 0))
              (u32 (arena_bytes / slot_size)) t (slots_from 0 (u32 (arena_bytes / slot_size))))
          (sym (
            head_idx-pack_head (if ltb 0 (u32 (arena_bytes / slot_size)) then 0 else list_end) 0
              (ground arith)))
          (IsChain-from (u32 (arena_bytes / slot_size)) (u32 (arena_bytes / slot_size)) 0
            (omega arith) (omega arith));
    distinct = slots_from-Distinct (u32 (arena_bytes / slot_size)) 0;
    counted = omega (arith, length-slots_from (u32 (arena_bytes / slot_size)) 0);
    peak = omega arith;
  }

  init_header-kept :
      (x : ℕ)
      → x < (init_header getpid boot_id arena_bytes).header.slot_count
      → contains x (slots_from 0 (u32 (arena_bytes / slot_size))) ≡ true
  unfolding init_header
  init_header-kept x lt =
      slots_from-all (u32 (arena_bytes / slot_size)) 0 x (omega arith) (omega arith)

  init_header_unlocked : (init_header getpid boot_id arena_bytes).header.session_open_lock ≡ 0
  unfolding init_header
  init_header_unlocked = refl

  pub init_header_owned :
      IsSegment
        (init_header getpid boot_id arena_bytes)
        (slots_from 0 (u32 (arena_bytes / slot_size)))
  init_header_owned = record {
    owned = record {
      is_arena = init_header-IsArena;
      live = λ a t x l. absurd (no_link a t x l);
      one = λ a t x y l m. absurd (no_link a t x l);
      single = λ a b t u x l m. absurd (no_link a t x l);
      kept = λ x lt out. absurd (false≢true (sym out ∙ init_header-kept x lt));
    };
    tables = λ i (lt, opened). absurd (never_open i opened);
    ranged = λ i b a t found there. absurd (no_block i b a found);
    counted = λ i b a found. absurd (no_block i b a found);
    linked = λ i b a t found pending there. absurd (no_block i b a found);
    unlocked = init_header_unlocked;
  }

  map_and_validate-init_header :
      (0 < arena_bytes)
      → compute_arena_offset + arena_bytes < 2 ^ 64
      → map_and_validate (init_header getpid boot_id arena_bytes) (compute_total_size arena_bytes)
        ≡ true
  unfolding map_and_validate init_header header_valid offsets_valid
  map_and_validate-init_header some_bytes fits = ground arith

  -- If the arena has at least one byte and fewer slots than 0xFFFFFFFF, and the total size does not
  -- wrap, then the segment that init_header writes over zeros is valid with every slot free in
  -- increasing order, and map_and_validate accepts it on a mapping of the computed size.
  pub init_header-IsSegment :
      (0 < arena_bytes)
      → compute_arena_offset + arena_bytes < 2 ^ 64
      → IsSegment
          (init_header getpid boot_id arena_bytes)
          (slots_from 0 (u32 (arena_bytes / slot_size)))
        × (map_and_validate
              (init_header getpid boot_id arena_bytes)
              (compute_total_size arena_bytes)
            ≡ true)
  init_header-IsSegment some_bytes fits =
      (init_header_owned, map_and_validate-init_header some_bytes fits)
