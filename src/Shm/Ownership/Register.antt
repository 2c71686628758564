-- ===== src/Shm/Ownership/Register.antt =====
-- A registration moves the first free slot to a symbol of an open block.
use receiver.Prelude.{
  ℕ, ◌<◌, ◌≤◌, ◌≡◌, ◌≢◌, ◌⊎◌, true, false, List, ◌∷◌, some, refl, ap, sym, ◌∙◌, subst, arith, inl,
  inr, if◌then◌else◌, ◌==◌, ℕ_discrete, length, ne→not_==, ==_refl,
}
use mathlib.Core.Bool.{false≢true}
use receiver.Shm.Layout.{
  slot_idx_free, max_n, slot_size, list_end, decode_complete, table_offset, max_blocks_per_session,
}
use receiver.Shm.Segment.{Segment, set_block}
use receiver.Shm.Arena.{alloc_slot, fill_slot, note_alloc, popped}
use receiver.Shm.Arena.FreeList.{IsArena, alloc_slot-cons, fill_slot-IsArena, set_block-IsArena}
use receiver.Shm.Block.{is_present, slot_of, registered}
use receiver.Shm.Block.Symbols.{
  IsCounted, is_present-registered, slot_of-registered, registered-IsCounted,
}
use receiver.Shm.Session.{block_entry}
use receiver.Shm.Ownership.Links.{Owned, LinkOf, Owned-link}
use receiver.Shm.Ownership.Defs.{IsOpen, IsSegment, block_entry-injective}

-- The segment after `alloc_slot` has taken a slot.
abbrev pub taken : Segment → Segment
taken s = record s {
  header = note_alloc (record s.header { free_list_head = popped s s.header.free_list_head });
}

pub alloc_slot-taken :
    (s : Segment) (x : ℕ) (free : List ℕ)
    → IsArena s (x ∷ free)
    → (alloc_slot s ≡ (x, taken s)) × IsArena (taken s) free × (x ≢ slot_idx_free)
unfolding alloc_slot
alloc_slot-taken s x free h =
    let (_, rest) = alloc_slot-cons s x free h in
    (the_call, rw (ap (λ p. p.1) the_call) at rest, omega (arith, h.chain.1, h.small))
  where
    the_call : alloc_slot s ≡ (x, taken s)
    the_call = rw (h.chain.0, ne→not_== x list_end (omega (arith, h.chain.1, h.small))) refl

pub filled-blocks :
    (s : Segment) (x : ℕ) (payload : List ℕ) → (fill_slot (taken s) x payload).blocks ≡ s.blocks
unfolding fill_slot
filled-blocks s x payload = refl

module _ (s : Segment) (free payload : List ℕ) (x i b a t : ℕ) where
  -- The segment after the slot `x` is taken, filled, and linked from symbol `t` of the entry at `a`.
  abbrev pub stored : Segment
  stored = set_block (fill_slot (taken s) x payload) a (registered (s.blocks a) t x)

  pub same_block : (j c : ℕ) → block_entry stored j c ≡ block_entry s j c
  unfolding block_entry fill_slot
  same_block j c = refl

  pub same_latch : (d : ℕ) → (stored.blocks d).decoded ≡ (s.blocks d).decoded
  unfolding fill_slot
  same_latch d = ground arith

  module _ (v : IsSegment s (x ∷ free)) (at_block : block_entry s i b ≡ some a) (small : t < max_n)
      (within : t < (s.sessions i).n) (absent : is_present (s.blocks a) t ≡ false)
      (fits : length payload ≤ slot_size) where
    present_at :
        (c u : ℕ)
        → is_present (stored.blocks c) u ≡ (
            if a == c
            then if t == u then true else is_present (s.blocks a) u
            else is_present (s.blocks c) u)
    unfolding fill_slot
    present_at c u = elim (ℕ_discrete a c) [
      | yes here ↦ rw (here, ==_refl c) (is_present-registered (s.blocks c) t x u small)
      | no away ↦ rw (ne→not_== a c away) refl
    ]

    link_at :
        (c u : ℕ)
        → slot_of (stored.blocks c) u ≡ (
            if a == c then if t == u then x else slot_of (s.blocks a) u else slot_of (s.blocks c) u)
    unfolding fill_slot
    link_at c u = elim (ℕ_discrete a c) [
      | yes here ↦ rw (here, ==_refl c) (slot_of-registered (s.blocks c) t x u small)
      | no away ↦ rw (ne→not_== a c away) refl
    ]

    -- What is read of the new symbol, and of any other.
    present_new : is_present (stored.blocks a) t ≡ true
    present_new = present_at a t ∙ rw (==_refl a, ==_refl t) refl

    link_new : slot_of (stored.blocks a) t ≡ x
    link_new = link_at a t ∙ rw (==_refl a, ==_refl t) refl

    present_other :
        (c u : ℕ)
        → (¬ ((c ≡ a) × (u ≡ t)))
        → is_present (stored.blocks c) u ≡ is_present (s.blocks c) u
    present_other c u ne = present_at c u ∙ elim (ℕ_discrete a c) [
      | yes here ↦ rw (here, ==_refl c, ne→not_== t u (λ e. ne (sym here, sym e))) refl
      | no away ↦ rw (ne→not_== a c away) refl
    ]

    link_other :
        (c u : ℕ) → (¬ ((c ≡ a) × (u ≡ t))) → slot_of (stored.blocks c) u ≡ slot_of (s.blocks c) u
    link_other c u ne = link_at c u ∙ elim (ℕ_discrete a c) [
      | yes here ↦ rw (here, ==_refl c, ne→not_== t u (λ e. ne (sym here, sym e))) refl
      | no away ↦ rw (ne→not_== a c away) refl
    ]

    the_symbol? : (c u : ℕ) → ((c ≡ a) × (u ≡ t)) ⊎ (¬ ((c ≡ a) × (u ≡ t)))
    the_symbol? c u = elim (ℕ_discrete c a) [
      | yes p ↦ elim (ℕ_discrete u t) [ yes q ↦ inl (p, q) | no q ↦ inr (λ e. q e.1) ]
      | no p ↦ inr (λ e. p e.0)
    ]

    absent_at : (c u : ℕ) → (c ≡ a) × (u ≡ t) → is_present (s.blocks c) u ≡ false
    absent_at c u e = rw (e.0, e.1) absent

    grow : (c u y : ℕ) → LinkOf stored c u y → LinkOf s c u y ⊎ ((c ≡ a) × (u ≡ t) × (y ≡ x))
    grow c u y l = elim (the_symbol? c u) [
      | inl e ↦ inr (
        e.0,
        e.1,
        sym l.slot
            ∙ ap (λ (d : ℕ). slot_of (stored.blocks d) u) e.0
            ∙ ap (slot_of (stored.blocks a)) e.1
            ∙ link_new,
      )
      | inr ne ↦ inl (record {
        session_idx = l.session_idx;
        block_id = l.block_id;
        at_block = sym (same_block l.session_idx l.block_id) ∙ l.at_block;
        present = sym (present_other c u ne) ∙ l.present;
        slot = sym (link_other c u ne) ∙ l.slot;
        linked = l.linked;
      })
    ]

    old : (c u y : ℕ) → LinkOf s c u y → LinkOf stored c u y
    old c u y l = elim (the_symbol? c u) [
      | inl e ↦ absurd (false≢true (sym (absent_at c u e) ∙ l.present))
      | inr ne ↦ record {
        session_idx = l.session_idx;
        block_id = l.block_id;
        at_block = same_block l.session_idx l.block_id ∙ l.at_block;
        present = present_other c u ne ∙ l.present;
        slot = link_other c u ne ∙ l.slot;
        linked = l.linked;
      }
    ]

    x≢free : x ≢ slot_idx_free
    x≢free = omega (arith, v.owned.is_arena.chain.1, v.owned.is_arena.small)

    new : LinkOf stored a t x
    new = record {
      session_idx = i;
      block_id = b;
      at_block = same_block i b ∙ at_block;
      present = present_new;
      slot = link_new;
      linked = x≢free;
    }

    IsArena-after : IsArena stored free
    IsArena-after = set_block-IsArena _ a _ free (
        fill_slot-IsArena (taken s) x payload free (alloc_slot-taken s x free v.owned.is_arena).1
          v.owned.is_arena.distinct.0 fits)

    same_count : stored.header.slot_count ≡ s.header.slot_count
    unfolding fill_slot note_alloc
    same_count = refl

    Owned-after : Owned stored free (LinkOf stored)
    Owned-after =
        Owned-link s stored free (LinkOf s) (LinkOf stored) a t x v.owned IsArena-after same_count
          (λ y l. false≢true (sym absent ∙ l.present)) new old grow

    tables_after :
        (j : ℕ)
        → IsOpen stored j
        → ((stored.sessions j).block_table_offset
            ≡ table_offset stored.header.block_table_region_offset j)
          × ((stored.sessions j).total_blocks ≤ max_blocks_per_session)
    unfolding fill_slot note_alloc
    tables_after j o = v.tables j o

    ranged_after :
        (j c d u : ℕ)
        → block_entry stored j c ≡ some d
        → is_present (stored.blocks d) u ≡ true
        → u < (stored.sessions j).n
    unfolding fill_slot
    ranged_after j c d u p q = elim (the_symbol? d u) [
      | inl e ↦
          let same =
            block_entry-injective s _ j i c b a v (sym (same_block j c) ∙ p ∙ ap some e.0)
              at_block in
          subst (λ (k : ℕ). u < (s.sessions k).n) (sym same.0) (rw e.1 within)
      | inr ne ↦ v.ranged j c d u (sym (same_block j c) ∙ p) (sym (present_other d u ne) ∙ q)
    ]

    IsCounted-after : (j c d : ℕ) → block_entry stored j c ≡ some d → IsCounted (stored.blocks d)
    unfolding fill_slot
    IsCounted-after j c d p = elim (ℕ_discrete a d) [
      | yes here ↦ rw (==_entry here) (
          subst (λ (z : ℕ). IsCounted (registered (s.blocks z) t x)) here
            (registered-IsCounted (s.blocks a) t x small absent (v.counted i b a at_block)))
      | no away ↦ rw (ne→not_== a d away) (v.counted j c d (sym (same_block j c) ∙ p))
    ]
      where
        ==_entry :
            a ≡ d
            → (if a == d then registered (s.blocks a) t x else s.blocks d)
              ≡ registered (s.blocks d) t x
        ==_entry e = rw (e, ==_refl d) refl

    linked_after :
        (j c d u : ℕ)
        → block_entry stored j c ≡ some d
        → (stored.blocks d).decoded ≢ decode_complete
        → is_present (stored.blocks d) u ≡ true
        → slot_of (stored.blocks d) u ≢ slot_idx_free
    linked_after j c d u p q r = elim (the_symbol? d u) [
      | inl e ↦ rw (e.0, e.1, link_new) x≢free
      | inr ne ↦ rw (link_other d u ne) (
          v.linked j c d u (sym (same_block j c) ∙ p) (λ z. q (same_latch d ∙ z))
            (sym (present_other d u ne) ∙ r))
    ]

    unlocked_after : stored.header.session_open_lock ≡ 0
    unfolding fill_slot note_alloc
    unlocked_after = v.unlocked

    -- A new symbol with its payload in the first free slot keeps the invariant.
    pub register-IsSegment : IsSegment stored free
    register-IsSegment = record {
      owned = Owned-after;
      tables = tables_after;
      ranged = ranged_after;
      counted = IsCounted-after;
      linked = linked_after;
      unlocked = unlocked_after;
    }
