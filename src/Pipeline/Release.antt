-- ===== src/Pipeline/Release.antt =====
-- session_pipeline.cpp: the loop that gives a decoded block's slots back.
use receiver.Prelude.{
  ℕ, zero, suc, ◌+◌, ◌<◌, ◌≤◌, ◌≡◌, ◌≢◌, ◌⊎◌, inl, inr, Bool, true, false, List, ◌∷◌, some, refl,
  ap, sym, ◌∙◌, arith, ℕ_discrete, ne→not_==, ==_refl, count, fun_ext, Bool-cases, Absent, length,
}
use mathlib.Core.Bool.{false≢true}
use receiver.Shm.Layout.{slot_idx_free, decode_complete, max_n}
use receiver.Shm.Segment.{Segment}
use receiver.Shm.Arena.{free_slot}
use receiver.Shm.Arena.FreeList.{IsArena, set_block-IsArena, free_slot-IsArena}
use receiver.Shm.Block.{is_present, slot_of, clear_slot}
use receiver.Shm.Block.Symbols.{clear_slot_lem}
use receiver.Shm.Session.{block_entry}
use receiver.Shm.Ownership.Links.{LinkOf, Owned-unlink}
use receiver.Shm.Ownership.Defs.{IsSegment}
use receiver.Pipeline.{release_slot, release_slots}

module _ (s : Segment) (a t : ℕ) where
  same_block : (j c : ℕ) → block_entry (release_slot s a t) j c ≡ block_entry s j c
  unfolding block_entry free_slot
  same_block j c = refl

  same_sessions : (release_slot s a t).sessions ≡ s.sessions
  unfolding free_slot
  same_sessions = refl

  same_present :
      (c u : ℕ) → is_present ((release_slot s a t).blocks c) u ≡ is_present (s.blocks c) u
  unfolding free_slot
  same_present c u = elim (ℕ_discrete a c) [
    | yes here ↦ rw (here, ==_refl c) (clear_slot_lem (s.blocks c) t u).1
    | no away ↦ rw (ne→not_== a c away) refl
  ]

  same_state : (c : ℕ) → ((release_slot s a t).blocks c).decoded ≡ (s.blocks c).decoded
  unfolding free_slot clear_slot
  same_state c = ground arith

  same_seen : (c : ℕ) → ((release_slot s a t).blocks c).seen ≡ (s.blocks c).seen
  unfolding free_slot clear_slot
  same_seen c = ground arith

  slot_cleared : slot_of ((release_slot s a t).blocks a) t ≡ slot_idx_free
  unfolding free_slot
  slot_cleared = rw (==_refl a) ((clear_slot_lem (s.blocks a) t t).0 ∙ rw (==_refl t) refl)

  slot_other :
      (c u : ℕ)
      → (¬ ((c ≡ a) × (u ≡ t)))
      → slot_of ((release_slot s a t).blocks c) u ≡ slot_of (s.blocks c) u
  unfolding free_slot
  slot_other c u ne = elim (ℕ_discrete a c) [
    | yes here ↦
        rw (here, ==_refl c)
          ((clear_slot_lem (s.blocks c) t u).0
            ∙ rw (ne→not_== t u (λ e. ne (sym here, sym e))) refl)
    | no away ↦ rw (ne→not_== a c away) refl
  ]

  the_symbol? : (c u : ℕ) → ((c ≡ a) × (u ≡ t)) ⊎ (¬ ((c ≡ a) × (u ≡ t)))
  the_symbol? c u = elim (ℕ_discrete c a) [
    | yes p ↦ elim (ℕ_discrete u t) [ yes q ↦ inl (p, q) | no q ↦ inr (λ e. q e.1) ]
    | no p ↦ inr (λ e. p e.0)
  ]

  -- The released link is gone, and no other.
  shrink :
      (c u y : ℕ) → LinkOf (release_slot s a t) c u y → LinkOf s c u y × (¬ ((c ≡ a) × (u ≡ t)))
  shrink c u y l = elim (the_symbol? c u) [
    | inl e ↦ absurd (
        l.linked (
          sym l.slot
          ∙ ap (λ (d : ℕ). slot_of ((release_slot s a t).blocks d) u) e.0
          ∙ ap (slot_of ((release_slot s a t).blocks a)) e.1
          ∙ slot_cleared))
    | inr ne ↦ (
      record {
        session_idx = l.session_idx;
        block_id = l.block_id;
        at_block = sym (same_block _ _) ∙ l.at_block;
        present = sym (same_present c u) ∙ l.present;
        slot = sym (slot_other c u ne) ∙ l.slot;
        linked = l.linked;
      },
      ne,
    )
  ]

  rest : (c u y : ℕ) → LinkOf s c u y → LinkOf (release_slot s a t) c u y ⊎ ((c ≡ a) × (u ≡ t))
  rest c u y l = elim (the_symbol? c u) [
    | inl e ↦ inr e
    | inr ne ↦ inl (record {
      session_idx = l.session_idx;
      block_id = l.block_id;
      at_block = same_block _ _ ∙ l.at_block;
      present = same_present c u ∙ l.present;
      slot = slot_other c u ne ∙ l.slot;
      linked = l.linked;
    })
  ]

  -- One round: the symbol's slot joins the free list.
  release_slot-IsSegment :
      (free : List ℕ)
      → IsSegment s free
      → LinkOf s a t (slot_of (s.blocks a) t)
      → (s.blocks a).decoded ≡ decode_complete
      → IsSegment (release_slot s a t) (slot_of (s.blocks a) t ∷ free)
  unfolding free_slot
  release_slot-IsSegment free v l complete = record {
    owned =
        Owned-unlink s (release_slot s a t) free (LinkOf s) (LinkOf (release_slot s a t)) a t _
          v.owned l arena refl shrink rest;
    tables = v.tables;
    ranged =
        λ i b c u p q. v.ranged i b c u (sym (same_block i b) ∙ p) (sym (same_present c u) ∙ q);
    counted = λ i b c p.
        same_seen c
        ∙ v.counted i b c (sym (same_block i b) ∙ p)
        ∙ ap (count max_n) (fun_ext (λ u. sym (same_present c u)));
    linked = λ i b c u p q r. elim (ℕ_discrete c a) [
      | yes here ↦ absurd (q (same_state c ∙ ap (λ (d : ℕ). (s.blocks d).decoded) here ∙ complete))
      | no away ↦ rw (slot_other c u (λ e. away e.0)) (
          v.linked i b c u (sym (same_block i b) ∙ p) (λ e. q (same_state c ∙ e))
            (sym (same_present c u) ∙ r))
    ];
    unlocked = v.unlocked;
  }
    where
      live : (slot_of (s.blocks a) t < s.header.slot_count) × Absent (slot_of (s.blocks a) t) free
      live = v.owned.live a t _ l

      arena : IsArena (release_slot s a t) (slot_of (s.blocks a) t ∷ free)
      arena = set_block-IsArena _ a _ _ (free_slot-IsArena s _ free v.owned.is_arena live.0 live.1)

-- What the first `n` rounds of the loop leave of the block at `a`, of which the symbols `p` were present.
pub record Released (s s' : Segment) (a n : ℕ) (p : ℕ → Bool) (free free' : List ℕ) : Type 0 where
  pub valid : IsSegment s' free'
  pub blocks : (j c : ℕ) → block_entry s' j c ≡ block_entry s j c
  pub sessions : s'.sessions ≡ s.sessions
  pub state : (s'.blocks a).decoded ≡ decode_complete
  pub present : (u : ℕ) → is_present (s'.blocks a) u ≡ is_present (s.blocks a) u
  pub cleared : (u : ℕ) → u < n → p u ≡ true → slot_of (s'.blocks a) u ≡ slot_idx_free
  pub later : (u : ℕ) → n ≤ u → slot_of (s'.blocks a) u ≡ slot_of (s.blocks a) u
  pub returned : length free' ≡ length free + count n p

module _ (s : Segment) (i b a : ℕ) (p : ℕ → Bool) (free : List ℕ) (v : IsSegment s free)
    (at_block : block_entry s i b ≡ some a) (complete : (s.blocks a).decoded ≡ decode_complete)
    (present : (u : ℕ) → p u ≡ true → is_present (s.blocks a) u ≡ true)
    (linked : (u : ℕ) → p u ≡ true → slot_of (s.blocks a) u ≢ slot_idx_free) where
  one_round :
      (t : ℕ) (r : Segment) (free' : List ℕ)
      → Released s r a t p free free'
      → p t ≡ true
      → Released s (release_slot r a t) a (suc t) p free (slot_of (r.blocks a) t ∷ free')
  unfolding count
  one_round t r free' before on = record {
    valid =
        release_slot-IsSegment r a t free' before.valid
          (record {
            session_idx = i;
            block_id = b;
            at_block = before.blocks i b ∙ at_block;
            present = before.present t ∙ present t on;
            slot = refl;
            linked = λ e. linked t on (sym (before.later t (omega arith)) ∙ e);
          })
          before.state;
    blocks = λ j c. same_block r a t j c ∙ before.blocks j c;
    sessions = same_sessions r a t ∙ before.sessions;
    state = same_state r a t a ∙ before.state;
    present = λ u. same_present r a t a u ∙ before.present u;
    cleared = λ u lt q. elim (ℕ_discrete u t) [
      | yes here ↦ rw here (slot_cleared r a t)
      | no away ↦ slot_other r a t a u (λ e. away e.1) ∙ before.cleared u (omega arith) q
    ];
    later = λ u le.
        slot_other r a t a u (λ e. absurd (omega (arith, e.1))) ∙ before.later u (omega arith);
    returned = rw on (omega (arith, before.returned));
  }

  skip_round :
      (t : ℕ) (r : Segment) (free' : List ℕ)
      → Released s r a t p free free'
      → p t ≡ false
      → Released s r a (suc t) p free free'
  unfolding count
  skip_round t r free' before off = record {
    valid = before.valid;
    blocks = before.blocks;
    sessions = before.sessions;
    state = before.state;
    present = before.present;
    cleared = λ u lt q. elim (ℕ_discrete u t) [
      | yes here ↦ absurd (false≢true (sym off ∙ sym (ap p here) ∙ q))
      | no away ↦ before.cleared u (omega arith) q
    ];
    later = λ u le. before.later u (omega arith);
    returned = rw off (omega (arith, before.returned));
  }

  -- The loop returns the slot of every symbol that was present, each exactly once.
  pub release_slots-Released :
      (n : ℕ) → (free' : List ℕ) × Released s (release_slots p a n s) a n p free free'
  unfolding release_slots count
  release_slots-Released zero = (
    free,
    record {
      valid = v;
      blocks = λ j c. refl;
      sessions = refl;
      state = complete;
      present = λ u. refl;
      cleared = λ u lt q. absurd (omega arith);
      later = λ u le. refl;
      returned = omega arith;
    },
  )
  release_slots-Released (suc t) =
      let (free', before) = release_slots-Released t in
      elim (Bool-cases (p t)) [
        | inl on ↦
            rw on
              (slot_of ((release_slots p a t s).blocks a) t ∷ free', one_round t _ free' before on)
        | inr off ↦ rw off (free', skip_round t _ free' before off)
      ]
