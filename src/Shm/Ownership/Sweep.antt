-- ===== src/Shm/Ownership/Sweep.antt =====
-- shm_manager.cpp: the sweep of close_session gives each slot of the session back once.
use receiver.Prelude.{
  ℕ, zero, suc, ◌/◌, ◌<◌, ◌≤◌, ◌≡◌, ◌⊎◌, inl, inr, List, ◌∷◌, some, refl, ap, sym, ◌∙◌, subst,
  arith, ◌==◌, ℕ_discrete, ==_refl, Bool-cases, ==→eq,
}
use mathlib.Core.Bool.{false≢true}
use receiver.Shm.Layout.{max_n, slot_idx_free, entry_offset}
use receiver.Shm.Segment.{Segment, BlockEntry}
use receiver.Shm.Arena.{free_slot}
use receiver.Shm.Arena.FreeList.{free_slot-IsArena}
use receiver.Shm.Block.{is_present, slot_of, word_has}
use receiver.Shm.Session.{release_symbol, sweep_symbols, sweep_blocks, block_entry}
use receiver.Shm.Ownership.Links.{Links, Owned, LinkOf, Owned-cong, Owned-unlink}
use receiver.Shm.Ownership.Kept.{sweep_blocks-IsKept}

-- What a sweep does not change.
is_present-small :
    (e : BlockEntry) (t : ℕ) → t < max_n → is_present e t ≡ word_has (e.present_mask (t / 64)) t
unfolding is_present
is_present-small e t lt = ground arith

slot_of-small : (e : BlockEntry) (t : ℕ) → t < max_n → slot_of e t ≡ e.slot_idx t
unfolding slot_of
slot_of-small e t lt = ground arith

-- The links of a segment that are not gone.
abbrev pub Rest : Segment → (ℕ → ℕ → Type 0) → Links
Rest s gone c u y = LinkOf s c u y × (¬ (gone c u))

Rest-cong :
    (s r : Segment) (free : List ℕ) (gone gone' : ℕ → ℕ → Type 0)
    → ((c u : ℕ) → gone c u → gone' c u)
    → ((c u : ℕ) → gone' c u → gone c u)
    → Owned r free (Rest s gone)
    → Owned r free (Rest s gone')
Rest-cong s r free gone gone' up down o =
    Owned-cong r r free (Rest s gone) (Rest s gone') o o.is_arena refl
      (λ c u y (l, kept). (l, λ g. kept (up c u g)))
      (λ c u y (l, kept). (l, λ g. kept (down c u g)))

module _ (s : Segment) (a t : ℕ) (gone gone' : ℕ → ℕ → Type 0) (small : t < max_n)
    (held : ¬ gone a t) (grow : (c u : ℕ) → gone c u → gone' c u) (now : gone' a t)
    (only : (c u : ℕ) → gone' c u → gone c u ⊎ ((c ≡ a) × (u ≡ t))) where
  fewer : (c u y : ℕ) → Rest s gone' c u y → Rest s gone c u y
  fewer c u y (l, kept) = (l, λ g. kept (grow c u g))

  -- Without a link of the symbol there is nothing to give back.
  unlinked-Owned :
      (r : Segment) (free : List ℕ)
      → ((y : ℕ) → ¬ LinkOf s a t y)
      → Owned r free (Rest s gone)
      → Owned r free (Rest s gone')
  unlinked-Owned r free fresh o =
      Owned-cong r r free (Rest s gone) (Rest s gone') o o.is_arena refl fewer (λ c u y (l, kept). (
        l,
        λ g. elim (only c u g) [
          | inl before ↦ kept before
          | inr e ↦
              fresh y
                (subst (λ (z : ℕ). LinkOf s z t y) e.0 (subst (λ (z : ℕ). LinkOf s c z y) e.1 l))
        ],
      ))

  the_symbol? : (c u : ℕ) → ((c ≡ a) × (u ≡ t)) ⊎ (¬ ((c ≡ a) × (u ≡ t)))
  the_symbol? c u = elim (ℕ_discrete c a) [
    | yes p ↦ elim (ℕ_discrete u t) [ yes q ↦ inl (p, q) | no q ↦ inr (λ e. q e.1) ]
    | no p ↦ inr (λ e. p e.0)
  ]

  linked-Owned :
      (r : Segment) (free : List ℕ) (x : ℕ)
      → LinkOf s a t x
      → Owned r free (Rest s gone)
      → Owned (free_slot r x) (x ∷ free) (Rest s gone')
  unfolding free_slot
  linked-Owned r free x l o =
      let (below, absent) = o.live a t x (l, held) in
      Owned-unlink r (free_slot r x) free (Rest s gone) (Rest s gone') a t x o (l, held)
        (free_slot-IsArena r x free o.is_arena below absent) refl
        (λ c u y k. (
          fewer c u y k,
          λ e. k.1 (subst (λ (z : ℕ). gone' z u) (sym e.0) (subst (gone' a) (sym e.1) now)),
        ))
        (λ c u y k. elim (the_symbol? c u) [
          | inl e ↦ inr e
          | inr ne ↦ inl (k.0, λ g. elim (only c u g) [ inl before ↦ k.1 before | inr e ↦ ne e ])
        ])

  release_symbol-Owned :
      (i b : ℕ) (r : Segment) (free : List ℕ)
      → block_entry s i b ≡ some a
      → Owned r free (Rest s gone)
      → (free' : List ℕ) × Owned (release_symbol (s.blocks a) t r) free' (Rest s gone')
  unfolding release_symbol
  release_symbol-Owned i b r free at_block o =
      elim (Bool-cases (word_has ((s.blocks a).present_mask (t / 64)) t)) [
        | inr absent ↦ simp absent (
          free,
          unlinked-Owned r free
              (λ y l.
                false≢true (sym absent ∙ sym (is_present-small (s.blocks a) t small) ∙ l.present))
              o,
        )
        | inl there ↦ elim (Bool-cases ((s.blocks a).slot_idx t == slot_idx_free)) [
          | inl unlinked ↦
              simp (there, unlinked)
                (
                  free,
                  unlinked-Owned r free
                      (λ y l.
                        l.linked
                          (sym l.slot ∙ slot_of-small (s.blocks a) t small ∙ ==→eq _ _ unlinked))
                      o,
                )
          | inr linked ↦
              simp (there, linked)
                (
                  (s.blocks a).slot_idx t ∷ free,
                  linked-Owned r free ((s.blocks a).slot_idx t)
                      (record {
                        session_idx = i;
                        block_id = b;
                        at_block = at_block;
                        present = is_present-small (s.blocks a) t small ∙ there;
                        slot = slot_of-small (s.blocks a) t small;
                        linked = λ e. false≢true (sym linked ∙ rw e (==_refl slot_idx_free));
                      })
                      o,
                )
        ]
      ]

-- The symbols below `t` of the entry at `a` are gone as well.
abbrev Through : (ℕ → ℕ → Type 0) → ℕ → ℕ → ℕ → ℕ → Type 0
Through gone a t c u = gone c u ⊎ ((c ≡ a) × (u < t))

module _ (s : Segment) (a i b : ℕ) (gone : ℕ → ℕ → Type 0) (at_block : block_entry s i b ≡ some a)
    (held : (t : ℕ) → ¬ gone a t) where
  sweep_symbols-Owned :
      (n : ℕ) (r : Segment) (free : List ℕ)
      → n ≤ max_n
      → Owned r free (Rest s (Through gone a 0))
      → (free' : List ℕ) × Owned (sweep_symbols (s.blocks a) n r) free' (Rest s (Through gone a n))
  unfolding sweep_symbols
  sweep_symbols-Owned zero r free le o = (free, o)
  sweep_symbols-Owned (suc t) r free le o =
      let (free', o') = sweep_symbols-Owned t r free (omega arith) o in
      release_symbol-Owned s a t (Through gone a t) (Through gone a (suc t)) (omega arith) not_yet
        (λ c u g. elim g [ inl h ↦ inl h | inr e ↦ inr (e.0, omega (arith, e.1)) ])
        (inr (refl, omega arith)) (λ c u g. elim g [ inl h ↦ inl (inl h) | inr e ↦ one_more c u e ])
        i b (sweep_symbols (s.blocks a) t r) free' at_block o'
    where
      not_yet : ¬ Through gone a t a t
      not_yet (inl g) = held t g
      not_yet (inr e) = absurd (omega (arith, e.1))

      one_more : (c u : ℕ) → (c ≡ a) × (u < suc t) → Through gone a t c u ⊎ ((c ≡ a) × (u ≡ t))
      one_more c u (p, q) = elim (ℕ_discrete u t) [
        | yes e ↦ inr (p, e)
        | no ne ↦ inl (inr (p, omega arith))
      ]

-- The symbols below `n` of the first `b` entries of a table.
abbrev pub InTable : ℕ → ℕ → ℕ → ℕ → ℕ → Type 0
InTable table n b c u = (d : ℕ) × (d < b) × (c ≡ entry_offset table d) × (u < n)

module _ (s : Segment) (i table n total : ℕ) (n_le : n ≤ max_n)
    (found : (b : ℕ) → b < total → block_entry s i b ≡ some (entry_offset table b)) where
  before_block : (b t : ℕ) → ¬ InTable table n b (entry_offset table b) t
  before_block b t (d, lt, e, _) = omega arith

  same_entry :
      (b : ℕ) (r : Segment)
      → r.blocks ≡ s.blocks
      → (sweep_blocks table n b r).blocks (entry_offset table b) ≡ s.blocks (entry_offset table b)
  same_entry b r same =
      ap (λ (f : ℕ → BlockEntry). f (entry_offset table b))
        ((sweep_blocks-IsKept table n b r).0 ∙ same)

  pub sweep_blocks-Owned :
      (b : ℕ) (r : Segment) (free : List ℕ)
      → b ≤ total
      → r.blocks ≡ s.blocks
      → Owned r free (LinkOf s)
      → (free' : List ℕ) × Owned (sweep_blocks table n b r) free' (Rest s (InTable table n b))
  unfolding sweep_blocks
  sweep_blocks-Owned zero r free le same o = (
    free,
    Owned-cong r r free (LinkOf s) (Rest s (InTable table n 0)) o o.is_arena refl (λ c u y l. l.0)
        (λ c u y l. (l, λ g. absurd (omega (arith, g.1)))),
  )
  sweep_blocks-Owned (suc b) r free le same o =
      let (free', o') = sweep_blocks-Owned b r free (omega arith) same o in
      let (swept, o'') =
        sweep_symbols-Owned s (entry_offset table b) i b (InTable table n b) (found b (omega arith))
          (before_block b) n (sweep_blocks table n b r) free' n_le
          (Rest-cong s (sweep_blocks table n b r) free' (InTable table n b)
            (Through (InTable table n b) (entry_offset table b) 0) (λ c u g. inl g)
            (λ c u g. elim g [ inl h ↦ h | inr e ↦ absurd (omega (arith, e.1)) ]) o') in
      (
        swept,
        subst
            (λ (e : BlockEntry).
              Owned (sweep_symbols e n (sweep_blocks table n b r)) swept
                (Rest s (InTable table n (suc b))))
            (sym (same_entry b r same))
            (Rest-cong s
              (sweep_symbols (s.blocks (entry_offset table b)) n (sweep_blocks table n b r)) swept
              (Through (InTable table n b) (entry_offset table b) n) (InTable table n (suc b))
              (λ c u g. elim g [
                | inl (d, lt, e, u_lt) ↦ (d, omega arith, e, u_lt)
                | inr (e, u_lt) ↦ (b, omega arith, e, u_lt)
              ])
              (λ c u (d, lt, e, u_lt). elim (ℕ_discrete d b) [
                | yes here ↦ inr (e ∙ ap (entry_offset table) here, u_lt)
                | no before ↦ inl (d, omega arith, e, u_lt)
              ])
              o''),
      )
