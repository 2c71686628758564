-- ===== src/Shm/Ownership/Links.antt =====
-- Who holds which slot of the arena: each slot is free or linked from exactly one symbol of one block.
use receiver.Prelude.{
  ℕ, ◌<◌, ◌≡◌, ◌≢◌, ◌⊎◌, inl, inr, sym, ◌∙◌, subst, arith, true, false, List, ◌∷◌, Absent, contains,
  contains-cons_false, contains-cons_miss, ℕ_discrete, some,
}
use receiver.Shm.Layout.{slot_idx_free}
use receiver.Shm.Segment.{Segment}
use receiver.Shm.Arena.FreeList.{IsArena}
use receiver.Shm.Block.{is_present, slot_of}
use receiver.Shm.Session.{block_entry}

-- `L a t x`: the entry at offset `a` links its symbol `t` to the slot `x`.
abbrev pub Links : Type 1
Links = ℕ → ℕ → ℕ → Type 0

pub record Owned (s : Segment) (free : List ℕ) (L : Links) : Type 0 where
  pub is_arena : IsArena s free
  pub live : (a t x : ℕ) → L a t x → (x < s.header.slot_count) × Absent x free
  pub one : (a t x y : ℕ) → L a t x → L a t y → x ≡ y
  pub single : (a b t u x : ℕ) → L a t x → L b u x → (a ≡ b) × (t ≡ u)
  pub kept :
      (x : ℕ) → x < s.header.slot_count → contains x free ≡ false → (a : ℕ) × (t : ℕ) × L a t x

-- A slot is taken off the free list and linked from a symbol that had no link.
pub Owned-link :
    (s s' : Segment) (free : List ℕ) (L L' : Links) (a t x : ℕ)
    → Owned s (x ∷ free) L
    → IsArena s' free
    → s'.header.slot_count ≡ s.header.slot_count
    → ((y : ℕ) → ¬ L a t y)
    → L' a t x
    → ((b u y : ℕ) → L b u y → L' b u y)
    → ((b u y : ℕ) → L' b u y → L b u y ⊎ ((b ≡ a) × (u ≡ t) × (y ≡ x)))
    → Owned s' free L'
Owned-link s s' free L L' a t x o arena count fresh new old grow = record {
  is_arena = arena;
  live = λ b u y l. elim (grow b u y l) [
    | inl l' ↦ (subst (λ (c : ℕ). y < c) (sym count) (o.live b u y l').0, (o.live b u y l').1.1)
    | inr e ↦ (
      omega (arith, e.2, count, o.is_arena.chain.1),
      subst (λ (z : ℕ). Absent z free) (sym e.2) o.is_arena.distinct.0,
    )
  ];
  one = λ b u y z l m. one_of b u y z (grow b u y l) (grow b u z m);
  single = λ b c u v y l m. single_of b c u v y (grow b u y l) (grow c v y m);
  kept = λ y lt out. elim (ℕ_discrete y x) [
    | yes e ↦ (a, t, subst (λ (z : ℕ). L' a t z) (sym e) new)
    | no ne ↦
        let (b, u, l) = o.kept y (omega (arith, count)) (contains-cons_miss y x free ne out) in
        (b, u, old b u y l)
  ];
}
  where
    one_of :
        (b u y z : ℕ)
        → L b u y ⊎ ((b ≡ a) × (u ≡ t) × (y ≡ x))
        → L b u z ⊎ ((b ≡ a) × (u ≡ t) × (z ≡ x))
        → y ≡ z
    one_of b u y z (inl l) (inl m) = o.one b u y z l m
    one_of b u y z (inl l) (inr e) =
        absurd (fresh y (subst (λ (c : ℕ). L c t y) e.0 (subst (λ (c : ℕ). L b c y) e.1 l)))
    one_of b u y z (inr e) (inl m) =
        absurd (fresh z (subst (λ (c : ℕ). L c t z) e.0 (subst (λ (c : ℕ). L b c z) e.1 m)))
    one_of b u y z (inr e) (inr f) = e.2 ∙ sym f.2

    single_of :
        (b c u v y : ℕ)
        → L b u y ⊎ ((b ≡ a) × (u ≡ t) × (y ≡ x))
        → L c v y ⊎ ((c ≡ a) × (v ≡ t) × (y ≡ x))
        → (b ≡ c) × (u ≡ v)
    single_of b c u v y (inl l) (inl m) = o.single b c u v y l m
    single_of b c u v y (inl l) (inr e) = absurd ((o.live b u y l).1.0 e.2)
    single_of b c u v y (inr e) (inl m) = absurd ((o.live c v y m).1.0 e.2)
    single_of b c u v y (inr e) (inr f) = (e.0 ∙ sym f.0, e.1 ∙ sym f.1)

-- A linked slot goes back to the free list, and its link is forgotten.
pub Owned-unlink :
    (s s' : Segment) (free : List ℕ) (L L' : Links) (a t x : ℕ)
    → Owned s free L
    → L a t x
    → IsArena s' (x ∷ free)
    → s'.header.slot_count ≡ s.header.slot_count
    → ((b u y : ℕ) → L' b u y → L b u y × (¬ ((b ≡ a) × (u ≡ t))))
    → ((b u y : ℕ) → L b u y → L' b u y ⊎ ((b ≡ a) × (u ≡ t)))
    → Owned s' (x ∷ free) L'
Owned-unlink s s' free L L' a t x o linked arena count shrink rest = record {
  is_arena = arena;
  live = λ b u y l.
      let (l', ne) = shrink b u y l in
      (
        subst (λ (c : ℕ). y < c) (sym count) (o.live b u y l').0,
        (
          λ e. ne (o.single b a u t x (subst (λ (z : ℕ). L b u z) e l') linked),
          (o.live b u y l').1,
        ),
      );
  one = λ b u y z l m. o.one b u y z (shrink b u y l).0 (shrink b u z m).0;
  single = λ b c u v y l m. o.single b c u v y (shrink b u y l).0 (shrink c v y m).0;
  kept = λ y lt out.
      let (y≢x, out') = contains-cons_false y x free out in
      let (b, u, l) = o.kept y (omega (arith, count)) out' in
      elim (rest b u y l) [
        | inl l' ↦ (b, u, l')
        | inr e ↦ absurd (
            y≢x (
              o.one a t y x (subst (λ (c : ℕ). L c t y) e.0 (subst (λ (c : ℕ). L b c y) e.1 l))
                linked))
      ];
}

-- The same links, over an arena with the same free slots.
pub Owned-cong :
    (s s' : Segment) (free : List ℕ) (L L' : Links)
    → Owned s free L
    → IsArena s' free
    → s'.header.slot_count ≡ s.header.slot_count
    → ((b u y : ℕ) → L' b u y → L b u y)
    → ((b u y : ℕ) → L b u y → L' b u y)
    → Owned s' free L'
Owned-cong s s' free L L' o arena count back forth = record {
  is_arena = arena;
  live = λ b u y l. (
    subst (λ (c : ℕ). y < c) (sym count) (o.live b u y (back b u y l)).0,
    (o.live b u y (back b u y l)).1,
  );
  one = λ b u y z l m. o.one b u y z (back b u y l) (back b u z m);
  single = λ b c u v y l m. o.single b c u v y (back b u y l) (back c v y m);
  kept = λ y lt out. let (b, u, l) = o.kept y (omega (arith, count)) out in (b, u, forth b u y l);
}

-- The links that the open blocks of a segment hold.
pub record LinkOf (s : Segment) (a t x : ℕ) : Type 0 where
  pub session_idx : ℕ
  pub block_id : ℕ
  pub at_block : block_entry s session_idx block_id ≡ some a
  pub present : is_present (s.blocks a) t ≡ true
  pub slot : slot_of (s.blocks a) t ≡ x
  pub linked : x ≢ slot_idx_free
