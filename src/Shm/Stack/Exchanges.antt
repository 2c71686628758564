-- ===== src/Shm/Stack/Exchanges.antt =====
-- The two exchanges that publish a head keep the invariant of the shared free list.
use receiver.Prelude.{
  ℕ, ◌+◌, ◌<◌, ◌≡◌, ◌≢◌, ◌⊎◌, ◌^◌, inl, inr, ap, sym, ◌∙◌, subst, arith, true, false, u32, List, [],
  ◌∷◌, some, ℕ_discrete, ==_refl, ==→eq, Distinct, contains, Absent-contains, contains-cons_false,
  contains-cons_miss, contains-Absent,
}
use mathlib.Core.Bool.{false≢true}
use mathlib.Core.Option.{some-ne-none}
use receiver.Shm.Memory.{update}
use receiver.Shm.Arena.{pack_head, head_idx, head_gen}
use receiver.Shm.Arena.FreeList.{IsChain, head_idx-pack_head, head_gen-pack_head}
use receiver.Shm.Stack.{Worker, idle, alloc_read, allocated, free_linked, Stack, exchanged}
use receiver.Shm.Stack.Invariant.{
  IsStack, IsTaken, KnowsNext, link_at, holds, snapshot, update-cases,
}

-- The worker is in no call, and so has loaded no head.
abbrev pub IsOutside : Worker → Type 0
IsOutside w =
    ((o : ℕ) → snapshot w ≢ some o)
    × ((o n : ℕ) → w ≢ alloc_read o n)
    × ((x o : ℕ) → w ≢ free_linked x o)

pub idle-IsOutside : IsOutside idle
unfolding snapshot
idle-IsOutside = ((λ o h. some-ne-none o (sym h)), (λ o n h. cc), λ x o h. cc)

allocated-IsOutside : (slot : ℕ) → IsOutside (allocated slot)
unfolding snapshot
allocated-IsOutside slot = ((λ o h. some-ne-none o (sym h)), (λ o n h. cc), λ x o h. cc)

module _ (count gen : ℕ) (s : Stack) (v : IsStack count gen s) (few : s.done + 1 < 2 ^ 32)
    (i old idx : ℕ) (w : Worker) (idx_fits : idx < 2 ^ 32) (same_head : s.head ≡ old)
    (outside : IsOutside w) where
  next_generation : head_gen (pack_head idx (u32 (head_gen old + 1))) ≡ u32 (gen + (s.done + 1))
  next_generation =
      head_gen-pack_head idx _ idx_fits (omega arith)
      ∙ omega (arith, ap head_gen same_head, v.generation)

  -- A head of an earlier exchange is not the one that is published.
  stale : (o : ℕ) → IsTaken gen s o → o ≢ pack_head idx (u32 (head_gen old + 1))
  stale o (j, le, g) e = omega (arith, g, ap head_gen e, next_generation)

  later_taken :
      (j o : ℕ)
      → snapshot (update s.workers i w j) ≡ some o
      → IsTaken gen (exchanged s idx old i w) o
  later_taken j o e = elim (update-cases s.workers i j w) [
    | inl (own, at) ↦ absurd (outside.0 o (sym (ap snapshot at) ∙ e))
    | inr (other, at) ↦
        let (k, le, g) = v.taken j o (sym (ap snapshot at) ∙ e) in (k, omega arith, g)
  ]

  later_current :
      (j o n : ℕ)
      → update s.workers i w j ≡ alloc_read o n
      → KnowsNext (exchanged s idx old i w) o n
  unfolding snapshot
  later_current j o n e = elim (update-cases s.workers i j w) [
    | inl (own, at) ↦ absurd (outside.1 o n (sym at ∙ e))
    | inr (other, at) ↦
        let (ne, fits, _) = v.current j o n (sym at ∙ e) in
        (ne, fits, λ now. absurd (stale o (v.taken j o (ap snapshot (sym at ∙ e))) now))
  ]

  later_linked :
      (j x o : ℕ) → update s.workers i w j ≡ free_linked x o → link_at s.arena x ≡ head_idx o
  later_linked j x o e = elim (update-cases s.workers i j w) [
    | inl (own, at) ↦ absurd (outside.2 x o (sym at ∙ e))
    | inr (other, at) ↦ v.linked j x o (sym at ∙ e)
  ]

-- What the record of the new head still needs, shared by both exchanges.
module _ (count gen : ℕ) (s : Stack) (v : IsStack count gen s) (few : s.done + 1 < 2 ^ 32)
    (i : ℕ) where
  module _ (old next : ℕ) (at_i : s.workers i ≡ alloc_read old next)
      (same_head : s.head ≡ old) where
    holds_no : (x : ℕ) → holds x (s.workers i) ≡ false
    unfolding holds
    holds_no x = ap (holds x) at_i

    -- Who holds a slot after the exchange.
    owner :
        (j y : ℕ)
        → holds y (update s.workers i (allocated (head_idx old)) j) ≡ true
        → ((i ≡ j) × (head_idx old ≡ y)) ⊎ ((i ≢ j) × (holds y (s.workers j) ≡ true))
    unfolding holds
    owner j y h = elim (update-cases s.workers i j (allocated (head_idx old))) [
      | inl (own, at) ↦ inl (own, ==→eq _ _ (sym (ap (holds y) at) ∙ h))
      | inr (other, at) ↦ inr (other, sym (ap (holds y) at) ∙ h)
    ]

    pub popped-IsStack :
        (free : List ℕ)
        → v.free ≡ free
        → IsStack count gen (exchanged s next old i (allocated (head_idx old)))
    unfolding holds snapshot
    popped-IsStack [] e = absurd (
        (v.current i old next at_i).0
          (ap head_idx (sym same_head) ∙ subst (IsChain s.arena count (head_idx s.head)) e v.chain))
    popped-IsStack (x ∷ rest) e =
        let (ne, fits, right) = v.current i old next at_i in
        let (top, lt, tail) = subst (IsChain s.arena count (head_idx s.head)) e v.chain in
        let (absent, distinct) = subst Distinct e v.distinct in
        let old_top : head_idx old ≡ x = ap head_idx (sym same_head) ∙ top in
        let link : next ≡ link_at s.arena x =
          right (sym same_head) ∙ ap (link_at s.arena) old_top in
        let out = λ (j y : ℕ) (h : holds y (s.workers j) ≡ true).
          contains-cons_false y x rest
            (subst (λ (f : List ℕ). contains y f ≡ false) e (v.held j y h).1) in
        record {
          free = rest;
          small = v.small;
          chain =
              subst (λ (t : ℕ). IsChain s.arena count t rest)
                (sym (head_idx-pack_head next _ fits ∙ link)) tail;
          distinct = distinct;
          generation =
              next_generation count gen s v few i old next (allocated (head_idx old)) fits same_head
                (allocated-IsOutside (head_idx old));
          taken =
              later_taken count gen s v few i old next (allocated (head_idx old)) fits same_head
                (allocated-IsOutside (head_idx old));
          current =
              later_current count gen s v few i old next (allocated (head_idx old)) fits same_head
                (allocated-IsOutside (head_idx old));
          linked =
              later_linked count gen s v few i old next (allocated (head_idx old)) fits same_head
                (allocated-IsOutside (head_idx old));
          held = λ j y h. elim (update-cases s.workers i j (allocated (head_idx old))) [
            | inl (own, at) ↦
                let x_y : x ≡ y = sym old_top ∙ ==→eq _ _ (sym (ap (holds y) at) ∙ h) in
                subst (λ (z : ℕ). (z < count) × (contains z rest ≡ false)) x_y
                  (lt, contains-Absent x rest absent)
            | inr (other, at) ↦
                let before = sym (ap (holds y) at) ∙ h in
                ((v.held j y before).0, (out j y before).1)
          ];
          single = λ j k y h g. elim (owner j y h) [
            | inl (j_own, x_y) ↦ elim (owner k y g) [
              | inl (k_own, _) ↦ sym j_own ∙ k_own
              | inr (_, k_has) ↦ absurd ((out k y k_has).0 (sym (sym old_top ∙ x_y)))
            ]
            | inr (_, j_has) ↦ elim (owner k y g) [
              | inl (_, x_y) ↦ absurd ((out j y j_has).0 (sym (sym old_top ∙ x_y)))
              | inr (_, k_has) ↦ v.single j k y j_has k_has
            ]
          ];
          kept = λ y y_lt gone. elim (ℕ_discrete x y) [
            | yes own ↦ (i, rw (==_refl i) (rw (old_top ∙ own) (==_refl y)))
            | no other ↦
                let (j, h) =
                  v.kept y y_lt (rw e (contains-cons_miss y x rest (λ z. other (sym z)) gone)) in
                (
                  j,
                  elim (update-cases s.workers i j (allocated (head_idx old))) [
                    | inl (own, at) ↦ absurd (
                        false≢true
                          (sym (holds_no y) ∙ ap (λ (k : ℕ). holds y (s.workers k)) own ∙ h))
                    | inr (away, at) ↦ ap (holds y) at ∙ h
                  ],
                )
          ];
        }

  module _ (x old : ℕ) (at_i : s.workers i ≡ free_linked x old) (same_head : s.head ≡ old) where
    holds_x : holds x (s.workers i) ≡ true
    unfolding holds
    holds_x = ap (holds x) at_i ∙ ==_refl x

    -- Who holds a slot after the exchange held it before, and it is another one.
    other_owner :
        (j y : ℕ)
        → holds y (update s.workers i idle j) ≡ true
        → (holds y (s.workers j) ≡ true) × (y ≢ x)
    unfolding holds
    other_owner j y h = elim (update-cases s.workers i j idle) [
      | inl (own, at) ↦ absurd (false≢true (sym (ap (holds y) at) ∙ h))
      | inr (away, at) ↦
          let has = sym (ap (holds y) at) ∙ h in
          (
            has,
            λ e.
                away
                  (v.single i j x holds_x (subst (λ (z : ℕ). holds z (s.workers j) ≡ true) e has)),
          )
    ]

    pub pushed-IsStack : IsStack count gen (exchanged s x old i idle)
    unfolding holds snapshot
    pushed-IsStack =
        let (lt, out) = v.held i x holds_x in
        let fits : x < 2 ^ 32 = omega (arith, v.small) in
        record {
          free = x ∷ v.free;
          small = v.small;
          chain = (
            head_idx-pack_head x _ fits,
            lt,
            subst (λ (t : ℕ). IsChain s.arena count t v.free)
                (ap head_idx same_head ∙ sym (v.linked i x old at_i)) v.chain,
          );
          distinct = (Absent-contains x v.free out, v.distinct);
          generation = next_generation count gen s v few i old x idle fits same_head idle-IsOutside;
          taken = later_taken count gen s v few i old x idle fits same_head idle-IsOutside;
          current = later_current count gen s v few i old x idle fits same_head idle-IsOutside;
          linked = later_linked count gen s v few i old x idle fits same_head idle-IsOutside;
          held = λ j y h.
              let (has, ne) = other_owner j y h in
              ((v.held j y has).0, contains-cons_miss y x v.free ne (v.held j y has).1);
          single = λ j k y h g. v.single j k y (other_owner j y h).0 (other_owner k y g).0;
          kept = λ y y_lt gone.
              let (ne, gone_before) = contains-cons_false y x v.free gone in
              let (j, h) = v.kept y y_lt gone_before in
              (
                j,
                elim (update-cases s.workers i j idle) [
                  | inl (own, at) ↦ absurd (
                      ne (
                        sym (
                          ==→eq x y (
                            sym (ap (holds y) at_i)
                            ∙ ap (λ (k : ℕ). holds y (s.workers k)) own
                            ∙ h))))
                  | inr (away, at) ↦ ap (holds y) at ∙ h
                ],
              );
        }
