-- ===== src/Shm/Race/Moves.antt =====
-- The moves that change the entry keep the invariant of the race.
use receiver.Prelude.{
  ℕ, ◌+◌, ◌/◌, ◌<◌, ◌≡◌, ◌≢◌, ◌⊎◌, inl, inr, refl, ap, sym, ◌∙◌, subst, arith, true, false,
  if◌then◌else◌, ◌==◌, u32, ltb→lt, ℕ_discrete, ==_refl, ==→eq, ne→not_==, count, count_cong,
  count_insert, count-le, &&_parts,
}
use mathlib.Core.Bool.{false≢true}
use receiver.Shm.Layout.{max_n}
use receiver.Shm.Memory.{update}
use receiver.Shm.Segment.{BlockEntry}
use receiver.Shm.Block.{is_present, slot_of, word_has}
use receiver.Shm.Block.Symbols.{is_present-registered}
use receiver.Shm.Race.{
  Call, waiting, loaded, won, linked, returned_new, returned_duplicate, returned_invalid, set_bit,
  Race,
}
use receiver.Shm.Race.Counts.{IsRace, holds, in_flight, wrote, in_range, updated}

moved_cases :
    (calls : ℕ → Call) (i : ℕ) (c : Call) (j : ℕ)
    → ((i ≡ j) × (update calls i c j ≡ c)) ⊎ ((i ≢ j) × (update calls i c j ≡ calls j))
moved_cases calls i c j = elim (ℕ_discrete i j) [
  | yes here ↦ inl (here, rw (here, ==_refl j) refl)
  | no away ↦ inr (away, rw (ne→not_== i j away) refl)
]

present-set_bit :
    (e : BlockEntry) (s t : ℕ)
    → s < max_n
    → is_present (set_bit e s) t ≡ (if s == t then true else is_present e t)
unfolding is_present
present-set_bit e s t lt = is_present-registered e s 0 t lt

absent_before :
    (e : BlockEntry) (s : ℕ)
    → s < max_n
    → word_has (e.present_mask (s / 64)) s ≡ false
    → is_present e s ≡ false
unfolding is_present
absent_before e s lt h = ground arith

module _ (n : ℕ) (r : Race) (i : ℕ) (i_lt : i < n) (v : IsRace n r) (s x : ℕ) where
  -- The winner of the exchange.
  module _ (w : ℕ) (from : r.calls i ≡ loaded s x w)
      (clear : word_has (r.entry.present_mask (s / 64)) s ≡ false) where
    in_set : s < max_n
    in_set = ltb→lt s max_n (sym (ap in_range from) ∙ v.ranged i)

    absent : is_present r.entry s ≡ false
    absent = absent_before r.entry s in_set clear

    stays : (t : ℕ) → is_present r.entry t ≡ true → is_present (set_bit r.entry s) t ≡ true
    stays t p = present-set_bit r.entry s t in_set ∙ ground arith

    one_more : count max_n (is_present (set_bit r.entry s)) ≡ count max_n (is_present r.entry) + 1
    one_more =
        count_insert max_n (is_present r.entry) (is_present (set_bit r.entry s)) s in_set absent
          (present-set_bit r.entry s s in_set ∙ rw (==_refl s) refl)
          (λ t ne. present-set_bit r.entry s t in_set ∙ rw (ne→not_== s t (λ e. ne (sym e))) refl)

    pub exchanged :
        IsRace n (record { entry = set_bit r.entry s; calls = update r.calls i (won s x) })
    unfolding slot_of
    exchanged = record {
      counted = omega (
        arith,
        v.counted,
        one_more,
        count_insert n (λ j. in_flight (r.calls j)) (λ j. in_flight (update r.calls i (won s x) j))
            i i_lt (ap in_flight from) (rw (==_refl i) refl)
            (λ j ne. rw (ne→not_== i j (λ e. ne (sym e))) refl),
      );
      held = λ j t p. elim (moved_cases r.calls i (won s x) j) [
        | inl (_, e) ↦
            subst (λ (y : ℕ). is_present (set_bit r.entry s) y ≡ true)
              (==→eq s t (sym (ap (holds t) e) ∙ p))
              (present-set_bit r.entry s s in_set ∙ rw (==_refl s) refl)
        | inr (_, e) ↦ stays t (v.held j t (sym (ap (holds t) e) ∙ p))
      ];
      single = λ j k t p q. elim (moved_cases r.calls i (won s x) j) [
        | inl (at_j, e) ↦ elim (moved_cases r.calls i (won s x) k) [
          | inl (at_k, f) ↦ sym at_j ∙ at_k
          | inr (_, f) ↦ absurd (only_new t k (sym (ap (holds t) e) ∙ p) (sym (ap (holds t) f) ∙ q))
        ]
        | inr (_, e) ↦ elim (moved_cases r.calls i (won s x) k) [
          | inl (at_k, f) ↦
              absurd (only_new t j (sym (ap (holds t) f) ∙ q) (sym (ap (holds t) e) ∙ p))
          | inr (_, f) ↦ v.single j k t (sym (ap (holds t) e) ∙ p) (sym (ap (holds t) f) ∙ q)
        ]
      ];
      written = λ j t y p. elim (moved_cases r.calls i (won s x) j) [
        | inl (_, e) ↦ absurd (false≢true (sym (ap (wrote t y) e) ∙ p))
        | inr (_, e) ↦ v.written j t y (sym (ap (wrote t y) e) ∙ p)
      ];
      ranged = λ j. elim (moved_cases r.calls i (won s x) j) [
        | inl (_, e) ↦ ap in_range e ∙ sym (ap in_range from) ∙ v.ranged i
        | inr (_, e) ↦ ap in_range e ∙ v.ranged j
      ];
    }
      where
        only_new : (t k : ℕ) → (s == t) ≡ true → holds t (r.calls k) ≡ true → ⊥
        only_new t k own old =
            false≢true (sym absent ∙ ap (is_present r.entry) (==→eq s t own) ∙ v.held k t old)

  -- The winner writes its slot.
  module _ (from : r.calls i ≡ won s x) where
    abbrev after_link : BlockEntry
    after_link = record r.entry { slot_idx = update r.entry.slot_idx s x }

    same_present : (t : ℕ) → is_present after_link t ≡ is_present r.entry t
    unfolding is_present
    same_present t = refl

    won_range : s < max_n
    won_range = ltb→lt s max_n (sym (ap in_range from) ∙ v.ranged i)

    own_slot : slot_of after_link s ≡ x
    unfolding slot_of
    own_slot = ground (arith, won_range)

    other_slot : (t : ℕ) → s ≢ t → slot_of after_link t ≡ slot_of r.entry t
    unfolding slot_of
    other_slot t ne = ground arith

    wrote-holds : (t y : ℕ) (c : Call) → wrote t y c ≡ true → holds t c ≡ true
    wrote-holds t y (waiting a b) h = h
    wrote-holds t y (loaded a b c) h = h
    wrote-holds t y (won a b) h = absurd (false≢true h)
    wrote-holds t y (linked a b) h = (&&_parts _ _ h).0
    wrote-holds t y (returned_new a b) h = (&&_parts _ _ h).0
    wrote-holds t y returned_duplicate h = h
    wrote-holds t y returned_invalid h = h

    pub linked_by : IsRace n (record { entry = after_link; calls = update r.calls i (linked s x) })
    linked_by = record {
      counted = omega (
        arith,
        v.counted,
        count_cong n (λ j. in_flight (update r.calls i (linked s x) j)) (λ j. in_flight (r.calls j))
            (λ j lt. updated in_flight r.calls i (linked s x) (sym (ap in_flight from)) j),
        count_cong max_n (is_present after_link) (is_present r.entry) (λ t lt. same_present t),
      );
      held = λ j t p.
          same_present t
          ∙ v.held j t
              (sym (updated (holds t) r.calls i (linked s x) (sym (ap (holds t) from)) j) ∙ p);
      single = λ j k t p q.
          v.single j k t
            (sym (updated (holds t) r.calls i (linked s x) (sym (ap (holds t) from)) j) ∙ p)
            (sym (updated (holds t) r.calls i (linked s x) (sym (ap (holds t) from)) k) ∙ q);
      written = λ j t y p. elim (moved_cases r.calls i (linked s x) j) [
        | inl (_, e) ↦
            let (at_s, at_x) = &&_parts _ _ (sym (ap (wrote t y) e) ∙ p) in
            ap (slot_of after_link) (sym (==→eq s t at_s)) ∙ own_slot ∙ ==→eq x y at_x
        | inr (ne, e) ↦
            let old = sym (ap (wrote t y) e) ∙ p in
            other_slot t (λ same. ne (
              v.single i j t (ap (holds t) from ∙ rw (same, ==_refl t) refl)
                (wrote-holds t y (r.calls j) old)))
            ∙ v.written j t y old
      ];
      ranged = λ j. updated in_range r.calls i (linked s x) (sym (ap in_range from)) j ∙ v.ranged j;
    }

  -- The winner adds to `seen`.
  module _ (from : r.calls i ≡ linked s x) where
    abbrev after_count : BlockEntry
    after_count = record r.entry { seen = u32 (r.entry.seen + 1) }

    counted_present : (t : ℕ) → is_present after_count t ≡ is_present r.entry t
    unfolding is_present
    counted_present t = refl

    one_fewer :
        count n (λ j. in_flight (r.calls j))
        ≡ count n (λ j. in_flight (update r.calls i (returned_new s x) j)) + 1
    one_fewer =
        count_insert n (λ j. in_flight (update r.calls i (returned_new s x) j))
          (λ j. in_flight (r.calls j)) i i_lt (rw (==_refl i) refl) (ap in_flight from)
          (λ j ne. rw (ne→not_== i j (λ e. ne (sym e))) refl)

    pub counted_by :
        IsRace n (record { entry = after_count; calls = update r.calls i (returned_new s x) })
    unfolding slot_of
    counted_by = record {
      counted = omega (
        arith,
        v.counted,
        one_fewer,
        count-le max_n (is_present r.entry),
        count_cong max_n (is_present after_count) (is_present r.entry) (λ t lt. counted_present t),
      );
      held = λ j t p.
          counted_present t
          ∙ v.held j t (
              sym (updated (holds t) r.calls i (returned_new s x) (sym (ap (holds t) from)) j) ∙ p);
      single = λ j k t p q.
          v.single j k t
            (sym (updated (holds t) r.calls i (returned_new s x) (sym (ap (holds t) from)) j) ∙ p)
            (sym (updated (holds t) r.calls i (returned_new s x) (sym (ap (holds t) from)) k) ∙ q);
      written = λ j t y p. v.written j t y (
          sym (updated (wrote t y) r.calls i (returned_new s x) (sym (ap (wrote t y) from)) j) ∙ p);
      ranged = λ j.
          updated in_range r.calls i (returned_new s x) (sym (ap in_range from)) j ∙ v.ranged j;
    }
