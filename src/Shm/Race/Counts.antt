-- ===== src/Shm/Race/Counts.antt =====
-- However calls of register_symbol interleave: one winner a symbol, and what `seen` counts.
use receiver.Prelude.{
  ℕ, ◌+◌, ◌≡◌, refl, ap, sym, ◌∙◌, Bool, true, false, ◌==◌, ◌&&◌, ltb, ℕ_discrete, ==_refl,
  ne→not_==, count, count_cong,
}
use receiver.Shm.Layout.{max_n}
use receiver.Shm.Memory.{update}
use receiver.Shm.Block.{is_present, slot_of}
use receiver.Shm.Race.{
  Call, waiting, loaded, won, linked, returned_new, returned_duplicate, returned_invalid, Race,
}

-- A call that set the bit of symbol `t`.
abbrev pub holds : ℕ → Call → Bool
holds t (waiting s x) = false
holds t (loaded s x w) = false
holds t (won s x) = s == t
holds t (linked s x) = s == t
holds t (returned_new s x) = s == t
holds t returned_duplicate = false
holds t returned_invalid = false

-- A call that set a bit and has not yet counted it.
abbrev pub in_flight : Call → Bool
in_flight (waiting s x) = false
in_flight (loaded s x w) = false
in_flight (won s x) = true
in_flight (linked s x) = true
in_flight (returned_new s x) = false
in_flight returned_duplicate = false
in_flight returned_invalid = false

-- A call that has written the slot `y` for symbol `t`.
abbrev pub wrote : ℕ → ℕ → Call → Bool
wrote t y (waiting s x) = false
wrote t y (loaded s x w) = false
wrote t y (won s x) = false
wrote t y (linked s x) = s == t && x == y
wrote t y (returned_new s x) = s == t && x == y
wrote t y returned_duplicate = false
wrote t y returned_invalid = false

-- The symbol of a call past the test of its id.
abbrev pub in_range : Call → Bool
in_range (waiting s x) = true
in_range (loaded s x w) = ltb s max_n
in_range (won s x) = ltb s max_n
in_range (linked s x) = ltb s max_n
in_range (returned_new s x) = ltb s max_n
in_range returned_duplicate = true
in_range returned_invalid = true

pub record IsRace (n : ℕ) (r : Race) : Type 0 where
  pub counted :
      r.entry.seen + count n (λ i. in_flight (r.calls i)) ≡ count max_n (is_present r.entry)
  pub held : (i t : ℕ) → holds t (r.calls i) ≡ true → is_present r.entry t ≡ true
  pub single : (i j t : ℕ) → holds t (r.calls i) ≡ true → holds t (r.calls j) ≡ true → i ≡ j
  pub written : (i t y : ℕ) → wrote t y (r.calls i) ≡ true → slot_of r.entry t ≡ y
  pub ranged : (i : ℕ) → in_range (r.calls i) ≡ true

-- A test of the calls after one of them has moved.
pub updated :
    (f : Call → Bool) (calls : ℕ → Call) (i : ℕ) (c : Call)
    → f c ≡ f (calls i)
    → (j : ℕ) → f (update calls i c j) ≡ f (calls j)
updated f calls i c same j = elim (ℕ_discrete i j) [
  | yes here ↦ rw (here, ==_refl j) (same ∙ ap (λ (k : ℕ). f (calls k)) here)
  | no away ↦ rw (ne→not_== i j away) refl
]

-- A move that changes neither the entry nor what the call holds.
module _ (n : ℕ) (r : Race) (i : ℕ) (c : Call) (v : IsRace n r) where
  pub quiet :
      ((t : ℕ) → holds t c ≡ holds t (r.calls i))
      → in_flight c ≡ in_flight (r.calls i)
      → ((t y : ℕ) → wrote t y c ≡ wrote t y (r.calls i))
      → in_range c ≡ in_range (r.calls i)
      → IsRace n (record { entry = r.entry; calls = update r.calls i c })
  quiet h f w g = record {
    counted =
        ap (λ (m : ℕ). r.entry.seen + m)
          (count_cong n (λ j. in_flight (update r.calls i c j)) (λ j. in_flight (r.calls j))
            (λ j lt. updated in_flight r.calls i c f j))
        ∙ v.counted;
    held = λ j t p. v.held j t (sym (updated (holds t) r.calls i c (h t) j) ∙ p);
    single = λ j k t p q.
        v.single j k t (sym (updated (holds t) r.calls i c (h t) j) ∙ p)
          (sym (updated (holds t) r.calls i c (h t) k) ∙ q);
    written = λ j t y p. v.written j t y (sym (updated (wrote t y) r.calls i c (w t y) j) ∙ p);
    ranged = λ j. updated in_range r.calls i c g j ∙ v.ranged j;
  }
