-- ===== src/Shm/Race/Reached.antt =====
-- What holds of a block in every state that interleaved calls of register_symbol reach.
use receiver.Prelude.{
  ℕ, ◌+◌, ◌/◌, ◌<◌, ◌≡◌, refl, ap, sym, ◌∙◌, arith, true, false, count, count-zero, lt→ltb,
}
use mathlib.Core.Bool.{false≢true}
use receiver.Shm.Layout.{max_n}
use receiver.Shm.Memory.{update}
use receiver.Shm.Segment.{BlockEntry}
use receiver.Shm.Block.{is_present, slot_of, word_has}
use receiver.Shm.Block.Symbols.{IsCounted}
use receiver.Shm.Race.{
  Call, waiting, loaded, returned_duplicate, returned_invalid, Move, refuse, load_word, find_set,
  exchange, reload, link, add_seen, Race, Step, act, Reach, start, later,
}
use receiver.Shm.Race.Counts.{IsRace, holds, in_flight, wrote, in_range, quiet}
use receiver.Shm.Race.Moves.{exchanged, linked_by, counted_by}

module _ (n : ℕ) (r : Race) (i : ℕ) (i_lt : i < n) (v : IsRace n r) where
  -- A move that leaves the entry, of a call that holds no bit before or after.
  idle_move :
      (b c : Call)
      → r.calls i ≡ b
      → ((t : ℕ) → holds t b ≡ holds t c)
      → in_flight b ≡ in_flight c
      → ((t y : ℕ) → wrote t y b ≡ wrote t y c)
      → in_range c ≡ true
      → IsRace n (record { entry = r.entry; calls = update r.calls i c })
  idle_move b c from h f w g =
      quiet n r i c v (λ t. sym (h t) ∙ ap (holds t) (sym from)) (sym f ∙ ap in_flight (sym from))
        (λ t y. sym (w t y) ∙ ap (wrote t y) (sym from)) (g ∙ sym (v.ranged i))

  Move-IsRace :
      {b c : Call} {e : BlockEntry}
      → r.calls i ≡ b
      → Move r.entry b e c
      → IsRace n (record { entry = e; calls = update r.calls i c })
  Move-IsRace from (refuse s x big) =
      idle_move (waiting s x) returned_invalid from (λ t. refl) refl (λ t y. refl) refl
  Move-IsRace from (load_word s x small) =
      idle_move (waiting s x) (loaded s x (r.entry.present_mask (s / 64))) from (λ t. refl) refl
        (λ t y. refl) (lt→ltb s max_n small)
  Move-IsRace from (find_set s x w there) =
      idle_move (loaded s x w) returned_duplicate from (λ t. refl) refl (λ t y. refl) refl
  Move-IsRace from (exchange s x w clear same) =
      exchanged n r i i_lt v s x w from (ap (λ (m : ℕ). word_has m s) same ∙ clear)
  Move-IsRace from (reload s x w clear) =
      idle_move (loaded s x w) (loaded s x (r.entry.present_mask (s / 64))) from (λ t. refl) refl
        (λ t y. refl) (sym (ap in_range from) ∙ v.ranged i)
  Move-IsRace from (link s x) = linked_by n r i i_lt v s x from
  Move-IsRace from (add_seen s x) = counted_by n r i i_lt v s x from

pub Step-IsRace : {n : ℕ} {r s : Race} → IsRace n r → Step n r s → IsRace n s
Step-IsRace {n} {r} v (act i lt m) = Move-IsRace n r i lt v refl m

pub Reach-IsRace : {n : ℕ} {r s : Race} → IsRace n r → Reach n r s → IsRace n s
Reach-IsRace v start = v
Reach-IsRace v (later h st) = Step-IsRace (Reach-IsRace v h) st

-- Calls that have not begun, each with its symbol and slot.
abbrev pub about_to : BlockEntry → (ℕ → ℕ × ℕ) → Race
about_to e requests = record { entry = e; calls = λ i. waiting (requests i).0 (requests i).1 }

about_to-IsRace :
    (n : ℕ) (e : BlockEntry) (requests : ℕ → ℕ × ℕ) → IsCounted e → IsRace n (about_to e requests)
about_to-IsRace n e requests c = record {
  counted = omega (arith, c, count-zero n (λ i. false) (λ i lt. refl));
  held = λ i t h. absurd (false≢true h);
  single = λ i j t h k. absurd (false≢true h);
  written = λ i t y h. absurd (false≢true h);
  ranged = λ i. refl;
}

-- If a block counts its presence bits and any number of calls of register_symbol run on it
-- interleaved, each load, exchange, write of a slot and addition to seen being a step, then in
-- every state reached seen plus the calls that have set a bit and not yet counted it is the number
-- of presence bits; a symbol that a call has won is present; no two calls win one symbol; and a
-- call that has written its slot still finds it linked.
pub Reach-about_to :
    (n : ℕ) (e : BlockEntry) (requests : ℕ → ℕ × ℕ) (r : Race)
    → IsCounted e
    → Reach n (about_to e requests) r
    → (r.entry.seen + count n (λ i. in_flight (r.calls i)) ≡ count max_n (is_present r.entry))
      × ((i t : ℕ) → holds t (r.calls i) ≡ true → is_present r.entry t ≡ true)
      × ((i j t : ℕ) → holds t (r.calls i) ≡ true → holds t (r.calls j) ≡ true → i ≡ j)
      × ((i t y : ℕ) → wrote t y (r.calls i) ≡ true → slot_of r.entry t ≡ y)
Reach-about_to n e requests r c h =
    let v = Reach-IsRace (about_to-IsRace n e requests c) h in
    (v.counted, v.held, v.single, v.written)
