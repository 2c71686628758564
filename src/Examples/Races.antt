-- ===== src/Examples/Races.antt =====
-- Two calls that register one symbol, one of which has won the exchange.
use receiver.Prelude.{ℕ, ◌+◌, ◌≡◌, refl, arith, true, count}
use receiver.Shm.Layout.{max_n}
use receiver.Shm.Memory.{update}
use receiver.Shm.Segment.{zero_entry}
use receiver.Shm.Block.{is_present, slot_of}
use receiver.Shm.Block.Symbols.{zero_entry-IsCounted}
use receiver.Shm.Race.{loaded, won, Race, act, Reach, start, later, load_word, exchange, set_bit}
use receiver.Shm.Race.Counts.{holds, in_flight, wrote}
use receiver.Shm.Race.Reached.{about_to, Reach-about_to}

abbrev requests : ℕ → ℕ × ℕ
requests i = (3, 9 + i)

abbrev begun : Race
begun = about_to zero_entry requests

abbrev one_loaded : Race
one_loaded = record { entry = zero_entry; calls = update begun.calls 0 (loaded 3 9 0) }

abbrev one_won : Race
one_won = record { entry = set_bit zero_entry 3; calls = update one_loaded.calls 0 (won 3 9) }

one_won-Reach : Reach 2 begun one_won
one_won-Reach =
    later (later start (act 0 (omega arith) (load_word 3 9 (omega arith))))
      (act 0 (omega arith) (exchange 3 9 0 refl refl))

Reach-about_to_example :
    (one_won.entry.seen + count 2 (λ i. in_flight (one_won.calls i))
      ≡ count max_n (is_present one_won.entry))
    × ((i t : ℕ) → holds t (one_won.calls i) ≡ true → is_present one_won.entry t ≡ true)
    × ((i j t : ℕ) → holds t (one_won.calls i) ≡ true → holds t (one_won.calls j) ≡ true → i ≡ j)
    × ((i t y : ℕ) → wrote t y (one_won.calls i) ≡ true → slot_of one_won.entry t ≡ y)
Reach-about_to_example =
    Reach-about_to 2 zero_entry requests one_won zero_entry-IsCounted one_won-Reach

-- Between the exchange and the write of the slot, the symbol is present and its link is stale.
stale_link : (is_present one_won.entry 3 ≡ true) × (slot_of one_won.entry 3 ≡ 0)
unfolding is_present slot_of
stale_link = (refl, refl)
