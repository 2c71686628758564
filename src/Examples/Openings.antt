-- ===== src/Examples/Openings.antt =====
-- Two receivers that open one session: the second spins, and then gets the entry that the first claimed.
use receiver.Prelude.{ℕ, ◌≡◌, refl, arith, true, Option, some, ◌∷◌, []}
use receiver.Shm.Segment.{Segment}
use receiver.Shm.Session.{SessionParams, lock_sessions, unlock_sessions, open_locked, find_session}
use receiver.Shm.Opening.{
  asking, inside, found, returned, Opening, with_call, Reach, start, later, acquire, spin, search,
  release,
}
use receiver.Shm.Opening.Reached.{has_lock, answer, all_asking, Reach-all_asking}
use receiver.Examples.Segments.{segment}

abbrev params : SessionParams
params = record {
  session_id = 116 ∷ [];
  k = 1;
  n = 2;
  symbol_bytes = 1;
  total_blocks = 2;
  file_size = 2;
  dest_path = [];
}

abbrev locked : Segment → Segment
locked s = record s { header = record s.header { session_open_lock = 1 } }

abbrev claimed : Option ℕ × Segment
claimed = open_locked (locked segment) params

abbrev searched_again : Option ℕ × Segment
searched_again = open_locked (locked (unlock_sessions claimed.1)) params

-- The first receiver opens while the second spins.
abbrev first_done : Opening
first_done =
    with_call
      (with_call
        (with_call (with_call (all_asking segment) (locked segment) 0 inside) (locked segment) 1
          asking)
        claimed.1 0 (found claimed.0))
      (unlock_sessions claimed.1) 0 (returned claimed.0)

first_done-Reach : Reach 2 params (all_asking segment) first_done
unfolding lock_sessions
first_done-Reach =
    later
      (later
        (later (later start (acquire 0 (locked segment) (omega arith) refl refl))
          (spin 1 (omega arith) refl refl))
        (search 0 (omega arith) refl))
      (release 0 claimed.0 (omega arith) refl)

abbrev both_found : Opening
both_found =
    with_call (with_call first_done (locked (unlock_sessions claimed.1)) 1 inside) searched_again.1
      1 (found searched_again.0)

both_found-Reach : Reach 2 params (all_asking segment) both_found
unfolding lock_sessions unlock_sessions
both_found-Reach =
    later
      (later first_done-Reach
        (acquire 1 (locked (unlock_sessions claimed.1)) (omega arith) refl refl))
      (search 1 (omega arith) refl)

Reach-all_asking_example :
    ((i j : ℕ)
      → has_lock (both_found.calls i) ≡ true
      → has_lock (both_found.calls j) ≡ true
      → i ≡ j)
    × ((i : ℕ) (result : Option ℕ)
        → answer (both_found.calls i) ≡ some result
        → find_session both_found.segment params.session_id ≡ result)
    × ((i j : ℕ) (result other : Option ℕ)
        → answer (both_found.calls i) ≡ some result
        → answer (both_found.calls j) ≡ some other
        → result ≡ other)
Reach-all_asking_example = Reach-all_asking 2 params segment both_found both_found-Reach
