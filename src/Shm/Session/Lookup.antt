-- ===== src/Shm/Session/Lookup.antt =====
-- The loops over the session table find the first entry that passes their test.
use receiver.Prelude.{
  ℕ, zero, suc, ◌+◌, ◌<◌, ◌≤◌, ◌≡◌, inl, inr, Bool, true, false, arith, ◌==◌, none, some, List,
  Bool-cases, &&_parts, ==→eq, ℕ_discrete, refl,
}
use receiver.Shm.Layout.{max_sessions, session_state_open, session_state_empty}
use receiver.Shm.Segment.{Segment}
use receiver.Shm.Session.{first_index, find_session, find_empty, is_open_as, strncmp_eq}

first_index-some :
    (test : ℕ → Bool) (rounds i j : ℕ)
    → first_index test rounds i ≡ some j
    → (i ≤ j) × (j < i + rounds) × (test j ≡ true)
unfolding first_index
first_index-some test zero i j h = absurd (ground arith)
first_index-some test (suc rounds) i j h = elim (Bool-cases (test i)) [
  | inl passes ↦
      let e : i ≡ j = ground arith in (omega (arith, e), omega (arith, e), rw (← e) passes)
  | inr fails ↦
      let (lo, hi, t) = first_index-some test rounds (i + 1) j (rw fails at h) in
      (omega arith, omega arith, t)
]

first_index-none :
    (test : ℕ → Bool) (rounds i : ℕ)
    → first_index test rounds i ≡ none
    → (j : ℕ) → i ≤ j
    → j < i + rounds
    → test j ≡ false
unfolding first_index
first_index-none test zero i h j lo hi = absurd (omega arith)
first_index-none test (suc rounds) i h j lo hi = elim (Bool-cases (test i)) [
  | inl passes ↦ absurd (ground arith)
  | inr fails ↦ ground (arith, fails, first_index-none test rounds (i + 1) (rw fails at h) j)
]

pub first_index-first :
    (test : ℕ → Bool) (rounds i j : ℕ)
    → i ≤ j
    → j < i + rounds
    → test j ≡ true
    → ((m : ℕ) → m < j → test m ≡ false)
    → first_index test rounds i ≡ some j
unfolding first_index
first_index-first test zero i j lo hi on off = absurd (omega arith)
first_index-first test (suc rounds) i j lo hi on off = elim (ℕ_discrete i j) [
  | yes here ↦ rw (here, on) refl
  | no later ↦
      rw (off i (omega (arith, later)))
        (first_index-first test rounds (i + 1) j (omega (arith, later)) (omega arith) on off)
]

-- The entry found is open and has the id.
pub find_session-some :
    (s : Segment) (id : List ℕ) (i : ℕ)
    → find_session s id ≡ some i
    → (i < max_sessions)
      × ((s.sessions i).state ≡ session_state_open)
      × (strncmp_eq 63 (s.sessions i).session_id id ≡ true)
unfolding find_session is_open_as
find_session-some s id i h =
    let (_, lt, t) = first_index-some (is_open_as s id) max_sessions 0 i h in
    let (opened, named) = &&_parts _ _ t in (omega arith, ==→eq _ _ opened, named)

pub find_empty-some :
    (s : Segment) (i : ℕ)
    → find_empty s ≡ some i
    → (i < max_sessions) × ((s.sessions i).state ≡ session_state_empty)
unfolding find_empty
find_empty-some s i h =
    let (_, lt, t) =
      first_index-some (λ j. (s.sessions j).state == session_state_empty) max_sessions 0 i h in
    (omega arith, ==→eq _ _ t)

-- With none found, no entry is open under the id.
pub find_session-none :
    (s : Segment) (id : List ℕ)
    → find_session s id ≡ none
    → (i : ℕ) → i < max_sessions
    → is_open_as s id i ≡ false
unfolding find_session
find_session-none s id h i lt =
    first_index-none (is_open_as s id) max_sessions 0 h i (omega arith) (omega arith)
