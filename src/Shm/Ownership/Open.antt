-- ===== src/Shm/Ownership/Open.antt =====
-- shm_manager.cpp: open_session keeps the ownership of every slot.
use receiver.Prelude.{
  ℕ, zero, suc, ◌<◌, ◌≤◌, ◌≡◌, ◌⊎◌, inl, inr, true, List, [], ◌∷◌, Option, some, none, refl, ap,
  sym, ◌∙◌, subst, arith, ne→not_==, ==_refl, Bool-cases, Option-cases, ltb, le→not_ltb, lt→ltb,
  ltb→lt, take,
}
use mathlib.Core.Option.{some-injective, some-ne-none}
use receiver.Shm.Layout.{max_blocks_per_session, session_state_open}
use receiver.Shm.Segment.{Segment}
use receiver.Shm.Session.{
  SessionParams, claim_session, open_session, open_locked, lock_sessions, unlock_sessions,
  find_session, find_empty, strncmp_eq, is_open_as,
}
use receiver.Shm.Session.Lookup.{find_session-some, find_empty-some}
use receiver.Shm.Ownership.Defs.{IsSegment, IsOpen}
use receiver.Shm.Ownership.Claim.{unlock_sessions-IsSegment, claimed-IsSegment}

pub strncmp_eq-take : (n : ℕ) (xs : List ℕ) → strncmp_eq n (take n xs) xs ≡ true
unfolding strncmp_eq
strncmp_eq-take zero xs = refl
strncmp_eq-take (suc n) [] = refl
strncmp_eq-take (suc n) (x ∷ xs) = rw (==_refl x) (strncmp_eq-take n xs)

-- What a session index stands for.
abbrev pub IsSessionOf : Segment → List ℕ → ℕ → Type 0
IsSessionOf s id i = IsOpen s i × (strncmp_eq 63 (s.sessions i).session_id id ≡ true)

-- The fields that the caller gave.
abbrev pub IsNewSession : Segment → SessionParams → ℕ → Type 0
IsNewSession s p i =
    ((s.sessions i).k ≡ p.k)
    × ((s.sessions i).n ≡ p.n)
    × ((s.sessions i).symbol_bytes ≡ p.symbol_bytes)
    × ((s.sessions i).total_blocks ≡ p.total_blocks)
    × ((s.sessions i).file_size ≡ p.file_size)

module _ (s : Segment) (p : SessionParams) (free : List ℕ) (v : IsSegment s free) where
  -- The lock is free, so the body runs and the lock is free again.
  open_session-locked :
      p.total_blocks ≤ max_blocks_per_session
      → open_session s p
        ≡ some (
          (open_locked (record s { header = record s.header { session_open_lock = 1 } }) p).0,
          unlock_sessions
              (open_locked (record s { header = record s.header { session_open_lock = 1 } }) p).1,
        )
  unfolding open_session lock_sessions
  open_session-locked few =
      simp (le→not_ltb max_blocks_per_session p.total_blocks few, v.unlocked) refl

  same_find :
      find_session (record s { header = record s.header { session_open_lock = 1 } }) p.session_id
      ≡ find_session s p.session_id
  unfolding find_session is_open_as
  same_find = refl

  same_empty :
      find_empty (record s { header = record s.header { session_open_lock = 1 } }) ≡ find_empty s
  unfolding find_empty
  same_empty = refl

  module _ (few : p.total_blocks ≤ max_blocks_per_session) where
    pub open_session-found :
        (i : ℕ)
        → find_session s p.session_id ≡ some i
        → open_session s p ≡ some (some i, unlock_sessions s)
    unfolding open_locked unlock_sessions
    open_session-found i h = open_session-locked few ∙ rw (same_find ∙ h, open_locked) refl

    pub open_session-full :
        find_session s p.session_id ≡ none
        → find_empty s ≡ none
        → open_session s p ≡ some (none, unlock_sessions s)
    unfolding open_locked unlock_sessions
    open_session-full h g =
        open_session-locked few ∙ rw (same_find ∙ h, open_locked, same_empty ∙ g) refl

    pub open_session-claims :
        (i : ℕ)
        → find_session s p.session_id ≡ none
        → find_empty s ≡ some i
        → open_session s p ≡ some (some i, unlock_sessions (claim_session s p i))
    unfolding open_locked unlock_sessions claim_session
    open_session-claims i h g =
        open_session-locked few ∙ rw (same_find ∙ h, open_locked, same_empty ∙ g) refl

  pub open_session-refused :
      max_blocks_per_session < p.total_blocks → open_session s p ≡ some (none, s)
  unfolding open_session
  open_session-refused many = simp (lt→ltb max_blocks_per_session p.total_blocks many) refl

  -- On a segment that is valid for a list of free slots, open_session does not spin, and leaves a
  -- segment that is valid for the same list, with the lock free; every session that was open is
  -- unchanged; an index that it returns is that of an open session whose id agrees with the one
  -- asked for in the first 63 bytes, either the session that find_session found, or, if it found
  -- none, a new one with the caller's k, n, symbol size, block count and file size.
  pub open_session-IsSegment :
      (result : Option ℕ) × (s' : Segment) × (open_session s p ≡ some (result, s'))
      × IsSegment s' free
      × ((i : ℕ)
          → result ≡ some i
          → IsSessionOf s' p.session_id i
            × ((find_session s p.session_id ≡ some i)
                ⊎ ((find_session s p.session_id ≡ none) × IsNewSession s' p i)))
      × ((j : ℕ) → (s.sessions j).state ≡ session_state_open → s'.sessions j ≡ s.sessions j)
  unfolding claim_session unlock_sessions
  open_session-IsSegment = elim (Bool-cases (ltb max_blocks_per_session p.total_blocks)) [
    | inl many ↦ (
      none,
      s,
      open_session-refused (ltb→lt _ _ many),
      v,
      (λ i e. absurd (some-ne-none i (sym e))),
      λ j o. refl,
    )
    | inr few ↦ elim (Option-cases (find_session s p.session_id)) [
      | inr (i, found) ↦ (
        some i,
        unlock_sessions s,
        open_session-found (ground arith) i found,
        unlock_sessions-IsSegment s free v,
        (λ j e.
            let (lt, opened, named) = find_session-some s p.session_id i found in
            (
              subst (IsSessionOf s p.session_id) (some-injective i j e) ((lt, opened), named),
              inl (found ∙ e),
            )),
        λ j o. refl,
      )
      | inl fresh ↦ elim (Option-cases (find_empty s)) [
        | inl full ↦ (
          none,
          unlock_sessions s,
          open_session-full (ground arith) fresh full,
          unlock_sessions-IsSegment s free v,
          (λ j e. absurd (some-ne-none j (sym e))),
          λ j o. refl,
        )
        | inr (i, empty) ↦
            let (lt, was_empty) = find_empty-some s i empty in
            (
              some i,
              unlock_sessions (claim_session s p i),
              open_session-claims (ground arith) i fresh empty,
              unlock_sessions-IsSegment (claim_session s p i) free
                  (claimed-IsSegment s p i free v lt was_empty (ground arith)),
              (λ j e. (
                subst (IsSessionOf (claim_session s p i) p.session_id) (some-injective i j e)
                    ((lt, rw (==_refl i) refl), rw (==_refl i) (strncmp_eq-take 63 p.session_id)),
                inr (
                  fresh,
                  subst (IsNewSession (claim_session s p i) p) (some-injective i j e) (
                    rw (==_refl i) refl,
                    rw (==_refl i) refl,
                    rw (==_refl i) refl,
                    rw (==_refl i) refl,
                    rw (==_refl i) refl,
                  ),
                ),
              )),
              λ j o.
                  rw
                    (ne→not_== i j (λ e.
                      absurd (omega (arith, was_empty, o, ap (λ (x : ℕ). (s.sessions x).state) e))))
                    refl,
            )
      ]
    ]
  ]
