-- ===== src/Shm/Opening/Decided.antt =====
-- Once a session has been opened, or refused for want of an entry, a further open gives the same result.
use receiver.Prelude.{
  ℕ, ◌≡◌, refl, sym, ◌∙◌, arith, Option, none, some, subst, Option-cases, inl, inr, ==_refl,
  ne→not_==,
}
use mathlib.Core.Option.{some-ne-none}
use receiver.Shm.Layout.{max_sessions}
use receiver.Shm.Segment.{Segment}
use receiver.Shm.Session.{
  SessionParams, find_session, find_empty, is_open_as, claim_session, open_locked,
}
use receiver.Shm.Session.Lookup.{first_index-first, find_session-none, find_empty-some}
use receiver.Shm.Ownership.Open.{strncmp_eq-take}

-- The table answers an open with `result` and stays as it is.
abbrev pub Decided : SessionParams → Segment → Option ℕ → Type 0
Decided p s result = (find_session s p.session_id ≡ result) × (result ≡ none → find_empty s ≡ none)

module _ (p : SessionParams) (s : Segment) where
  find_session-claimed :
      (i : ℕ)
      → find_session s p.session_id ≡ none
      → find_empty s ≡ some i
      → find_session (claim_session s p i) p.session_id ≡ some i
  unfolding find_session claim_session is_open_as
  find_session-claimed i fresh empty =
      let (lt, _) = find_empty-some s i empty in
      first_index-first (is_open_as (claim_session s p i) p.session_id) max_sessions 0 i
        (omega arith) (omega arith) (rw (==_refl i, strncmp_eq-take 63 p.session_id) refl)
        (λ m m_lt.
          rw (ne→not_== i m (λ e. omega (arith, e)))
            (find_session-none s p.session_id fresh m (omega arith)))

  -- A result and the segment that it comes with: the result is decided, and so is all that was before.
  abbrev pub IsSettled : Option ℕ × Segment → Type 0
  IsSettled x =
      Decided p x.1 x.0
      × ((result : Option ℕ) → Decided p s result → Decided p x.1 result)
      × (x.1.header ≡ s.header)

  open_locked-known : (i : ℕ) → find_session s p.session_id ≡ some i → open_locked s p ≡ (some i, s)
  unfolding open_locked
  open_locked-known i known = rw (known, open_locked) refl

  open_locked-full :
      find_session s p.session_id ≡ none → find_empty s ≡ none → open_locked s p ≡ (none, s)
  unfolding open_locked
  open_locked-full fresh full = rw (fresh, open_locked, full) refl

  open_locked-claims :
      (i : ℕ)
      → find_session s p.session_id ≡ none
      → find_empty s ≡ some i
      → open_locked s p ≡ (some i, claim_session s p i)
  unfolding open_locked
  open_locked-claims i fresh empty = rw (fresh, open_locked, empty) refl

  pub open_locked-Decided : IsSettled (open_locked s p)
  unfolding claim_session
  open_locked-Decided = elim (Option-cases (find_session s p.session_id)) [
    | inr (i, known) ↦
        subst IsSettled (sym (open_locked-known i known))
          ((known, λ e. absurd (some-ne-none i e)), (λ result d. d), refl)
    | inl fresh ↦ elim (Option-cases (find_empty s)) [
      | inl full ↦
          subst IsSettled (sym (open_locked-full fresh full))
            ((fresh, λ e. full), (λ result d. d), refl)
      | inr (i, empty) ↦ subst IsSettled (sym (open_locked-claims i fresh empty)) (
        (find_session-claimed i fresh empty, λ e. absurd (some-ne-none i e)),
        (λ result d. absurd (some-ne-none i (sym empty ∙ d.1 (sym d.0 ∙ fresh)))),
        refl,
      )
    ]
  ]
