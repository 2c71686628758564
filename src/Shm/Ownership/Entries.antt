-- ===== src/Shm/Ownership/Entries.antt =====
-- shm_manager.cpp: what open_session leaves in each entry of the table, and comparing short ids.
use receiver.Prelude.{
  ℕ, zero, suc, ◌≤◌, ◌≡◌, ◌⊎◌, inl, inr, true, List, [], ◌∷◌, Option, some, none, refl, ap, ap₂,
  sym, ◌∙◌, arith, ne→not_==, ==_refl, ==→eq, &&_parts, Bool-cases, Option-cases, ltb, ltb→lt, take,
  length, ℕ_discrete, subst,
}
use mathlib.Core.Option.{some-injective}
use mathlib.Core.Bool.{false≢true}
use receiver.Shm.Layout.{max_blocks_per_session}
use receiver.Shm.Segment.{Segment}
use receiver.Shm.Session.{
  SessionParams, claim_session, open_session, unlock_sessions, find_session, find_empty, strncmp_eq,
}
use receiver.Shm.Ownership.Defs.{IsSegment}
use receiver.Shm.Ownership.Open.{
  open_session-found, open_session-full, open_session-claims, open_session-refused,
}

-- Strings of at most `n` characters that agree in the first `n` are equal.
pub strncmp_eq→eq :
    (n : ℕ) (xs ys : List ℕ) → length xs ≤ n → length ys ≤ n → strncmp_eq n xs ys ≡ true → xs ≡ ys
unfolding strncmp_eq
strncmp_eq→eq zero [] [] p q h = refl
strncmp_eq→eq zero [] (y ∷ ys) p q h = absurd (omega arith)
strncmp_eq→eq zero (x ∷ xs) ys p q h = absurd (omega arith)
strncmp_eq→eq (suc n) [] [] p q h = refl
strncmp_eq→eq (suc n) [] (y ∷ ys) p q h = absurd (false≢true h)
strncmp_eq→eq (suc n) (x ∷ xs) [] p q h = absurd (false≢true h)
strncmp_eq→eq (suc n) (x ∷ xs) (y ∷ ys) p q h =
    let (first, rest) = &&_parts _ _ h in
    ap₂ ◌∷◌ (==→eq x y first) (strncmp_eq→eq n xs ys (omega arith) (omega arith) rest)

pub length-take-le : (n : ℕ) (xs : List ℕ) → length (take n xs) ≤ n
length-take-le zero xs = omega arith
length-take-le (suc n) [] = omega arith
length-take-le (suc n) (x ∷ xs) = omega (arith, length-take-le n xs)

pub take-short : (n : ℕ) (xs : List ℕ) → length xs ≤ n → take n xs ≡ xs
take-short zero [] h = refl
take-short zero (x ∷ xs) h = absurd (omega arith)
take-short (suc n) [] h = refl
take-short (suc n) (x ∷ xs) h = ap (◌∷◌ x) (take-short n xs (omega arith))

-- An entry is as it was, or it is the one returned, claimed with the caller's id and n.
abbrev pub IsKeptOrClaimed : Segment → SessionParams → Option ℕ → Segment → ℕ → Type 0
IsKeptOrClaimed s p result s' j =
    (s'.sessions j ≡ s.sessions j)
    ⊎ ((result ≡ some j)
        × ((s'.sessions j).session_id ≡ take 63 p.session_id)
        × ((s'.sessions j).n ≡ p.n))

module _ (s : Segment) (p : SessionParams) (free : List ℕ) (v : IsSegment s free) where
  claim_session-entries :
      (i j : ℕ) → IsKeptOrClaimed s p (some i) (unlock_sessions (claim_session s p i)) j
  unfolding claim_session unlock_sessions
  claim_session-entries i j = elim (ℕ_discrete i j) [
    | yes own ↦ inr (ap some own, rw (own, ==_refl j) refl, rw (own, ==_refl j) refl)
    | no other ↦ inl (rw (ne→not_== i j other) refl)
  ]

  by_result :
      (result result' : Option ℕ) (s' s'' : Segment)
      → open_session s p ≡ some (result, s')
      → open_session s p ≡ some (result', s'')
      → ((j : ℕ) → IsKeptOrClaimed s p result' s'' j)
      → (j : ℕ) → IsKeptOrClaimed s p result s' j
  by_result result result' s' s'' e e' h j =
      let same : (result', s'') ≡ (result, s') = some-injective _ _ (sym e' ∙ e) in
      subst (λ (x : Option ℕ × Segment). IsKeptOrClaimed s p x.0 x.1 j) same (h j)

  pub open_session-entries :
      (result : Option ℕ) (s' : Segment)
      → open_session s p ≡ some (result, s')
      → (j : ℕ) → IsKeptOrClaimed s p result s' j
  unfolding unlock_sessions
  open_session-entries result s' e = elim (Bool-cases (ltb max_blocks_per_session p.total_blocks)) [
    | inl many ↦
        by_result result none s' s e (open_session-refused s p free v (ltb→lt _ _ many))
          (λ j. inl refl)
    | inr few ↦ elim (Option-cases (find_session s p.session_id)) [
      | inr (i, found) ↦
          by_result result (some i) s' (unlock_sessions s) e
            (open_session-found s p free v (ground arith) i found) (λ j. inl refl)
      | inl fresh ↦ elim (Option-cases (find_empty s)) [
        | inl full ↦
            by_result result none s' (unlock_sessions s) e
              (open_session-full s p free v (ground arith) fresh full) (λ j. inl refl)
        | inr (i, empty) ↦
            by_result result (some i) s' (unlock_sessions (claim_session s p i)) e
              (open_session-claims s p free v (ground arith) i fresh empty)
              (claim_session-entries i)
      ]
    ]
  ]
