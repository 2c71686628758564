-- ===== src/Pipeline/Trigger/Invariant.antt =====
-- However calls past their registration interleave: who holds the claim, and who is yet to make it.
use receiver.Prelude.{
  ℕ, ◌+◌, ◌<◌, ◌≤◌, ◌≡◌, ◌≢◌, ◌⊎◌, inl, inr, refl, ap, sym, ◌∙◌, arith, Bool, true, false, count,
}
use receiver.Shm.Layout.{decode_pending, decode_claimed, decode_complete}
use receiver.Shm.Segment.{BlockEntry}
use receiver.Shm.Stack.Invariant.{update-cases}
use receiver.Pipeline.Trigger.{
  Registration, counting, counted, due, decoding, registered, failed, completed, Trigger, at_call,
}

unfoldable pub is_counting : Registration → Bool
is_counting counting = true
is_counting counted = false
is_counting due = false
is_counting decoding = false
is_counting registered = false
is_counting failed = false
is_counting completed = false

-- The call has yet to test the threshold or to claim.
unfoldable pub is_waiting : Registration → Bool
is_waiting counting = false
is_waiting counted = true
is_waiting due = true
is_waiting decoding = false
is_waiting registered = false
is_waiting failed = false
is_waiting completed = false

unfoldable pub has_claimed : Registration → Bool
has_claimed counting = false
has_claimed counted = false
has_claimed due = false
has_claimed decoding = true
has_claimed registered = false
has_claimed failed = true
has_claimed completed = true

-- The latch that a claim leads to.
unfoldable pub latch_of : Registration → ℕ
latch_of completed = decode_complete
latch_of _ = decode_claimed

latch_of_taken : (c : Registration) → latch_of c ≢ decode_pending
unfolding latch_of
latch_of_taken counting e = omega (arith, e)
latch_of_taken counted e = omega (arith, e)
latch_of_taken due e = omega (arith, e)
latch_of_taken decoding e = omega (arith, e)
latch_of_taken registered e = omega (arith, e)
latch_of_taken failed e = omega (arith, e)
latch_of_taken completed e = omega (arith, e)

-- Someone claims the latch once there are enough symbols.
abbrev pub IsTaken : ℕ → Trigger → Type 0
IsTaken n s =
    (s.entry.decoded ≢ decode_pending) ⊎ ((i : ℕ) × (i < n) × (is_waiting (s.calls i) ≡ true))

-- `total` symbols are counted once every call has counted its own.
pub record IsTrigger (k n total : ℕ) (s : Trigger) : Type 0 where
  pub counted : s.entry.seen + count n (λ i. is_counting (s.calls i)) ≡ total
  pub single : (i j : ℕ) → has_claimed (s.calls i) ≡ true → has_claimed (s.calls j) ≡ true → i ≡ j
  pub latched : (i : ℕ) → has_claimed (s.calls i) ≡ true → s.entry.decoded ≡ latch_of (s.calls i)
  pub claimant :
      s.entry.decoded ≢ decode_pending → (i : ℕ) × (i < n) × (has_claimed (s.calls i) ≡ true)
  pub taken : k ≤ s.entry.seen → IsTaken n s

module _ (k n total : ℕ) (s : Trigger) (v : IsTrigger k n total s) (i : ℕ) (lt : i < n)
    (c : Registration) (e : BlockEntry)
    (counts : e.seen + count n (λ j. is_counting ((at_call s e i c).calls j)) ≡ total)
    (taken : k ≤ e.seen → IsTaken n (at_call s e i c))
    (own_latch : has_claimed c ≡ true → e.decoded ≡ latch_of c) where
  -- A step that makes no claim.
  pub kept-IsTrigger :
      has_claimed c ≡ has_claimed (s.calls i)
      → (e.decoded ≡ s.entry.decoded) ⊎ (has_claimed (s.calls i) ≡ true)
      → IsTrigger k n total (at_call s e i c)
  kept-IsTrigger same latch = record {
    counted = counts;
    single = λ j m h g. v.single j m (sym (before j) ∙ h) (sym (before m) ∙ g);
    latched = λ j h. elim (update-cases s.calls i j c) [
      | inl (own, at) ↦ own_latch (sym (ap has_claimed at) ∙ h) ∙ sym (ap latch_of at)
      | inr (away, at) ↦ by_latch j away (sym (before j) ∙ h) latch ∙ sym (ap latch_of at)
    ];
    claimant = λ ne. claimed ne latch;
    taken = taken;
  }
    where
      before : (j : ℕ) → has_claimed ((at_call s e i c).calls j) ≡ has_claimed (s.calls j)
      before j = elim (update-cases s.calls i j c) [
        | inl (own, at) ↦ ap has_claimed at ∙ same ∙ ap (λ (x : ℕ). has_claimed (s.calls x)) own
        | inr (away, at) ↦ ap has_claimed at
      ]

      by_latch :
          (j : ℕ)
          → i ≢ j
          → has_claimed (s.calls j) ≡ true
          → (e.decoded ≡ s.entry.decoded) ⊎ (has_claimed (s.calls i) ≡ true)
          → e.decoded ≡ latch_of (s.calls j)
      by_latch j away h (inl unchanged) = unchanged ∙ v.latched j h
      by_latch j away h (inr mine) = absurd (away (v.single i j mine h))

      claimed :
          e.decoded ≢ decode_pending
          → (e.decoded ≡ s.entry.decoded) ⊎ (has_claimed (s.calls i) ≡ true)
          → (j : ℕ) × (j < n) × (has_claimed ((at_call s e i c).calls j) ≡ true)
      claimed ne (inl unchanged) =
          let (j, j_lt, h) = v.claimant (λ p. ne (unchanged ∙ p)) in (j, j_lt, before j ∙ h)
      claimed ne (inr mine) = (i, lt, before i ∙ mine)

  -- The step that claims a latch that no call has claimed.
  pub claimed-IsTrigger :
      s.entry.decoded ≡ decode_pending
      → has_claimed c ≡ true
      → IsTrigger k n total (at_call s e i c)
  claimed-IsTrigger pending mine = record {
    counted = counts;
    single = λ j m h g. sym (only j h) ∙ only m g;
    latched = λ j h. elim (update-cases s.calls i j c) [
      | inl (own, at) ↦ own_latch mine ∙ sym (ap latch_of at)
      | inr (away, at) ↦ absurd (away (only j h))
    ];
    claimant = λ ne. (i, lt, own_claim);
    taken = taken;
  }
    where
      only : (j : ℕ) → has_claimed ((at_call s e i c).calls j) ≡ true → i ≡ j
      only j h = elim (update-cases s.calls i j c) [
        | inl (own, at) ↦ own
        | inr (away, at) ↦
            absurd (
              latch_of_taken (s.calls j)
                (sym (v.latched j (sym (ap has_claimed at) ∙ h)) ∙ pending))
      ]

      own_claim : has_claimed ((at_call s e i c).calls i) ≡ true
      own_claim = elim (update-cases s.calls i i c) [
        | inl (own, at) ↦ ap has_claimed at ∙ mine
        | inr (away, at) ↦ absurd (away refl)
      ]
