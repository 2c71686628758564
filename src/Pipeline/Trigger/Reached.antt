-- ===== src/Pipeline/Trigger/Reached.antt =====
-- What holds once calls past their registration have run, in any order.
use receiver.Prelude.{
  ℕ, zero, suc, ◌+◌, ◌<◌, ◌≤◌, ◌≡◌, ◌≢◌, ◌^◌, inl, inr, refl, ap, sym, ◌∙◌, arith, subst, Bool,
  true, false, u32, count, count_insert, count_cong, count-zero, ℕ_discrete, ==_refl, ne→not_==,
}
use mathlib.Core.Bool.{false≢true}
use receiver.Shm.Layout.{decode_pending, decode_claimed, decode_complete}
use receiver.Shm.Segment.{BlockEntry}
use receiver.Shm.Block.{try_claim_decode}
use receiver.Shm.Block.Latch.{claim_won, claim_lost, complete_won}
use receiver.Shm.Stack.Invariant.{update-cases}
use receiver.Pipeline.Trigger.{
  Registration, counting, counted, due, decoding, registered, failed, completed, Trigger, at_call,
  Step, add_seen, too_few, enough, claim, miss, fail, complete, complete_fails, Reach, start, later,
}
use receiver.Pipeline.Trigger.Invariant.{
  is_counting, is_waiting, has_claimed, latch_of, IsTaken, IsTrigger, kept-IsTrigger,
  claimed-IsTrigger,
}

-- What the two transitions of the latch tell.
claim-true :
    (e e' : BlockEntry)
    → try_claim_decode e ≡ (true, e')
    → (e.decoded ≡ decode_pending) × (record e { decoded = decode_claimed } ≡ e')
claim-true e e' h = elim (ℕ_discrete e.decoded decode_pending) [
  | yes pending ↦ (pending, ap (λ (x : Bool × BlockEntry). x.1) (sym (claim_won e pending) ∙ h))
  | no taken ↦
      absurd (false≢true (ap (λ (x : Bool × BlockEntry). x.0) (sym (claim_lost e taken) ∙ h)))
]

claim-false :
    (e e' : BlockEntry) → try_claim_decode e ≡ (false, e') → (e.decoded ≢ decode_pending) × (e ≡ e')
claim-false e e' h = elim (ℕ_discrete e.decoded decode_pending) [
  | yes pending ↦
      absurd (false≢true (ap (λ (x : Bool × BlockEntry). x.0) (sym h ∙ claim_won e pending)))
  | no taken ↦ (taken, ap (λ (x : Bool × BlockEntry). x.1) (sym (claim_lost e taken) ∙ h))
]

module _ (k n total : ℕ) (fits : total < 2 ^ 32) (s : Trigger) (v : IsTrigger k n total s) (i : ℕ)
    (lt : i < n) where
  -- A call that had counted before the step and has after it.
  count_kept :
      (c : Registration)
      → is_counting c ≡ is_counting (s.calls i)
      → count n (λ j. is_counting ((at_call s s.entry i c).calls j))
        ≡ count n (λ j. is_counting (s.calls j))
  count_kept c same = count_cong n _ _ (λ j j_lt. elim (update-cases s.calls i j c) [
    | inl (own, at) ↦ ap is_counting at ∙ same ∙ ap (λ (x : ℕ). is_counting (s.calls x)) own
    | inr (away, at) ↦ ap is_counting at
  ])

  add_seen-IsTrigger :
      s.calls i ≡ counting
      → IsTrigger k n total (at_call s (record s.entry { seen = u32 (s.entry.seen + 1) }) i counted)
  unfolding is_counting is_waiting has_claimed
  add_seen-IsTrigger from =
      let fewer =
        count_insert n (λ j. is_counting ((at_call s s.entry i counted).calls j))
          (λ j. is_counting (s.calls j)) i lt (rw (==_refl i) refl) (ap is_counting from)
          (λ j ne. rw (ne→not_== i j (λ z. ne (sym z))) refl) in
      kept-IsTrigger k n total s v i lt counted (record s.entry { seen = u32 (s.entry.seen + 1) })
        (omega (arith, fewer, v.counted)) (λ enough. inr (i, lt, rw (==_refl i) refl))
        (λ h. absurd (false≢true h)) (sym (ap has_claimed from)) (inl refl)

  enough-IsTrigger : s.calls i ≡ counted → IsTrigger k n total (at_call s s.entry i due)
  unfolding is_counting is_waiting has_claimed
  enough-IsTrigger from =
      kept-IsTrigger k n total s v i lt due s.entry
        (omega (arith, count_kept due (sym (ap is_counting from)), v.counted))
        (λ h. inr (i, lt, rw (==_refl i) refl)) (λ h. absurd (false≢true h))
        (sym (ap has_claimed from)) (inl refl)

  -- The call returns without a claim.
  returned-IsTrigger :
      is_counting (s.calls i) ≡ false
      → has_claimed (s.calls i) ≡ false
      → (k ≤ s.entry.seen → s.entry.decoded ≢ decode_pending)
      → IsTrigger k n total (at_call s s.entry i registered)
  unfolding is_counting is_waiting has_claimed
  returned-IsTrigger quiet unclaimed taken =
      kept-IsTrigger k n total s v i lt registered s.entry
        (omega (arith, count_kept registered (sym quiet), v.counted)) (λ h. inl (taken h))
        (λ h. absurd (false≢true h)) (sym unclaimed) (inl refl)

  claim-IsTrigger :
      (e : BlockEntry)
      → s.calls i ≡ due
      → try_claim_decode s.entry ≡ (true, e)
      → IsTrigger k n total (at_call s e i decoding)
  unfolding is_counting is_waiting has_claimed latch_of
  claim-IsTrigger e from won =
      let (pending, same) = claim-true s.entry e won in
      subst (λ (x : BlockEntry). IsTrigger k n total (at_call s x i decoding)) same
        (claimed-IsTrigger k n total s v i lt decoding (record s.entry { decoded = decode_claimed })
          (omega (arith, count_kept decoding (sym (ap is_counting from)), v.counted))
          (λ h. inl (λ z. omega (arith, z))) (λ h. refl) pending refl)

  -- The claim ends without a complete block.
  fail-IsTrigger : s.calls i ≡ decoding → IsTrigger k n total (at_call s s.entry i failed)
  unfolding is_counting is_waiting has_claimed latch_of
  fail-IsTrigger from =
      let latched : s.entry.decoded ≡ decode_claimed =
        v.latched i (ap has_claimed from) ∙ ap latch_of from in
      kept-IsTrigger k n total s v i lt failed s.entry
        (omega (arith, count_kept failed (sym (ap is_counting from)), v.counted))
        (λ h. inl (λ z. omega (arith, z, latched))) (λ h. latched) (sym (ap has_claimed from))
        (inl refl)

  complete-IsTrigger :
      s.calls i ≡ decoding
      → IsTrigger k n total (at_call s (record s.entry { decoded = decode_complete }) i completed)
  unfolding is_counting is_waiting has_claimed latch_of
  complete-IsTrigger from =
      kept-IsTrigger k n total s v i lt completed (record s.entry { decoded = decode_complete })
        (omega (arith, count_kept completed (sym (ap is_counting from)), v.counted))
        (λ h. inl (λ z. omega (arith, z))) (λ h. refl) (sym (ap has_claimed from))
        (inr (ap has_claimed from))

  decoding_latched : s.calls i ≡ decoding → s.entry.decoded ≡ decode_claimed
  unfolding has_claimed latch_of
  decoding_latched from = v.latched i (ap has_claimed from) ∙ ap latch_of from

Step-IsTrigger :
    (k n total : ℕ)
    → total < 2 ^ 32
    → (s : Trigger) {t : Trigger} → IsTrigger k n total s
    → Step k n s t
    → IsTrigger k n total t
unfolding is_counting has_claimed
Step-IsTrigger k n total fits s v (add_seen i lt from) =
    add_seen-IsTrigger k n total fits s v i lt from
Step-IsTrigger k n total fits s v (too_few i lt from below) =
    returned-IsTrigger k n total fits s v i lt (ap is_counting from) (ap has_claimed from)
      (λ h. absurd (omega arith))
Step-IsTrigger k n total fits s v (enough i lt from above) =
    enough-IsTrigger k n total fits s v i lt from
Step-IsTrigger k n total fits s v (claim i e lt from won) =
    claim-IsTrigger k n total fits s v i lt e from won
Step-IsTrigger k n total fits s v (miss i e lt from lost) =
    let (taken, same) = claim-false s.entry e lost in
    subst (λ (x : BlockEntry). IsTrigger k n total (at_call s x i registered)) same
      (returned-IsTrigger k n total fits s v i lt (ap is_counting from) (ap has_claimed from)
        (λ h. taken))
Step-IsTrigger k n total fits s v (fail i lt from) = fail-IsTrigger k n total fits s v i lt from
Step-IsTrigger k n total fits s v (complete i e lt from done) =
    let latched = decoding_latched k n total fits s v i lt from in
    subst (λ (x : BlockEntry). IsTrigger k n total (at_call s x i completed))
      (ap (λ (x : Bool × BlockEntry). x.1) (sym (complete_won s.entry latched) ∙ done))
      (complete-IsTrigger k n total fits s v i lt from)
Step-IsTrigger k n total fits s v (complete_fails i e lt from lost) =
    let latched = decoding_latched k n total fits s v i lt from in
    absurd
      (false≢true (ap (λ (x : Bool × BlockEntry). x.0) (sym lost ∙ complete_won s.entry latched)))

Reach-IsTrigger :
    (k n total : ℕ)
    → total < 2 ^ 32
    → {s t : Trigger} → IsTrigger k n total s
    → Reach k n s t
    → IsTrigger k n total t
Reach-IsTrigger k n total fits v start = v
Reach-IsTrigger k n total fits v (later r step) =
    Step-IsTrigger k n total fits _ (Reach-IsTrigger k n total fits v r) step

-- Calls that have each registered a symbol and not yet counted it.
abbrev pub begun : BlockEntry → Trigger
begun e = record { entry = e; calls = λ i. counting }

count_counting : (n : ℕ) → count n (λ i. is_counting counting) ≡ n
unfolding count is_counting
count_counting zero = refl
count_counting (suc n) = omega (arith, count_counting n)

begun-IsTrigger :
    (k n : ℕ) (e : BlockEntry)
    → e.decoded ≡ decode_pending
    → e.seen < k
    → IsTrigger k n (e.seen + n) (begun e)
unfolding has_claimed
begun-IsTrigger k n e pending few = record {
  counted = omega (arith, count_counting n);
  single = λ i j h g. absurd (false≢true h);
  latched = λ i h. absurd (false≢true h);
  claimant = λ ne. absurd (ne pending);
  taken = λ h. absurd (omega arith);
}

-- The call has returned.
unfoldable pub is_returned : Registration → Bool
is_returned registered = true
is_returned failed = true
is_returned completed = true
is_returned _ = false

returned_quiet :
    (c : Registration) → is_returned c ≡ true → (is_counting c ≡ false) × (is_waiting c ≡ false)
unfolding is_returned is_counting is_waiting
returned_quiet counting h = absurd (false≢true h)
returned_quiet counted h = absurd (false≢true h)
returned_quiet due h = absurd (false≢true h)
returned_quiet decoding h = absurd (false≢true h)
returned_quiet registered h = (refl, refl)
returned_quiet failed h = (refl, refl)
returned_quiet completed h = (refl, refl)

-- If a block is pending with fewer than k symbols counted, and n calls have each registered a
-- symbol that is still to be counted, k in all at least and fewer than 2 ^ 32, then however their
-- additions to seen, tests of the threshold, claims and decodes interleave, once all have returned
-- every symbol is counted, exactly one call has claimed the decode, and the latch is complete if
-- that call completed the block and claimed if its decode failed.
pub Reach-decided :
    (k n : ℕ) (e : BlockEntry) (t : Trigger)
    → e.decoded ≡ decode_pending
    → e.seen < k
    → k ≤ e.seen + n
    → e.seen + n < 2 ^ 32
    → Reach k n (begun e) t
    → ((i : ℕ) → i < n → is_returned (t.calls i) ≡ true)
    → (t.entry.seen ≡ e.seen + n)
      × ((i : ℕ) × (i < n)
          × (has_claimed (t.calls i) ≡ true)
          × (t.entry.decoded ≡ latch_of (t.calls i))
          × ((j : ℕ) → has_claimed (t.calls j) ≡ true → i ≡ j))
Reach-decided k n e t pending few enough_symbols fits r returned =
    let v = Reach-IsTrigger k n (e.seen + n) fits (begun-IsTrigger k n e pending few) r in
    let none_left =
      count-zero n (λ i. is_counting (t.calls i))
        (λ i lt. (returned_quiet (t.calls i) (returned i lt)).0) in
    let seen : t.entry.seen ≡ e.seen + n = omega (arith, v.counted, none_left) in
    let (i, lt, mine) = v.claimant (claimed v (v.taken (omega arith))) in
    (seen, (i, lt, mine, v.latched i mine, λ j h. v.single i j mine h))
  where
    claimed : IsTrigger k n (e.seen + n) t → IsTaken n t → t.entry.decoded ≢ decode_pending
    claimed v (inl taken) = taken
    claimed v (inr (i, lt, waits)) =
        absurd (false≢true (sym (returned_quiet (t.calls i) (returned i lt)).1 ∙ waits))
