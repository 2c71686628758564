-- ===== src/Shm/Opening/Reached.antt =====
-- What holds in every state that calls of open_session for one session reach.
use receiver.Prelude.{
  ℕ, ◌≡◌, ◌≢◌, ◌⊎◌, inl, inr, refl, ap, sym, ◌∙◌, arith, subst, Bool, true, false, Option, none,
  some, ℕ_discrete, ne→not_==,
}
use mathlib.Core.Bool.{false≢true}
use mathlib.Core.Option.{some-injective, some-ne-none}
use receiver.Shm.Segment.{ShmHeader, Segment}
use receiver.Shm.Session.{
  SessionParams, lock_sessions, unlock_sessions, open_locked, find_session, find_empty, is_open_as,
}
use receiver.Shm.Stack.Invariant.{update-cases}
use receiver.Shm.Opening.{
  Opener, asking, inside, found, returned, Opening, with_call, Step, acquire, spin, search, release,
  Reach, start, later,
}
use receiver.Shm.Opening.Decided.{Decided, open_locked-Decided}

unfoldable pub has_lock : Opener → Bool
has_lock asking = false
has_lock inside = true
has_lock (found result) = true
has_lock (returned result) = false

-- What the call has found.
unfoldable pub answer : Opener → Option (Option ℕ)
answer asking = none
answer inside = none
answer (found result) = some result
answer (returned result) = some result

record IsOpening (p : SessionParams) (o : Opening) : Type 0 where
  locked : (i : ℕ) → has_lock (o.calls i) ≡ true → o.segment.header.session_open_lock ≢ 0
  single : (i j : ℕ) → has_lock (o.calls i) ≡ true → has_lock (o.calls j) ≡ true → i ≡ j
  decided :
      (i : ℕ) (result : Option ℕ) → answer (o.calls i) ≡ some result → Decided p o.segment result

module _ (p : SessionParams) (o : Opening) (v : IsOpening p o) (i : ℕ) (s : Segment)
    (c : Opener) where
  -- A step of a call that had the lock, or of one that has it neither before nor after.
  stepped-IsOpening :
      ((has_lock (o.calls i) ≡ true) ⊎ (has_lock c ≡ false))
      → (has_lock c ≡ true → s.header.session_open_lock ≢ 0)
      → ((j : ℕ) → i ≢ j → has_lock (o.calls j) ≡ true → s.header.session_open_lock ≢ 0)
      → ((result : Option ℕ) → answer c ≡ some result → Decided p s result)
      → ((result : Option ℕ) → Decided p o.segment result → Decided p s result)
      → IsOpening p (with_call o s i c)
  stepped-IsOpening kind own others mine kept = record {
    locked = λ j h. elim (update-cases o.calls i j c) [
      | inl (here, at) ↦ own (sym (ap has_lock at) ∙ h)
      | inr (away, at) ↦ others j away (sym (ap has_lock at) ∙ h)
    ];
    single = λ j m h g. v.single j m (before j h kind) (before m g kind);
    decided = λ j result e. elim (update-cases o.calls i j c) [
      | inl (here, at) ↦ mine result (sym (ap answer at) ∙ e)
      | inr (away, at) ↦ kept result (v.decided j result (sym (ap answer at) ∙ e))
    ];
  }
    where
      before :
          (j : ℕ)
          → has_lock ((with_call o s i c).calls j) ≡ true
          → (has_lock (o.calls i) ≡ true) ⊎ (has_lock c ≡ false)
          → has_lock (o.calls j) ≡ true
      before j h k = elim (update-cases o.calls i j c) [
        | inr (away, at) ↦ sym (ap has_lock at) ∙ h
        | inl (here, at) ↦ elim k [
          | inl had ↦ ap (λ (x : ℕ). has_lock (o.calls x)) (sym here) ∙ had
          | inr lost ↦ absurd (false≢true (sym lost ∙ sym (ap has_lock at) ∙ h))
        ]
      ]

  -- The call that takes the lock, which none has.
  acquired-IsOpening :
      o.segment.header.session_open_lock ≡ 0
      → s.header.session_open_lock ≢ 0
      → answer c ≡ none
      → ((result : Option ℕ) → Decided p o.segment result → Decided p s result)
      → IsOpening p (with_call o s i c)
  acquired-IsOpening unheld taken silent kept = record {
    locked = λ j h. taken;
    single = λ j m h g. sym (only j h) ∙ only m g;
    decided = λ j result e. elim (update-cases o.calls i j c) [
      | inl (here, at) ↦ absurd (some-ne-none result (sym e ∙ ap answer at ∙ silent))
      | inr (away, at) ↦ kept result (v.decided j result (sym (ap answer at) ∙ e))
    ];
  }
    where
      only : (j : ℕ) → has_lock ((with_call o s i c).calls j) ≡ true → i ≡ j
      only j h = elim (update-cases o.calls i j c) [
        | inl (here, at) ↦ here
        | inr (away, at) ↦ absurd (v.locked j (sym (ap has_lock at) ∙ h) unheld)
      ]

-- The lock is no part of what the table answers.
lock-Decided :
    (p : SessionParams) (s : Segment) (lock : ℕ) (result : Option ℕ)
    → Decided p s result
    → Decided p (record s { header = record s.header { session_open_lock = lock } }) result
unfolding find_session find_empty is_open_as
lock-Decided p s lock result d = d

lock_sessions-some :
    (s s' : Segment)
    → lock_sessions s ≡ some s'
    → (s.header.session_open_lock ≡ 0)
      × (record s { header = record s.header { session_open_lock = 1 } } ≡ s')
unfolding lock_sessions
lock_sessions-some s s' e = elim (ℕ_discrete s.header.session_open_lock 0) [
  | yes unheld ↦ (unheld, some-injective _ s' (rw unheld at e))
  | no taken ↦
      absurd (some-ne-none s' (sym (rw (ne→not_== s.header.session_open_lock 0 taken) at e)))
]

Step-IsOpening :
    {n : ℕ} (p : SessionParams) (o : Opening) {t : Opening}
    → IsOpening p o
    → Step n p o t
    → IsOpening p t
unfolding has_lock answer unlock_sessions
Step-IsOpening p o v (acquire i s lt from got) =
    let (unheld, same) = lock_sessions-some o.segment s got in
    acquired-IsOpening p o v i s inside unheld
      (subst (λ (x : Segment). x.header.session_open_lock ≢ 0) same (λ e. omega (arith, e))) refl
      (λ result d.
        subst (λ (x : Segment). Decided p x result) same (lock-Decided p o.segment 1 result d))
Step-IsOpening p o v (spin i lt from busy) =
    stepped-IsOpening p o v i o.segment asking (inr refl) (λ h. absurd (false≢true h))
      (λ j away h. v.locked j h) (λ result e. absurd (some-ne-none result (sym e))) (λ result d. d)
Step-IsOpening p o v (search i lt from) =
    let (own, kept, header) = open_locked-Decided p o.segment in
    let held : has_lock (o.calls i) ≡ true = ap has_lock from in
    stepped-IsOpening p o v i (open_locked o.segment p).1 (found (open_locked o.segment p).0)
      (inl held)
      (λ h e. v.locked i held (sym (ap (λ (x : ShmHeader). x.session_open_lock) header) ∙ e))
      (λ j away h. absurd (away (v.single i j held h)))
      (λ result e. subst (Decided p (open_locked o.segment p).1) (some-injective _ result e) own)
      kept
Step-IsOpening p o v (release i result lt from) =
    let held : has_lock (o.calls i) ≡ true = ap has_lock from in
    stepped-IsOpening p o v i (unlock_sessions o.segment) (returned result) (inl held)
      (λ h. absurd (false≢true h)) (λ j away h. absurd (away (v.single i j held h)))
      (λ r e. lock-Decided p o.segment 0 r (v.decided i r (ap answer from ∙ e)))
      (λ r d. lock-Decided p o.segment 0 r d)

Reach-IsOpening :
    (p : SessionParams) {n : ℕ} {o t : Opening} → IsOpening p o → Reach n p o t → IsOpening p t
Reach-IsOpening p v start = v
Reach-IsOpening p v (later r step) = Step-IsOpening p _ (Reach-IsOpening p v r) step

-- Calls that have not begun.
abbrev pub all_asking : Segment → Opening
all_asking s = record { segment = s; calls = λ i. asking }

-- If any number of calls of open_session for one session run on a segment interleaved, each attempt
-- at the lock, the search and claim under it, and the release being a step, then in every state
-- reached at most one call has the lock; each call that has a result has the one that find_session
-- gives then; and no two calls have different results.
pub Reach-all_asking :
    (n : ℕ) (p : SessionParams) (s : Segment) (t : Opening)
    → Reach n p (all_asking s) t
    → ((i j : ℕ) → has_lock (t.calls i) ≡ true → has_lock (t.calls j) ≡ true → i ≡ j)
      × ((i : ℕ) (result : Option ℕ)
          → answer (t.calls i) ≡ some result
          → find_session t.segment p.session_id ≡ result)
      × ((i j : ℕ) (result other : Option ℕ)
          → answer (t.calls i) ≡ some result
          → answer (t.calls j) ≡ some other
          → result ≡ other)
unfolding has_lock answer
Reach-all_asking n p s t r =
    let begun : IsOpening p (all_asking s) = record {
      locked = λ i h. absurd (false≢true h);
      single = λ i j h g. absurd (false≢true h);
      decided = λ i result e. absurd (some-ne-none result (sym e));
    } in
    let v = Reach-IsOpening p begun r in
    (
      v.single,
      (λ i result e. (v.decided i result e).0),
      λ i j result other e f. sym (v.decided i result e).0 ∙ (v.decided j other f).0,
    )
