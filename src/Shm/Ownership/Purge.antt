-- ===== src/Shm/Ownership/Purge.antt =====
-- shm_manager.cpp: close_session from the search under the lock to the published entry.
use receiver.Prelude.{
  ℕ, ◌≡◌, ◌≢◌, ◌⊎◌, inl, inr, true, false, List, some, none, refl, ◌∙◌, ne→not_==, ==_refl,
  Option-cases,
}
use receiver.Shm.Layout.{session_state_empty, session_state_closing}
use receiver.Shm.Segment.{Segment}
use receiver.Shm.Session.{
  sweep_session, close_session, block_entry, set_state, find_session, is_open_as, lock_sessions,
  unlock_sessions,
}
use receiver.Shm.Session.Lookup.{find_session-some}
use receiver.Shm.Ownership.Links.{Owned, LinkOf, Owned-cong}
use receiver.Shm.Ownership.Defs.{IsSegment}
use receiver.Shm.Ownership.Close.{
  IsClosing, sweep_session-IsSegment, other_sessions, other_blocks, closed_entry,
}
use receiver.Shm.Ownership.Claim.{unlock_sessions-IsSegment}

module _ (s : Segment) (id : List ℕ) (free : List ℕ) (v : IsSegment s free) where
  -- The segment with the lock held.
  abbrev held : Segment
  held = record s { header = record s.header { session_open_lock = 1 } }

  -- The entry is marked and the lock given up.
  abbrev marked : ℕ → Segment
  marked i = unlock_sessions (set_state held i session_state_closing)

  same_find : find_session held id ≡ find_session s id
  unfolding find_session is_open_as
  same_find = refl

  close_session-unknown :
      find_session s id ≡ none → close_session s (some id) ≡ some (false, unlock_sessions s)
  unfolding close_session lock_sessions unlock_sessions
  close_session-unknown h = rw (v.unlocked, close_session, same_find ∙ h) refl

  close_session-known :
      (i : ℕ)
      → find_session s id ≡ some i
      → close_session s (some id) ≡ some (true, sweep_session (marked i) i)
  unfolding close_session lock_sessions
  close_session-known i h = rw (v.unlocked, close_session, same_find ∙ h) refl

  marked-IsClosing : (i : ℕ) → IsClosing s (marked i) i
  unfolding unlock_sessions
  marked-IsClosing i = record {
    entry = rw (==_refl i) refl;
    n = rw (==_refl i) refl;
    total = rw (==_refl i) refl;
    table = rw (==_refl i) refl;
    others = λ j ne. rw (ne→not_== i j ne) refl;
    blocks = refl;
    region = refl;
    unlocked = refl;
  }

  marked-Owned : (i : ℕ) → Owned (marked i) free (LinkOf s)
  unfolding unlock_sessions
  marked-Owned i =
      Owned-cong s (marked i) free (LinkOf s) (LinkOf s) v.owned
        (record {
          small = v.owned.is_arena.small;
          chain = v.owned.is_arena.chain;
          distinct = v.owned.is_arena.distinct;
          counted = v.owned.is_arena.counted;
          peak = v.owned.is_arena.peak;
        })
        refl (λ a t x l. l) (λ a t x l. l)

  -- On a segment that is valid for a list of free slots, close_session does not spin and leaves a
  -- segment that is valid again. Either no session is open under the id, and it returns false and
  -- changes no session, no block and no free slot; or it returns true, the entry that find_session
  -- finds is marked empty and otherwise as it was, and no other session and no block of theirs has
  -- changed, so that every slot that the session held is on the free list.
  pub close_session-IsSegment :
      (s' : Segment) × (free' : List ℕ) × IsSegment s' free'
      × (((find_session s id ≡ none)
            × (close_session s (some id) ≡ some (false, s'))
            × (s'.sessions ≡ s.sessions)
            × (s'.blocks ≡ s.blocks)
            × (free' ≡ free))
          ⊎ ((i : ℕ) × (find_session s id ≡ some i)
              × (close_session s (some id) ≡ some (true, s'))
              × (s'.sessions i ≡ record (s.sessions i) { state = session_state_empty })
              × ((j : ℕ) → i ≢ j → s'.sessions j ≡ s.sessions j)
              × ((j b a : ℕ) → i ≢ j → block_entry s j b ≡ some a → s'.blocks a ≡ s.blocks a)))
  unfolding unlock_sessions
  close_session-IsSegment = elim (Option-cases (find_session s id)) [
    | inl unknown ↦ (
      unlock_sessions s,
      free,
      unlock_sessions-IsSegment s free v,
      inl (unknown, close_session-unknown unknown, refl, refl, refl),
    )
    | inr (i, known) ↦
        let (lt, opened, _) = find_session-some s id i known in
        let (free', v') =
          sweep_session-IsSegment s (marked i) i free v (lt, opened) (marked-IsClosing i)
            (marked-Owned i) in
        (
          sweep_session (marked i) i,
          free',
          v',
          inr (
            i,
            known,
            close_session-known i known,
            closed_entry s (marked i) i free v (lt, opened) (marked-IsClosing i) (marked-Owned i),
            other_sessions s (marked i) i free v (lt, opened) (marked-IsClosing i) (marked-Owned i),
            other_blocks s (marked i) i free v (lt, opened) (marked-IsClosing i) (marked-Owned i),
          ),
        )
  ]
