-- ===== src/Pipeline/Serving/Purge.antt =====
-- session_pipeline.cpp: purging a session leaves every other context at its own entry.
use receiver.Prelude.{
  ℕ, ◌≤◌, ◌≡◌, ◌≢◌, ◌⊎◌, inl, inr, Bool, true, false, List, some, none, ap, sym, ◌∙◌, arith, subst,
  ℕ_discrete, length, find_key, erase_key, find_key-erase_key, find_key-erase_key_self,
}
use mathlib.Core.Option.{some-injective, some-ne-none}
use receiver.Shm.Layout.{session_state_empty}
use receiver.Shm.Segment.{Segment, SessionEntry}
use receiver.Shm.Session.{close_session, find_session, block_entry}
use receiver.Shm.Ownership.Defs.{IsOpen}
use receiver.Shm.Ownership.Purge.{close_session-IsSegment}
use receiver.Codec.{IsaL}
use receiver.Writer.{Os}
use receiver.Pipeline.{SessionContext, Pipeline, purge_session}
use receiver.Pipeline.Sessions.{purge_session-IsPipeline}
use receiver.Pipeline.Serving.{IsLive, IsNamed, IsServing, found_id}

module _ (n_of : List ℕ → ℕ) (lib : IsaL) (os : Os) (p : Pipeline) (v : IsServing n_of p) where
  module _ (id : List ℕ) (short : length id ≤ 63) where
    -- The entries that are not the closed one are as they were, and it is not open.
    purged-IsLive :
        (s' : Segment) (i : ℕ)
        → find_session p.shm id ≡ some i
        → (s'.sessions i ≡ record (p.shm.sessions i) { state = session_state_empty })
        → ((j : ℕ) → i ≢ j → s'.sessions j ≡ p.shm.sessions j)
        → ((j : List ℕ) (ctx : SessionContext)
            → find_key j (erase_key id p.sessions) ≡ some ctx
            → IsLive s' j ctx.session_idx)
          × ((j : ℕ) → IsOpen s' j → IsNamed n_of (s'.sessions j))
    purged-IsLive s' i found closed others = (
      (λ j ctx kept.
          let ((lt, opened), name) = v.live j ctx (find_key-erase_key id j ctx p.sessions kept) in
          let same = others ctx.session_idx (λ e.
            let own : id ≡ j =
              sym (found_id n_of lib os p v id i short found).1
              ∙ ap (λ (x : ℕ). (p.shm.sessions x).session_id) e
              ∙ name in
            some-ne-none ctx (
              sym kept
              ∙ ap (λ (x : List ℕ). find_key x (erase_key id p.sessions)) (sym own)
              ∙ find_key-erase_key_self id p.sessions)) in
          (
            (lt, ap (λ (x : SessionEntry). x.state) same ∙ opened),
            ap (λ (x : SessionEntry). x.session_id) same ∙ name,
          )),
      λ j (lt, opened). elim (ℕ_discrete i j) [
        | yes own ↦ absurd (
            omega (
              arith,
              opened,
              ap (λ (x : SessionEntry). x.state) closed,
              ap (λ (x : ℕ). (s'.sessions x).state) own,
            ))
        | no other ↦
            subst (IsNamed n_of) (sym (others j other))
              (v.named j (lt, ap (λ (x : SessionEntry). x.state) (sym (others j other)) ∙ opened))
      ],
    )

    -- What the purge leaves of the table and the contexts.
    abbrev LiveAndNamed : Pipeline → Type 0
    LiveAndNamed q =
        ((j : List ℕ) (ctx : SessionContext)
          → find_key j q.sessions ≡ some ctx
          → IsLive q.shm j ctx.session_idx)
        × ((j : ℕ) → IsOpen q.shm j → IsNamed n_of (q.shm.sessions j))

    by_close :
        (closed : Bool) (s' : Segment) (p' : Pipeline)
        → close_session p.shm (some id) ≡ some (closed, s')
        → purge_session p id ≡ some p'
        → LiveAndNamed (record { shm = s'; sessions = erase_key id p.sessions })
        → LiveAndNamed p'
    unfolding purge_session
    by_close closed s' p' e purged h =
        subst LiveAndNamed (some-injective _ p' (rw (e, purge_session) at purged)) h

    kept-live :
        (s' : Segment)
        → s'.sessions ≡ p.shm.sessions
        → LiveAndNamed (record { shm = s'; sessions = erase_key id p.sessions })
    kept-live s' same = (
      (λ j ctx found. rw same (v.live j ctx (find_key-erase_key id j ctx p.sessions found))),
      rw same v.named,
    )

    pub purge_session-IsServing :
        (p' : Pipeline) × (purge_session p id ≡ some p') × IsServing n_of p'
    unfolding purge_session
    purge_session-IsServing =
        let (p', purged, w, _) = purge_session-IsPipeline p id v.pipeline in
        let (s', _, _, cases) = close_session-IsSegment p.shm id v.pipeline.free v.pipeline.valid in
        let (live, named) = after p' purged s' cases in
        (p', purged, record { pipeline = w; live = live; named = named })
      where
        after :
            (p' : Pipeline)
            → purge_session p id ≡ some p'
            → (s' : Segment) {free' : List ℕ}
            → (((find_session p.shm id ≡ none)
                  × (close_session p.shm (some id) ≡ some (false, s'))
                  × (s'.sessions ≡ p.shm.sessions)
                  × (s'.blocks ≡ p.shm.blocks)
                  × (free' ≡ v.pipeline.free))
                ⊎ ((i : ℕ) × (find_session p.shm id ≡ some i)
                    × (close_session p.shm (some id) ≡ some (true, s'))
                    × (s'.sessions i ≡ record (p.shm.sessions i) { state = session_state_empty })
                    × ((j : ℕ) → i ≢ j → s'.sessions j ≡ p.shm.sessions j)
                    × ((j b a : ℕ)
                        → i ≢ j
                        → block_entry p.shm j b ≡ some a
                        → s'.blocks a ≡ p.shm.blocks a)))
            → LiveAndNamed p'
        after p' purged s' (inl (_, e, same, _, _)) =
            by_close false s' p' e purged (kept-live s' same)
        after p' purged s' (inr (i, found, e, closed, others, _)) =
            by_close true s' p' e purged (purged-IsLive s' i found closed others)
