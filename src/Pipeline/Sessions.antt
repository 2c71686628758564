-- ===== src/Pipeline/Sessions.antt =====
-- session_pipeline.cpp: opening and purging sessions keeps the pipeline's invariant.
use receiver.Prelude.{
  ℕ, ◌≤◌, ◌≡◌, ◌≢◌, ◌⊎◌, inl, inr, Bool, true, false, List, Option, some, none, refl, ap, sym, ◌∙◌,
  subst, Bool-cases, Option-cases, ℕ_discrete, find_key, erase_key, find_key-put_key,
  find_key-put_key_self, find_key-erase_key, find_key-erase_key_self, bytes_eq,
}
use mathlib.Core.Bool.{false≢true}
use mathlib.Core.Option.{some-injective}
use receiver.Shm.Layout.{slot_size, session_state_open, session_state_empty}
use receiver.Shm.Segment.{Segment, SessionEntry}
use receiver.Shm.Session.{open_session, close_session, find_session, block_entry}
use receiver.Shm.Session.Lookup.{find_session-some}
use receiver.Shm.Ownership.Defs.{IsSegment}
use receiver.Shm.Ownership.Open.{open_session-IsSegment}
use receiver.Shm.Ownership.Purge.{close_session-IsSegment}
use receiver.Codec.{IsaL}
use receiver.Writer.{Os, open_writer}
use receiver.Pipeline.{
  SessionContext, Pipeline, SessionOpen, handle_session_open, add_context, purge_session, params_of,
  new_writer,
}
use receiver.Pipeline.Packets.{IsPipeline}

-- Another segment under the same contexts.
reshared-IsPipeline :
    (p : Pipeline) (s : Segment) (free : List ℕ)
    → IsPipeline p
    → IsSegment s free
    → ((id : List ℕ) (ctx : SessionContext)
        → find_key id p.sessions ≡ some ctx
        → (s.sessions ctx.session_idx).n ≡ (p.shm.sessions ctx.session_idx).n)
    → IsPipeline (record p { shm = s })
reshared-IsPipeline p s free v valid same = record {
  free = free;
  valid = valid;
  agree =
      λ id ctx found. let (n, fits) = v.agree id ctx found in (n ∙ sym (same id ctx found), fits);
}

module _ (p : Pipeline) (id : List ℕ) (v : IsPipeline p) where
  purged_n :
      (s' : Segment) (free' : List ℕ)
      → (((find_session p.shm id ≡ none)
            × (close_session p.shm (some id) ≡ some (false, s'))
            × (s'.sessions ≡ p.shm.sessions)
            × (s'.blocks ≡ p.shm.blocks)
            × (free' ≡ v.free))
          ⊎ ((i : ℕ) × (find_session p.shm id ≡ some i)
              × (close_session p.shm (some id) ≡ some (true, s'))
              × (s'.sessions i ≡ record (p.shm.sessions i) { state = session_state_empty })
              × ((j : ℕ) → i ≢ j → s'.sessions j ≡ p.shm.sessions j)
              × ((j b a : ℕ)
                  → i ≢ j
                  → block_entry p.shm j b ≡ some a
                  → s'.blocks a ≡ p.shm.blocks a)))
      → ((closed : Bool) × (close_session p.shm (some id) ≡ some (closed, s')))
        × ((j : ℕ) → (s'.sessions j).n ≡ (p.shm.sessions j).n)
  purged_n s' free' (inl (_, e, same, _, _)) =
      ((false, e), λ j. ap (λ (f : ℕ → SessionEntry). (f j).n) same)
  purged_n s' free' (inr (i, _, e, entry, others, _)) = (
    (true, e),
    λ j. elim (ℕ_discrete i j) [
      | yes own ↦
          subst (λ (x : ℕ). (s'.sessions x).n ≡ (p.shm.sessions x).n) own
            (ap (λ (x : SessionEntry). x.n) entry)
      | no other ↦ ap (λ (x : SessionEntry). x.n) (others j other)
    ],
  )

  -- If the pipeline's invariant holds, purge_session does not spin, returns, keeps the invariant,
  -- and the purged id has no context left.
  pub purge_session-IsPipeline :
      (p' : Pipeline) × (purge_session p id ≡ some p')
      × IsPipeline p'
      × (find_key id p'.sessions ≡ none)
  unfolding purge_session
  purge_session-IsPipeline =
      let (s', free', valid, cases) = close_session-IsSegment p.shm id v.free v.valid in
      let ((closed, e), same) = purged_n s' free' cases in
      (
        record { shm = s'; sessions = erase_key id p.sessions },
        rw (e, purge_session) refl,
        record {
          free = free';
          valid = valid;
          agree = λ j ctx found.
              let (n, fits) = v.agree j ctx (find_key-erase_key id j ctx p.sessions found) in
              (n ∙ sym (same ctx.session_idx), fits);
        },
        find_key-erase_key_self id p.sessions,
      )

module _ (lib : IsaL) (os : Os) (p : Pipeline) (msg : SessionOpen) (file_size : ℕ) where
  -- The context is added under an id that had none, or nothing is.
  add_context-IsPipeline :
      (s : Segment) (idx : ℕ)
      → IsPipeline (record p { shm = s })
      → msg.n ≡ (s.sessions idx).n
      → msg.block_bytes ≤ slot_size
      → let (opened, p') = add_context lib os (record p { shm = s }) msg file_size idx in
        IsPipeline p'
        × (opened ≡ true
            → (ctx : SessionContext) × (find_key msg.session_id p'.sessions ≡ some ctx))
  unfolding add_context
  add_context-IsPipeline s idx v n fits =
      elim (Bool-cases
        (open_writer os new_writer msg.dest_path file_size msg.k msg.block_bytes).0) [
          | inr failed ↦ rw failed (v, λ e. absurd (false≢true e))
          | inl opened ↦ rw opened (
            record {
              free = v.free;
              valid = v.valid;
              agree = λ j c found. elim (Bool-cases (bytes_eq msg.session_id j)) [
                | inl own ↦
                    subst
                      (λ (d : SessionContext).
                        (d.n ≡ (s.sessions d.session_idx).n) × (d.symbol_bytes ≤ slot_size))
                      (some-injective _ c (rw (find_key-put_key, own) at found)) (n, fits)
                | inr other ↦ v.agree j c (rw (find_key-put_key, other) at found)
              ];
            },
            λ e. (_, find_key-put_key_self msg.session_id _ p.sessions),
          )
        ]

  pub handle_session_open-IsPipeline :
      IsPipeline p
      → msg.block_bytes ≤ slot_size
      → ((id : List ℕ) (ctx : SessionContext)
          → find_key id p.sessions ≡ some ctx
          → (p.shm.sessions ctx.session_idx).state ≡ session_state_open)
      → ((i : ℕ) → find_session p.shm msg.session_id ≡ some i → (p.shm.sessions i).n ≡ msg.n)
      → (opened : Bool) × (p' : Pipeline) × (handle_session_open lib os p msg file_size
          ≡ some (opened, p'))
        × IsPipeline p'
        × (opened ≡ true
            → (ctx : SessionContext) × (find_key msg.session_id p'.sessions ≡ some ctx))
  unfolding handle_session_open
  handle_session_open-IsPipeline v fits live reopened =
      elim (Option-cases (find_key msg.session_id p.sessions)) [
        | inr (ctx, known) ↦ (true, p, rw (known, handle_session_open) refl, v, λ e. (ctx, known))
        | inl fresh ↦
            let (result, s', e, valid, named, kept) =
              open_session-IsSegment p.shm (params_of msg file_size) v.free v.valid in
            let v' : IsPipeline (record p { shm = s' }) =
              reshared-IsPipeline p s' v.free v valid (λ id ctx found.
                ap (λ (x : SessionEntry). x.n) (kept ctx.session_idx (live id ctx found))) in
            by_result fresh result s' e v' (λ i same. elim (named i same).1 [
              | inl found ↦
                  let (_, was_open, _) = find_session-some p.shm msg.session_id i found in
                  sym (reopened i found) ∙ sym (ap (λ (x : SessionEntry). x.n) (kept i was_open))
              | inr (_, made) ↦ sym made.1
            ])
      ]
    where
      by_result :
          find_key msg.session_id p.sessions ≡ none
          → (result : Option ℕ) (s' : Segment)
          → open_session p.shm (params_of msg file_size) ≡ some (result, s')
          → IsPipeline (record p { shm = s' })
          → ((i : ℕ) → result ≡ some i → msg.n ≡ (s'.sessions i).n)
          → (opened : Bool) × (p' : Pipeline) × (handle_session_open lib os p msg file_size
              ≡ some (opened, p'))
            × IsPipeline p'
            × (opened ≡ true
                → (ctx : SessionContext) × (find_key msg.session_id p'.sessions ≡ some ctx))
      by_result fresh none s' e v' n = (
        false,
        record p { shm = s' },
        rw (fresh, handle_session_open, e) refl,
        v',
        λ b. absurd (false≢true b),
      )
      by_result fresh (some idx) s' e v' n =
          let (keeps, has) = add_context-IsPipeline s' idx v' (n idx refl) fits in
          (
            (add_context lib os (record p { shm = s' }) msg file_size idx).0,
            (add_context lib os (record p { shm = s' }) msg file_size idx).1,
            rw (fresh, handle_session_open, e) refl,
            keeps,
            has,
          )
