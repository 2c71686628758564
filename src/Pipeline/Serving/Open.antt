-- ===== src/Pipeline/Serving/Open.antt =====
-- session_pipeline.cpp: opening a session keeps every context at its own entry.
use receiver.Prelude.{
  ℕ, ◌≤◌, ◌≡◌, inl, inr, Bool, List, Option, some, none, refl, ap, sym, ◌∙◌, subst, Bool-cases,
  Option-cases, length, find_key, find_key-put_key, bytes_eq, bytes_eq→eq,
}
use mathlib.Core.Option.{some-injective}
use receiver.Shm.Layout.{session_state_open}
use receiver.Shm.Segment.{Segment, SessionEntry}
use receiver.Shm.Session.{open_session, find_session}
use receiver.Shm.Ownership.Defs.{IsOpen}
use receiver.Shm.Ownership.Open.{open_session-IsSegment}
use receiver.Shm.Ownership.Entries.{
  open_session-entries, strncmp_eq→eq, take-short, IsKeptOrClaimed,
}
use receiver.Codec.{IsaL}
use receiver.Writer.{Os, open_writer}
use receiver.Pipeline.{
  SessionContext, Pipeline, SessionOpen, handle_session_open, add_context, params_of, new_writer,
}
use receiver.Pipeline.Sessions.{handle_session_open-IsPipeline}
use receiver.Pipeline.Serving.{IsLive, IsNamed, IsServing, IsAgreed, found_id}

module _ (n_of : List ℕ → ℕ) (lib : IsaL) (os : Os) (p : Pipeline) (v : IsServing n_of p) where
  module _ (msg : SessionOpen) (file_size : ℕ) (ok : IsAgreed n_of msg) where
    reopened_n : (i : ℕ) → find_session p.shm msg.session_id ≡ some i → (p.shm.sessions i).n ≡ msg.n
    reopened_n i found =
        let (opened, id) = found_id n_of lib os p v msg.session_id i ok.0 found in
        (v.named i opened).1 ∙ ap n_of id ∙ sym ok.1

    -- The table after `open_session`: old contexts stay live, and every open entry is named.
    reshared-IsLive :
        (s' : Segment)
        → ((j : ℕ)
            → (p.shm.sessions j).state ≡ session_state_open
            → s'.sessions j ≡ p.shm.sessions j)
        → (id : List ℕ) (ctx : SessionContext) → find_key id p.sessions ≡ some ctx
        → IsLive s' id ctx.session_idx
    reshared-IsLive s' kept id ctx found =
        let ((lt, opened), name) = v.live id ctx found in
        let same = kept ctx.session_idx opened in
        (
          (lt, ap (λ (x : SessionEntry). x.state) same ∙ opened),
          ap (λ (x : SessionEntry). x.session_id) same ∙ name,
        )

    reshared-IsNamed :
        (result : Option ℕ) (s' : Segment)
        → ((j : ℕ) → IsKeptOrClaimed p.shm (params_of msg file_size) result s' j)
        → (i : ℕ) → IsOpen s' i
        → IsNamed n_of (s'.sessions i)
    reshared-IsNamed result s' entries i (lt, opened) = elim (entries i) [
      | inl same ↦
          subst (IsNamed n_of) (sym same)
            (v.named i (lt, ap (λ (x : SessionEntry). x.state) (sym same) ∙ opened))
      | inr (_, name, n) ↦
          let id : (s'.sessions i).session_id ≡ msg.session_id =
            name ∙ take-short 63 msg.session_id ok.0 in
          (subst (λ (x : List ℕ). length x ≤ 63) (sym id) ok.0, n ∙ ok.1 ∙ ap n_of (sym id))
    ]

    add_context-IsLive :
        (s' : Segment) (idx : ℕ)
        → ((id : List ℕ) (ctx : SessionContext)
            → find_key id p.sessions ≡ some ctx
            → IsLive s' id ctx.session_idx)
        → IsLive s' msg.session_id idx
        → let p' = (add_context lib os (record p { shm = s' }) msg file_size idx).1 in
          (p'.shm ≡ s')
          × ((id : List ℕ) (ctx : SessionContext)
              → find_key id p'.sessions ≡ some ctx
              → IsLive s' id ctx.session_idx)
    unfolding add_context
    add_context-IsLive s' idx old new =
        elim (Bool-cases
          (open_writer os new_writer msg.dest_path file_size msg.k msg.block_bytes).0) [
            | inr failed ↦ rw failed (refl, old)
            | inl opened ↦ rw opened (
              refl,
              λ id ctx found. elim (Bool-cases (bytes_eq msg.session_id id)) [
                | inl own ↦
                    let idx_of : idx ≡ ctx.session_idx =
                      ap (λ (x : SessionContext). x.session_idx)
                        (some-injective _ ctx (rw (find_key-put_key, own) at found)) in
                    subst (IsLive s' id) idx_of (
                      subst (λ (k : List ℕ). IsLive s' k idx) (bytes_eq→eq msg.session_id id own)
                        new)
                | inr other ↦ old id ctx (rw (find_key-put_key, other) at found)
              ],
            )
          ]

    -- What the open leaves of the table and the contexts.
    abbrev LiveAndNamed : Pipeline → Type 0
    LiveAndNamed q =
        ((id : List ℕ) (ctx : SessionContext)
          → find_key id q.sessions ≡ some ctx
          → IsLive q.shm id ctx.session_idx)
        × ((i : ℕ) → IsOpen q.shm i → IsNamed n_of (q.shm.sessions i))

    opened-live :
        (result : Option ℕ) (s' : Segment) (opened : Bool) (p' : Pipeline)
        → find_key msg.session_id p.sessions ≡ none
        → open_session p.shm (params_of msg file_size) ≡ some (result, s')
        → handle_session_open lib os p msg file_size ≡ some (opened, p')
        → ((j : ℕ)
            → (p.shm.sessions j).state ≡ session_state_open
            → s'.sessions j ≡ p.shm.sessions j)
        → ((i : ℕ) → result ≡ some i → IsLive s' msg.session_id i)
        → LiveAndNamed p'
    unfolding handle_session_open
    opened-live none s' opened p' fresh e h kept new =
        subst LiveAndNamed
          (ap (λ (x : Bool × Pipeline). x.1)
            (some-injective _ (opened, p') (rw (fresh, handle_session_open, e) at h)))
          (
            reshared-IsLive s' kept,
            reshared-IsNamed none s' (
                open_session-entries p.shm (params_of msg file_size) v.pipeline.free
                  v.pipeline.valid none s' e),
          )
    opened-live (some idx) s' opened p' fresh e h kept new =
        let (same, live) = add_context-IsLive s' idx (reshared-IsLive s' kept) (new idx refl) in
        subst LiveAndNamed
          (ap (λ (x : Bool × Pipeline). x.1)
            (some-injective _ (opened, p') (rw (fresh, handle_session_open, e) at h)))
          (
            subst
                (λ (s : Segment).
                  (id : List ℕ) (ctx : SessionContext)
                  → find_key id
                      (add_context lib os (record p { shm = s' }) msg file_size idx).1.sessions
                    ≡ some ctx
                  → IsLive s id ctx.session_idx)
                (sym same) live,
            subst (λ (s : Segment). (i : ℕ) → IsOpen s i → IsNamed n_of (s.sessions i)) (sym same)
                (reshared-IsNamed (some idx) s' (
                  open_session-entries p.shm (params_of msg file_size) v.pipeline.free
                    v.pipeline.valid (some idx) s' e)),
          )

    pub handle_session_open-IsServing :
        (opened : Bool) × (p' : Pipeline) × (handle_session_open lib os p msg file_size
          ≡ some (opened, p'))
        × IsServing n_of p'
    unfolding handle_session_open
    handle_session_open-IsServing =
        let (opened, p', handled, w, _) =
          handle_session_open-IsPipeline lib os p msg file_size v.pipeline ok.2
            (λ id ctx found. (v.live id ctx found).0.1) reopened_n in
        let (live, named) = after opened p' handled in
        (opened, p', handled, record { pipeline = w; live = live; named = named })
      where
        after :
            (opened : Bool) (p' : Pipeline)
            → handle_session_open lib os p msg file_size ≡ some (opened, p')
            → LiveAndNamed p'
        after opened p' handled = elim (Option-cases (find_key msg.session_id p.sessions)) [
          | inr (ctx, known) ↦
              subst LiveAndNamed
                (ap (λ (x : Bool × Pipeline). x.1)
                  (some-injective _ (opened, p') (rw (known, handle_session_open) at handled)))
                (v.live, v.named)
          | inl fresh ↦
              let (result, s', e, _, returned, kept) =
                open_session-IsSegment p.shm (params_of msg file_size) v.pipeline.free
                  v.pipeline.valid in
              opened-live result s' opened p' fresh e handled kept (λ i same.
                let (opened_i, agrees) = (returned i same).0 in
                (
                  opened_i,
                  strncmp_eq→eq 63 _ msg.session_id
                      (reshared-IsNamed result s'
                        (open_session-entries p.shm (params_of msg file_size) v.pipeline.free
                          v.pipeline.valid result s' e)
                        i opened_i).0
                      ok.0 agrees,
                ))
        ]
