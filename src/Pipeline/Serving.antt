-- ===== src/Pipeline/Serving.antt =====
-- session_pipeline.cpp: a pipeline that alone works on its segment, under ids that the table keeps whole.
pub mod Open
pub mod Purge
use receiver.Prelude.{
  ℕ, ◌<◌, ◌≤◌, ◌≡◌, ◌≢◌, ◌⊎◌, inl, inr, Bool, true, false, List, Option, some, none, refl, ap, sym,
  ◌∙◌, arith, subst, Bool-cases, Option-cases, ℕ_discrete, length, find_key, put_key, erase_key,
  find_key-put_key, find_key-put_key_self, find_key-erase_key, find_key-erase_key_self, bytes_eq,
  bytes_eq→eq, take,
}
use mathlib.Core.Bool.{false≢true}
use mathlib.Core.Option.{some-injective, some-ne-none}
use receiver.Shm.Layout.{slot_size, session_state_open, session_state_empty, max_sessions}
use receiver.Shm.Segment.{Segment, SessionEntry}
use receiver.Shm.Session.{open_session, close_session, find_session, block_entry, strncmp_eq}
use receiver.Shm.Session.Lookup.{find_session-some}
use receiver.Shm.Ownership.Defs.{IsSegment, IsOpen}
use receiver.Shm.Ownership.Open.{open_session-IsSegment}
use receiver.Shm.Ownership.Entries.{
  open_session-entries, strncmp_eq→eq, take-short, IsKeptOrClaimed,
}
use receiver.Shm.Ownership.Purge.{close_session-IsSegment}
use receiver.Codec.{IsaL}
use receiver.Writer.{Os, open_writer}
use receiver.Pipeline.{
  SessionContext, Pipeline, SessionOpen, Handled, handle_data_packet, handle_in_session,
  handle_session_open, add_context, purge_session, params_of, new_writer,
}
use receiver.Pipeline.Invariant.{handle_in_session-IsValid}
use receiver.Pipeline.Packets.{IsPipeline, handle_data_packet-IsPipeline, handle_in_session-IsSame}
use receiver.Pipeline.Sessions.{handle_session_open-IsPipeline, purge_session-IsPipeline}

-- The open entry `i` is that of the session `id`.
abbrev pub IsLive : Segment → List ℕ → ℕ → Type 0
IsLive s id i = IsOpen s i × ((s.sessions i).session_id ≡ id)

-- `n_of` gives each session its number of symbols.
abbrev pub IsNamed : (List ℕ → ℕ) → SessionEntry → Type 0
IsNamed n_of e = (length e.session_id ≤ 63) × (e.n ≡ n_of e.session_id)

-- The invariant of a process that alone works on its segment.
pub record IsServing (n_of : List ℕ → ℕ) (p : Pipeline) : Type 0 where
  pub pipeline : IsPipeline p
  pub live :
      (id : List ℕ) (ctx : SessionContext)
      → find_key id p.sessions ≡ some ctx
      → IsLive p.shm id ctx.session_idx
  pub named : (i : ℕ) → IsOpen p.shm i → IsNamed n_of (p.shm.sessions i)

-- The message opens a session with its number of symbols, which fit a slot, under a short id.
abbrev pub IsAgreed : (List ℕ → ℕ) → SessionOpen → Type 0
IsAgreed n_of msg =
    (length msg.session_id ≤ 63) × (msg.n ≡ n_of msg.session_id) × (msg.block_bytes ≤ slot_size)

module _ (n_of : List ℕ → ℕ) (lib : IsaL) (os : Os) (p : Pipeline) (v : IsServing n_of p) where
  -- The table and the contexts' places stay as they are.
  committed-IsServing :
      (id : List ℕ) (ctx : SessionContext) (h : Handled)
      → find_key id p.sessions ≡ some ctx
      → IsPipeline (record { shm = h.shm; sessions = put_key id h.context p.sessions })
      → h.shm.sessions ≡ p.shm.sessions
      → h.context.session_idx ≡ ctx.session_idx
      → IsServing n_of (record { shm = h.shm; sessions = put_key id h.context p.sessions })
  committed-IsServing id ctx h known w table idx = record {
    pipeline = w;
    live = λ j c found. elim (Bool-cases (bytes_eq id j)) [
      | inl own ↦
          let same : h.context ≡ c = some-injective _ c (rw (find_key-put_key, own) at found) in
          subst (λ (i : ℕ). IsLive h.shm j i) (ap (λ (x : SessionContext). x.session_idx) same)
            (rw (idx, table)
              (subst (λ (k : List ℕ). IsLive p.shm k ctx.session_idx) (bytes_eq→eq id j own)
                (v.live id ctx known)))
      | inr other ↦ rw table (v.live j c (rw (find_key-put_key, other) at found))
    ];
    named = rw table v.named;
  }

  pub handle_data_packet-IsServing :
      (id : List ℕ) (block_id symbol_id : ℕ) (payload : List ℕ)
      → IsServing n_of (handle_data_packet lib os p id block_id symbol_id payload).2
  unfolding handle_data_packet
  handle_data_packet-IsServing id block_id symbol_id payload =
      let w = handle_data_packet-IsPipeline lib os p id block_id symbol_id payload v.pipeline in
      elim (Option-cases (find_key id p.sessions)) [
        | inl unknown ↦ rw (unknown, handle_data_packet) v
        | inr (ctx, known) ↦
            let (fits_n, fits) = v.pipeline.agree id ctx known in
            let (_, _, table) =
              handle_in_session-IsValid lib os p.shm ctx block_id symbol_id payload
                (v.pipeline.free, v.pipeline.valid, refl) fits_n fits in
            let (idx, _, _) =
              handle_in_session-IsSame lib os p.shm ctx block_id symbol_id payload in
            rw (known, handle_data_packet)
              (committed-IsServing id ctx
                (handle_in_session lib os p.shm ctx block_id symbol_id payload) known
                (rw (known, handle_data_packet) at w) table idx)
      ]

  -- An entry found under a short id has that id.
  pub found_id :
      (id : List ℕ) (i : ℕ) → length id ≤ 63 → find_session p.shm id ≡ some i → IsLive p.shm id i
  found_id id i short found =
      let (lt, opened, agrees) = find_session-some p.shm id i found in
      ((lt, opened), strncmp_eq→eq 63 _ id (v.named i (lt, opened)).0 short agrees)
