-- ===== src/Loop/Contexts.antt =====
-- session_pipeline.cpp: a packet and the open of a session leave a session's context in the map of contexts.
use receiver.Prelude.{
  ℕ, ◌≡◌, ◌≢◌, inl, inr, Bool, true, false, List, Option, some, none, refl, ap, sym, subst, arith,
  Bool-cases, Option-cases, find_key, find_key-put_key_self, not, ◌||◌, leb, length, ◌==◌,
}
use mathlib.Core.Bool.{false≢true}
use mathlib.Core.Option.{some-injective, some-ne-none}
use receiver.Shm.Segment.{Segment, set_block}
use receiver.Shm.Arena.{alloc_slot, fill_slot}
use receiver.Shm.Block.{register_symbol, try_claim_decode}
use receiver.Shm.Session.{block_entry, open_session}
use receiver.Codec.{IsaL}
use receiver.Writer.{Os, open_writer}
use receiver.Pipeline.{
  Pipeline, SessionContext, SessionOpen, DataPacketOutcome, handle_data_packet, handle_in_session,
  handle_in_block, register_slot, check_threshold, handle_session_open, add_context, new_writer,
  params_of, report_decode, decode_and_write_block,
}

abbrev pub HasContext : Pipeline → List ℕ → Type 0
HasContext p id = (ctx : SessionContext) × (find_key id p.sessions ≡ some ctx)

-- A packet of a session that has a context is never reported as unknown, and the context stays.
module _ (lib : IsaL) (os : Os) where
  report_decode-known :
      (b : ℕ) (r : Bool × Segment × SessionContext)
      → (report_decode b r).outcome ≢ DataPacketOutcome.unknown_session
  report_decode-known b (true, s, c) e = cc
  report_decode-known b (false, s, c) e = cc

  check_threshold-known :
      (s : Segment) (ctx : SessionContext) (b a : ℕ)
      → (check_threshold lib os s ctx b a).outcome ≢ DataPacketOutcome.unknown_session
  unfolding check_threshold
  check_threshold-known s ctx b a = ground (
    arith,
    report_decode-known b
        (decode_and_write_block lib os (set_block s a (try_claim_decode (s.blocks a)).1) ctx b a),
  )

  register_slot-known :
      (s : Segment) (ctx : SessionContext) (b a symbol slot : ℕ)
      → (register_slot lib os s ctx b a symbol slot).outcome ≢ DataPacketOutcome.unknown_session
  unfolding register_slot
  register_slot-known s ctx b a symbol slot = ground (
    arith,
    check_threshold-known (set_block s a (register_symbol (s.blocks a) symbol slot).1) ctx b a,
  )

  handle_in_block-known :
      (s : Segment) (ctx : SessionContext) (b a symbol : ℕ) (payload : List ℕ)
      → (handle_in_block lib os s ctx b a symbol payload).outcome
        ≢ DataPacketOutcome.unknown_session
  unfolding handle_in_block
  handle_in_block-known s ctx b a symbol payload = ground (
    arith,
    register_slot-known (fill_slot (alloc_slot s).1 (alloc_slot s).0 payload) ctx b a symbol
        (alloc_slot s).0,
  )

  handle_in_session-known :
      (s : Segment) (ctx : SessionContext) (b symbol : ℕ) (payload : List ℕ)
      → (handle_in_session lib os s ctx b symbol payload).outcome
        ≢ DataPacketOutcome.unknown_session
  unfolding handle_in_session
  handle_in_session-known s ctx b symbol payload =
      elim (Bool-cases (leb ctx.n symbol || not (length payload == ctx.symbol_bytes))) [
        | inl bad ↦ rw bad (λ e. cc)
        | inr fits ↦ rw fits (elim (Option-cases (block_entry s ctx.session_idx b)) [
          | inl outside ↦ rw (outside, handle_in_session) (λ e. cc)
          | inr (a, inside) ↦
              rw (inside, handle_in_session) (handle_in_block-known s ctx b a symbol payload)
        ])
      ]

  pub handle_data_packet-known :
      (p : Pipeline) (id : List ℕ) (b symbol : ℕ) (payload : List ℕ)
      → HasContext p id
      → let (outcome, _, p') = handle_data_packet lib os p id b symbol payload in
        (outcome ≢ DataPacketOutcome.unknown_session) × HasContext p' id
  unfolding handle_data_packet
  handle_data_packet-known p id b symbol payload (ctx, known) =
      rw (known, handle_data_packet)
        (
          handle_in_session-known p.shm ctx b symbol payload,
          (
            _,
            find_key-put_key_self id (handle_in_session lib os p.shm ctx b symbol payload).context
                p.sessions,
          ),
        )

  add_context-known :
      (p : Pipeline) (msg : SessionOpen) (file_size idx : ℕ)
      → (add_context lib os p msg file_size idx).0 ≡ true
      → HasContext (add_context lib os p msg file_size idx).1 msg.session_id
  unfolding add_context
  add_context-known p msg file_size idx e =
      elim (Bool-cases
        (open_writer os new_writer msg.dest_path file_size msg.k msg.block_bytes).0) [
          | inl opened ↦ rw opened (_, find_key-put_key_self msg.session_id _ p.sessions)
          | inr failed ↦ absurd (false≢true (rw failed at e))
        ]

  opened-known :
      (p p' : Pipeline) (msg : SessionOpen) (file_size : ℕ) (r : Option (Option ℕ × Segment))
      → find_key msg.session_id p.sessions ≡ none
      → open_session p.shm (params_of msg file_size) ≡ r
      → handle_session_open lib os p msg file_size ≡ some (true, p')
      → HasContext p' msg.session_id
  unfolding handle_session_open
  opened-known p p' msg file_size none fresh o e =
      absurd (some-ne-none _ (sym (rw (fresh, handle_session_open, o) at e)))
  opened-known p p' msg file_size (some (none, s)) fresh o e = absurd (
      false≢true (
        ap (λ (x : Bool × Pipeline). x.0)
          (some-injective _ _ (rw (fresh, handle_session_open, o) at e))))
  opened-known p p' msg file_size (some (some idx, s)) fresh o e =
      let same : add_context lib os (record p { shm = s }) msg file_size idx ≡ (true, p') =
        some-injective _ _ (rw (fresh, handle_session_open, o) at e) in
      subst (λ (q : Pipeline). HasContext q msg.session_id) (ap (λ (x : Bool × Pipeline). x.1) same)
        (add_context-known (record p { shm = s }) msg file_size idx
          (ap (λ (x : Bool × Pipeline). x.0) same))

  -- A session that opens has a context.
  pub handle_session_open-known :
      (p p' : Pipeline) (msg : SessionOpen) (file_size : ℕ)
      → handle_session_open lib os p msg file_size ≡ some (true, p')
      → HasContext p' msg.session_id
  unfolding handle_session_open
  handle_session_open-known p p' msg file_size e =
      elim (Option-cases (find_key msg.session_id p.sessions)) [
        | inr (ctx, known) ↦
            let same : (true, p) ≡ (true, p') =
              some-injective _ _ (rw (known, handle_session_open) at e) in
            subst (λ (q : Pipeline). HasContext q msg.session_id)
              (ap (λ (x : Bool × Pipeline). x.1) same) (ctx, known)
        | inl fresh ↦ opened-known p p' msg file_size _ fresh refl e
      ]
