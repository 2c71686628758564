-- ===== src/Pipeline/Packets.antt =====
-- session_pipeline.cpp: what a packet leaves of the table of sessions.
use receiver.Prelude.{
  ℕ, ◌≤◌, ◌≡◌, ◌⊎◌, inl, inr, Bool, true, false, List, some, refl, sym, ◌∙◌, subst, ◌==◌,
  Bool-cases, Option-cases, find_key, put_key, find_key-put_key, bytes_eq, leb, not, ◌||◌, length,
}
use receiver.Shm.Layout.{slot_size, slot_idx_free, decode_complete}
use mathlib.Core.Option.{some-injective}
use receiver.Shm.Segment.{Segment, SessionEntry, set_block}
use receiver.Shm.Arena.{alloc_slot, fill_slot}
use receiver.Shm.Block.{
  SymbolRegisterResult, register_symbol, try_claim_decode, is_present, decode_state,
}
use receiver.Shm.Session.{block_entry}
use receiver.Shm.Ownership.Defs.{IsSegment}
use receiver.Codec.{IsaL, decode}
use receiver.Writer.{Os, write_block, flush_block}
use receiver.Pipeline.{
  SessionContext, Pipeline, Handled, handle_data_packet, handle_in_session, handle_in_block,
  register_slot, check_threshold, decode_and_write_block, symbol_at, gathered, report_decode,
}
use receiver.Pipeline.Invariant.{handle_in_session-IsValid}
use receiver.Pipeline.Finish.{IsValid}

-- A context whose session and sizes are those of another.
abbrev pub IsSame : SessionContext → SessionContext → Type 0
IsSame c d = (d.session_idx ≡ c.session_idx) × (d.n ≡ c.n) × (d.symbol_bytes ≡ c.symbol_bytes)

module _ (lib : IsaL) (os : Os) (ctx : SessionContext) (block_id a : ℕ) where
  decode_and_write_block-IsSame :
      (s : Segment) → IsSame ctx (decode_and_write_block lib os s ctx block_id a).2
  unfolding decode_and_write_block
  decode_and_write_block-IsSame s =
      elim (Option-cases (
        decode lib ctx.codec (symbol_at s (s.blocks a) ctx.symbol_bytes)
          (gathered (s.blocks a) ctx.n))) [
            | inl short ↦ rw (short, decode_and_write_block) (refl, refl, refl)
            | inr (decoded, enough) ↦
                rw (enough, decode_and_write_block)
                  (elim (Bool-cases (write_block ctx.writer block_id decoded).0) [
                    | inr refused ↦ rw refused (refl, refl, refl)
                    | inl written ↦
                        rw written
                          (elim (Bool-cases
                            (flush_block os (write_block ctx.writer block_id decoded).1
                              block_id).0) [
                                | inr lost ↦ rw lost (refl, refl, refl)
                                | inl durable ↦ rw durable (refl, refl, refl)
                              ])
                  ])
          ]

  report_decode-context :
      (r : Bool × Segment × SessionContext) → (report_decode block_id r).context ≡ r.2
  report_decode-context (true, s, c) = refl
  report_decode-context (false, s, c) = refl

  check_threshold-IsSame :
      (s : Segment) → IsSame ctx (check_threshold lib os s ctx block_id a).context
  unfolding check_threshold
  check_threshold-IsSame s = elim (Bool-cases (leb ctx.k (s.blocks a).seen)) [
    | inr few ↦ rw few (refl, refl, refl)
    | inl enough ↦ rw enough (elim (Bool-cases (try_claim_decode (s.blocks a)).0) [
      | inr lost ↦ rw lost (refl, refl, refl)
      | inl won ↦
          rw (won, report_decode-context)
            (decode_and_write_block-IsSame (set_block s a (try_claim_decode (s.blocks a)).1))
    ])
  ]

  register_slot-IsSame :
      (s : Segment) (symbol_id slot : ℕ)
      → IsSame ctx (register_slot lib os s ctx block_id a symbol_id slot).context
  unfolding register_slot
  register_slot-IsSame s symbol_id slot =
      elim (result_cases (register_symbol (s.blocks a) symbol_id slot).0) [
        | inl new ↦
            rw (new, register_slot)
              (check_threshold-IsSame
                (set_block s a (register_symbol (s.blocks a) symbol_id slot).1))
        | inr (inl old) ↦ rw (old, register_slot) (refl, refl, refl)
        | inr (inr out) ↦ rw (out, register_slot) (refl, refl, refl)
      ]
    where
      result_cases :
          (r : SymbolRegisterResult)
          → (r ≡ SymbolRegisterResult.new_symbol)
            ⊎ ((r ≡ SymbolRegisterResult.duplicate) ⊎ (r ≡ SymbolRegisterResult.invalid_symbol_id))
      result_cases SymbolRegisterResult.new_symbol = inl refl
      result_cases SymbolRegisterResult.duplicate = inr (inl refl)
      result_cases SymbolRegisterResult.invalid_symbol_id = inr (inr refl)

  handle_in_block-IsSame :
      (s : Segment) (symbol_id : ℕ) (payload : List ℕ)
      → IsSame ctx (handle_in_block lib os s ctx block_id a symbol_id payload).context
  unfolding handle_in_block
  handle_in_block-IsSame s symbol_id payload =
      elim (Bool-cases (decode_state (s.blocks a) == decode_complete)) [
        | inl complete ↦ rw complete (refl, refl, refl)
        | inr pending ↦ rw pending (elim (Bool-cases (is_present (s.blocks a) symbol_id)) [
          | inl old ↦ rw old (refl, refl, refl)
          | inr new ↦ rw new (elim (Bool-cases ((alloc_slot s).0 == slot_idx_free)) [
            | inl full ↦ rw full (refl, refl, refl)
            | inr found ↦ rw found (
                register_slot-IsSame (fill_slot (alloc_slot s).1 (alloc_slot s).0 payload) symbol_id
                  (alloc_slot s).0)
          ])
        ])
      ]

pub handle_in_session-IsSame :
    (lib : IsaL) (os : Os) (s : Segment) (ctx : SessionContext) (block_id symbol_id : ℕ)
    (payload : List ℕ)
    → IsSame ctx (handle_in_session lib os s ctx block_id symbol_id payload).context
unfolding handle_in_session
handle_in_session-IsSame lib os s ctx block_id symbol_id payload =
    elim (Bool-cases (leb ctx.n symbol_id || not (length payload == ctx.symbol_bytes))) [
      | inl wrong ↦ rw wrong (refl, refl, refl)
      | inr right ↦ rw right (elim (Option-cases (block_entry s ctx.session_idx block_id)) [
        | inl missing ↦ rw (missing, handle_in_session) (refl, refl, refl)
        | inr (a, found) ↦
            rw (found, handle_in_session)
              (handle_in_block-IsSame lib os ctx block_id a s symbol_id payload)
      ])
    ]

-- The segment is valid, and a context of an open session has that session's `n` and symbols of a size
-- that fits a slot.
pub record IsPipeline (p : Pipeline) : Type 0 where
  pub free : List ℕ
  pub valid : IsSegment p.shm free
  pub agree :
      (id : List ℕ) (ctx : SessionContext)
      → find_key id p.sessions ≡ some ctx
      → (ctx.n ≡ (p.shm.sessions ctx.session_idx).n) × (ctx.symbol_bytes ≤ slot_size)

module _ (p : Pipeline) (id : List ℕ) (ctx : SessionContext) (h : Handled) where
  -- The result of a packet is put in the place of the context that it began with.
  committed-IsPipeline :
      IsPipeline p
      → find_key id p.sessions ≡ some ctx
      → IsValid p.shm.sessions h.shm
      → IsSame ctx h.context
      → IsPipeline (record { shm = h.shm; sessions = put_key id h.context p.sessions })
  committed-IsPipeline v known (free, valid, table) (idx, n, size) = record {
    free = free;
    valid = valid;
    agree = λ j c found. elim (Bool-cases (bytes_eq id j)) [
      | inl own ↦
          let e : h.context ≡ c = some-injective h.context c (sym (replaced j own) ∙ found) in
          subst
            (λ (d : SessionContext).
              (d.n ≡ (h.shm.sessions d.session_idx).n) × (d.symbol_bytes ≤ slot_size))
            e (rw (n, idx, size, table) (v.agree id ctx known))
      | inr other ↦
          subst
            (λ (f : ℕ → SessionEntry). (c.n ≡ (f c.session_idx).n) × (c.symbol_bytes ≤ slot_size))
            (sym table) (v.agree j c (sym (untouched j other) ∙ found))
    ];
  }
    where
      replaced :
          (j : List ℕ)
          → bytes_eq id j ≡ true
          → find_key j (put_key id h.context p.sessions) ≡ some h.context
      replaced j own = find_key-put_key id j h.context p.sessions ∙ rw own refl

      untouched :
          (j : List ℕ)
          → bytes_eq id j ≡ false
          → find_key j (put_key id h.context p.sessions) ≡ find_key j p.sessions
      untouched j other = find_key-put_key id j h.context p.sessions ∙ rw other refl

-- If the pipeline's invariant holds (every slot of the arena is free or linked from exactly one
-- symbol of one open block, each open block counts its symbols, an incomplete block's symbols keep
-- their slots, and each context has its session's n and symbols that fit a slot), it holds after
-- any data packet, whatever session, block, symbol and payload it names and however the allocation,
-- the decode, the write, the flush and the latch turn out.
pub handle_data_packet-IsPipeline :
    (lib : IsaL) (os : Os) (p : Pipeline) (id : List ℕ) (block_id symbol_id : ℕ) (payload : List ℕ)
    → IsPipeline p
    → IsPipeline (handle_data_packet lib os p id block_id symbol_id payload).2
unfolding handle_data_packet
handle_data_packet-IsPipeline lib os p id block_id symbol_id payload v =
    elim (Option-cases (find_key id p.sessions)) [
      | inl unknown ↦ rw (unknown, handle_data_packet) v
      | inr (ctx, known) ↦
          rw (known, handle_data_packet)
            (committed-IsPipeline p id ctx
              (handle_in_session lib os p.shm ctx block_id symbol_id payload) v known
              (let (fits_n, fits) = v.agree id ctx known in
                handle_in_session-IsValid lib os p.shm ctx block_id symbol_id payload
                  (v.free, v.valid, refl) fits_n fits)
              (handle_in_session-IsSame lib os p.shm ctx block_id symbol_id payload))
    ]
