-- ===== src/Pipeline/Invariant.antt =====
-- session_pipeline.cpp: a data packet keeps the ownership of every slot of the arena.
use receiver.Prelude.{
  ℕ, ◌<◌, ◌≤◌, ◌≡◌, ◌≢◌, inl, inr, Bool, true, false, List, [], ◌∷◌, some, refl, ap, sym, ◌∙◌,
  arith, if◌then◌else◌, ◌==◌, ℕ_discrete, ne→not_==, Bool-cases, Option-cases, leb, ◌||◌, length,
  not,
}
use mathlib.Core.Bool.{false≢true}
use receiver.Shm.Layout.{slot_idx_free, decode_complete, decode_claimed, decode_pending, slot_size}
use receiver.Shm.Segment.{Segment, SessionEntry, BlockEntry, set_block}
use receiver.Shm.Arena.{free_slot, alloc_slot, fill_slot}
use receiver.Shm.Block.{SymbolRegisterResult, decode_state, is_present, register_symbol}
use receiver.Shm.Block.Symbols.{register_symbol_lem}
use receiver.Shm.Block.Latch.{claim_won, claim_lost}
use receiver.Shm.Session.{block_entry}
use receiver.Shm.Arena.FreeList.{alloc_slot-nil}
use receiver.Shm.Ownership.Defs.{IsSegment}
use receiver.Shm.Ownership.Latch.{latched, latched-IsSegment, same_block}
use receiver.Shm.Ownership.GiveBack.{given_back-IsSegment, given_back-sessions}
use receiver.Shm.Ownership.Register
use receiver.Shm.Ownership.Register.{alloc_slot-taken, register-IsSegment, stored, taken}
use receiver.Codec.{IsaL, decode}
use receiver.Writer.{Os, write_block, flush_block}
use receiver.Pipeline.{
  SessionContext, arena_exhausted, invalid_block_or_symbol, gathered, symbol_at, finish_block,
  decode_and_write_block, check_threshold, register_slot, handle_in_block, handle_in_session,
  handled, report_decode,
}
use receiver.Pipeline.Finish.{IsValid, finish_block-IsValid}

module _ (lib : IsaL) (os : Os) (s : Segment) (ctx : SessionContext) (block_id i b a : ℕ) where
  -- Each exit of `decode_and_write_block`: with the segment as it was, or by `finish_block`.
  decode_and_write_cases {ℓ} :
      (P : Segment → Type ℓ)
      → P s
      → P (finish_block s ctx.n a).1
      → P (decode_and_write_block lib os s ctx block_id a).1
  unfolding decode_and_write_block
  decode_and_write_cases P failed finished =
      elim (Option-cases (
        decode lib ctx.codec (symbol_at s (s.blocks a) ctx.symbol_bytes)
          (gathered (s.blocks a) ctx.n))) [
            | inl short ↦ rw (short, decode_and_write_block) failed
            | inr (decoded, enough) ↦
                rw (enough, decode_and_write_block)
                  (elim (Bool-cases (write_block ctx.writer block_id decoded).0) [
                    | inr refused ↦ rw refused failed
                    | inl written ↦
                        rw written
                          (elim (Bool-cases
                            (flush_block os (write_block ctx.writer block_id decoded).1
                              block_id).0) [
                                | inr lost ↦ rw lost failed
                                | inl durable ↦ rw durable finished
                              ])
                  ])
          ]

  decode_and_write_block-IsValid :
      (table : ℕ → SessionEntry)
      → IsValid table s
      → block_entry s i b ≡ some a
      → IsValid table (decode_and_write_block lib os s ctx block_id a).1
  decode_and_write_block-IsValid table v at_block =
      decode_and_write_cases (IsValid table) v (finish_block-IsValid s ctx.n a table i b v at_block)

report_decode-shm :
    (block_id : ℕ) (r : Bool × Segment × SessionContext) → (report_decode block_id r).shm ≡ r.1
report_decode-shm block_id (true, s, ctx) = refl
report_decode-shm block_id (false, s, ctx) = refl

module _ (lib : IsaL) (os : Os) (ctx : SessionContext) (block_id i b a : ℕ) where
  check_threshold-IsValid :
      (table : ℕ → SessionEntry) (s : Segment)
      → IsValid table s
      → block_entry s i b ≡ some a
      → (s.blocks a).decoded ≢ decode_complete
      → IsValid table (check_threshold lib os s ctx block_id a).shm
  unfolding check_threshold
  check_threshold-IsValid table s (free, v, e) at_block pending =
      elim (Bool-cases (leb ctx.k (s.blocks a).seen)) [
        | inr few ↦ rw few (free, v, e)
        | inl enough ↦ rw enough (elim (ℕ_discrete (s.blocks a).decoded decode_pending) [
          | no taken_already ↦ rw (claim_lost (s.blocks a) taken_already) (free, v, e)
          | yes idle ↦
              rw (claim_won (s.blocks a) idle, report_decode-shm block_id)
                (decode_and_write_block-IsValid lib os (latched s a decode_claimed) ctx block_id i b
                  a table (free, latched-IsSegment s a decode_claimed v (λ _. pending), e)
                  (same_block s a decode_claimed i b ∙ at_block))
        ])
      ]

-- `register_slot` by the result of the registration.
module _ (lib : IsaL) (os : Os) (s : Segment) (ctx : SessionContext) (block_id a sid x : ℕ) where
  register_slot-new :
      (e : BlockEntry)
      → register_symbol (s.blocks a) sid x ≡ (SymbolRegisterResult.new_symbol, e)
      → register_slot lib os s ctx block_id a sid x
        ≡ check_threshold lib os (set_block s a e) ctx block_id a
  unfolding register_slot
  register_slot-new e h =
      rw (h, register_slot)
        (ap
          (λ (r : SymbolRegisterResult × BlockEntry).
            check_threshold lib os (set_block s a r.1) ctx block_id a)
          h)

  register_slot-invalid :
      register_symbol (s.blocks a) sid x ≡ (SymbolRegisterResult.invalid_symbol_id, s.blocks a)
      → register_slot lib os s ctx block_id a sid x
        ≡ handled invalid_block_or_symbol (free_slot s x) ctx
  unfolding register_slot
  register_slot-invalid h = rw (h, register_slot) refl

module _ (lib : IsaL) (os : Os) (ctx : SessionContext) (block_id i b a : ℕ) where
  -- With a free slot, whether the symbol is new or its id is out of range.
  register_slot-IsValid :
      (s : Segment) (x : ℕ) (free payload : List ℕ) (symbol_id : ℕ)
      → IsSegment s (x ∷ free)
      → block_entry s i b ≡ some a
      → (s.blocks a).decoded ≢ decode_complete
      → symbol_id < (s.sessions i).n
      → is_present (s.blocks a) symbol_id ≡ false
      → length payload ≤ slot_size
      → IsValid s.sessions
          (register_slot lib os (fill_slot (taken s) x payload) ctx block_id a symbol_id x).shm
  unfolding fill_slot
  register_slot-IsValid s x free payload symbol_id v at_block pending within absent fits =
      elim (register_symbol_lem (s.blocks a) symbol_id x (v.counted i b a at_block)) [
        | inl (out, e) ↦
            rw (register_slot-invalid lib os filled ctx block_id a symbol_id x (same_entry ∙ e)) (
              x ∷ free,
              given_back-IsSegment s x free payload v fits,
              given_back-sessions s x free payload,
            )
        | inr (inl (small, there, e)) ↦ absurd (false≢true (sym absent ∙ there))
        | inr (inr (small, _, e, counted)) ↦
            rw (register_slot-new lib os filled ctx block_id a symbol_id x _ (same_entry ∙ e)) (
              check_threshold-IsValid lib os ctx block_id i b a s.sessions
                (stored s free payload x i b a symbol_id)
                (
                  free,
                  register-IsSegment s free payload x i b a symbol_id v at_block small within absent
                      fits,
                  refl,
                )
                (Register.same_block s free payload x i b a symbol_id i b ∙ at_block)
                (λ e. pending (sym (Register.same_latch s free payload x i b a symbol_id a) ∙ e)))
      ]
    where
      filled : Segment
      filled = fill_slot (taken s) x payload

      same_entry :
          register_symbol (filled.blocks a) symbol_id x ≡ register_symbol (s.blocks a) symbol_id x
      same_entry = refl

  -- The block is known, and its symbols are of a size that a slot holds.
  handle_in_block-IsValid :
      (s : Segment) (payload : List ℕ) (symbol_id : ℕ)
      → IsValid s.sessions s
      → block_entry s i b ≡ some a
      → symbol_id < (s.sessions i).n
      → length payload ≤ slot_size
      → IsValid s.sessions (handle_in_block lib os s ctx block_id a symbol_id payload).shm
  unfolding handle_in_block decode_state
  handle_in_block-IsValid s payload symbol_id (free, v, _) at_block within fits =
      elim (ℕ_discrete (s.blocks a).decoded decode_complete) [
        | yes complete ↦ rw (complete) (free, v, refl)
        | no pending ↦
            rw (ne→not_== _ _ pending) (elim (Bool-cases (is_present (s.blocks a) symbol_id)) [
              | inl there ↦ rw there (free, v, refl)
              | inr absent ↦ rw absent (with_slot free v pending absent)
            ])
      ]
    where
      with_slot :
          (free' : List ℕ)
          → IsSegment s free'
          → (s.blocks a).decoded ≢ decode_complete
          → is_present (s.blocks a) symbol_id ≡ false
          → IsValid s.sessions
              (if (alloc_slot s).0 == slot_idx_free
                then handled arena_exhausted (alloc_slot s).1 ctx
                else register_slot lib os
                    (fill_slot (alloc_slot s).1 (alloc_slot s).0 payload)
                    ctx
                    block_id
                    a
                    symbol_id
                    (alloc_slot s).0).shm
      with_slot [] v' pending absent = rw (alloc_slot-nil s v'.owned.is_arena) ([], v', refl)
      with_slot (x ∷ rest) v' pending absent =
          let (call, _, x≢free) = alloc_slot-taken s x rest v'.owned.is_arena in
          rw (call, ne→not_== x slot_idx_free x≢free)
            (register_slot-IsValid s x rest payload symbol_id v' at_block pending within absent
              fits)

-- A packet of a known session.
pub handle_in_session-IsValid :
    (lib : IsaL) (os : Os) (s : Segment) (ctx : SessionContext) (block_id symbol_id : ℕ)
    (payload : List ℕ)
    → IsValid s.sessions s
    → ctx.n ≡ (s.sessions ctx.session_idx).n
    → ctx.symbol_bytes ≤ slot_size
    → IsValid s.sessions (handle_in_session lib os s ctx block_id symbol_id payload).shm
unfolding handle_in_session
handle_in_session-IsValid lib os s ctx block_id symbol_id payload (free, v, _) same fits =
    elim (Bool-cases (leb ctx.n symbol_id || not (length payload == ctx.symbol_bytes))) [
      | inl wrong ↦ rw wrong (free, v, refl)
      | inr right ↦ rw right (elim (Option-cases (block_entry s ctx.session_idx block_id)) [
        | inl missing ↦ rw (missing, handle_in_session) (free, v, refl)
        | inr (a, found) ↦
            rw (found, handle_in_session)
              (handle_in_block-IsValid lib os ctx block_id ctx.session_idx block_id a s payload
                symbol_id (free, v, refl) found (ground arith) (ground arith))
      ])
    ]
