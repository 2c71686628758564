-- ===== src/Writer/Blocks.antt =====
-- block_writer.cpp: where a block's bytes land, and what is durable after a flush.
use receiver.Prelude.{
  ℕ, ◌-◌, ◌*◌, ◌/◌, ◌^◌, ◌+◌, ◌<◌, ◌≤◌, ◌≡◌, ◌⊎◌, inl, inr, Bool, true, refl, ap, sym, ◌∙◌, subst,
  arith, Bool-cases, leb, List, length, length-take, get_or, get_or-take, take, u64,
}
use mathlib.Core.Bool.{false≢true}
use native.Mathlib.Nat.{div-mul-le_self, div-add-mod', mod-lt, mul-le-mul_right}
use receiver.Shm.Memory.{store, store-inside, store-outside}
use receiver.Writer.{Os, BlockWriter, write_block, flush_block, synced, block_off, block_len}

-- The bytes of a block, and no others, change in the mapping; the block ends inside the file.
pub record Written (w w' : BlockWriter) (block_id : ℕ) (decoded : List ℕ) : Type 0 where
  pub mapped : w.mapped ≡ true
  pub starts : block_off w block_id < w.file_size
  pub ends : block_off w block_id + block_len w block_id ≤ w.file_size
  pub inside :
      (i : ℕ)
      → i < block_len w block_id
      → i < length decoded
      → w'.view (block_off w block_id + i) ≡ get_or decoded i 0
  pub outside :
      (j : ℕ)
      → (j < block_off w block_id) ⊎ (block_off w block_id + block_len w block_id ≤ j)
      → w'.view j ≡ w.view j
  pub sized : (w'.file_size ≡ w.file_size) × (w'.block_bytes ≡ w.block_bytes)
  pub disk : w'.disk ≡ w.disk

-- The mapping after the copy.
abbrev copied : BlockWriter → ℕ → List ℕ → BlockWriter
copied w block_id decoded = record w {
  view = store w.view (block_off w block_id) (take (block_len w block_id) decoded);
}

-- A write succeeds on a mapped file, for a block that starts inside it.
write_block-true :
    (w : BlockWriter) (block_id : ℕ) (decoded : List ℕ)
    → (write_block w block_id decoded).0 ≡ true
    → (w.mapped ≡ true)
      × (block_off w block_id < w.file_size)
      × (write_block w block_id decoded ≡ (true, copied w block_id decoded))
unfolding write_block
write_block-true w block_id decoded done = elim (Bool-cases w.mapped) [
  | inr unmapped ↦ absurd (false≢true (sym (simp unmapped refl) ∙ done))
  | inl mapped ↦ elim (Bool-cases (leb w.file_size (block_off w block_id))) [
    | inl past ↦ absurd (false≢true (sym (simp (mapped, past) refl) ∙ done))
    | inr within ↦ (mapped, ground arith, simp (mapped, within) refl)
  ]
]

copied-Written :
    (w : BlockWriter) (block_id : ℕ) (decoded : List ℕ)
    → w.mapped ≡ true
    → block_off w block_id < w.file_size
    → Written w (copied w block_id decoded) block_id decoded
copied-Written w block_id decoded mapped within = record {
  mapped = mapped;
  starts = within;
  ends = ground arith;
  inside = λ i lt given.
      store-inside (take (block_len w block_id) decoded) w.view (block_off w block_id) i
        (omega (arith, length-take {0} (block_len w block_id) decoded))
      ∙ get_or-take {0} (block_len w block_id) decoded i 0 lt;
  outside = λ j away.
      store-outside (take (block_len w block_id) decoded) w.view (block_off w block_id) j
        (ground (arith, length-take {0} (block_len w block_id) decoded));
  sized = (refl, refl);
  disk = refl;
}

pub write_block-Written :
    (w : BlockWriter) (block_id : ℕ) (decoded : List ℕ)
    → (write_block w block_id decoded).0 ≡ true
    → Written w (write_block w block_id decoded).1 block_id decoded
write_block-Written w block_id decoded done =
    let (mapped, within, e) = write_block-true w block_id decoded done in
    subst (λ (r : Bool × BlockWriter). Written w r.1 block_id decoded) (sym e)
      (copied-Written w block_id decoded mapped within)

-- What lies in the range of an `msync` becomes durable.
synced-inside :
    (w : BlockWriter) (at len j : ℕ) → at ≤ j → j < at + len → (synced w at len).disk j ≡ w.view j
unfolding synced
synced-inside w at len j lo hi = ground arith

module _ (os : Os) (w : BlockWriter) (block_id : ℕ) where
  -- The address that `msync` is given, on a page boundary.
  abbrev aligned : ℕ
  aligned = block_off w block_id / os.page_size * os.page_size

  flush_block-true :
      (flush_block os w block_id).0 ≡ true
      → flush_block os w block_id
        ≡ (true, synced w aligned (block_off w block_id + block_len w block_id - aligned))
  unfolding flush_block
  flush_block-true done = elim (Bool-cases w.mapped) [
    | inr unmapped ↦ absurd (false≢true (sym (simp unmapped refl) ∙ done))
    | inl mapped ↦ elim (Bool-cases (leb w.file_size (block_off w block_id))) [
      | inl past ↦ absurd (false≢true (sym (simp (mapped, past) refl) ∙ done))
      | inr within ↦
          elim (Bool-cases
            (os.msync_ok aligned (block_off w block_id + block_len w block_id - aligned))) [
              | inl kept ↦ simp (mapped, within, kept) refl
              | inr lost ↦ absurd (false≢true (sym (simp (mapped, within, lost) refl) ∙ done))
            ]
    ]
  ]

  -- A flush that succeeds makes the block's bytes durable.
  pub flush_block-durable :
      (flush_block os w block_id).0 ≡ true
      → ((flush_block os w block_id).1.view ≡ w.view)
        × ((i : ℕ)
            → i < block_len w block_id
            → (flush_block os w block_id).1.disk (block_off w block_id + i)
              ≡ w.view (block_off w block_id + i))
  unfolding synced
  flush_block-durable done =
      subst
        (λ (r : Bool × BlockWriter).
          (r.1.view ≡ w.view)
          × ((i : ℕ)
              → i < block_len w block_id
              → r.1.disk (block_off w block_id + i) ≡ w.view (block_off w block_id + i)))
        (sym (flush_block-true done))
        (
          refl,
          (λ i lt.
              synced-inside w aligned (block_off w block_id + block_len w block_id - aligned)
                (block_off w block_id + i)
                (omega (arith, div-mul-le_self (block_off w block_id) os.page_size))
                (omega (arith, div-mul-le_self (block_off w block_id) os.page_size))),
        )

module _ (w : BlockWriter) (some_bytes : 0 < w.block_bytes) where
  quotient_bounds :
      (pos : ℕ)
      → (pos / w.block_bytes * w.block_bytes ≤ pos)
        × (pos < pos / w.block_bytes * w.block_bytes + w.block_bytes)
  quotient_bounds pos = (
    div-mul-le_self pos w.block_bytes,
    omega (arith, div-add-mod' pos w.block_bytes, mod-lt pos some_bytes),
  )

  later_block : (b c : ℕ) → b < c → b * w.block_bytes + w.block_bytes ≤ c * w.block_bytes
  later_block b c lt = omega (arith, mul-le-mul_right w.block_bytes lt)

  -- If a block has at least one byte and the file's size is below 2 ^ 64, then each byte of the
  -- file lies in the range that write_block gives the block of its quotient, and in the range of no
  -- other block whose offset does not wrap.
  pub blocks_tile :
      (pos : ℕ)
      → w.file_size < 2 ^ 64
      → pos < w.file_size
      → ((block_off w (pos / w.block_bytes) ≤ pos)
          × (pos < block_off w (pos / w.block_bytes) + block_len w (pos / w.block_bytes)))
        × ((block_id : ℕ)
            → block_id * w.block_bytes < 2 ^ 64
            → block_off w block_id ≤ pos
            → pos < block_off w block_id + block_len w block_id
            → block_id ≡ pos / w.block_bytes)
  blocks_tile pos small lt =
      let (lo, hi) = quotient_bounds pos in
      (
        (omega (arith, lo), omega (arith, lo, hi)),
        (λ b fits from to. elim (ℕ_order b (pos / w.block_bytes)) [
          | inl before ↦ absurd (omega (arith, later_block b (pos / w.block_bytes) before))
          | inr (inl same) ↦ same
          | inr (inr after) ↦ absurd (omega (arith, later_block (pos / w.block_bytes) b after))
        ]),
      )
    where
      ℕ_order : (b c : ℕ) → (b < c) ⊎ ((b ≡ c) ⊎ (c < b))
      ℕ_order b c = ground arith

-- If write_block and then flush_block of the same block succeed, then each byte of the decoded
-- block that lies inside the block's part of the file is on the disk at its place.
pub flush_block-write_block :
    (os : Os) (w : BlockWriter) (block_id : ℕ) (decoded : List ℕ)
    → (write_block w block_id decoded).0 ≡ true
    → (flush_block os (write_block w block_id decoded).1 block_id).0 ≡ true
    → (i : ℕ) → i < block_len w block_id
    → i < length decoded
    → (flush_block os (write_block w block_id decoded).1 block_id).1.disk (block_off w block_id + i)
      ≡ get_or decoded i 0
flush_block-write_block os w block_id decoded done kept i lt given =
    ap (λ (o : ℕ). (flush_block os w' block_id).1.disk (o + i)) (sym same_off)
    ∙ (flush_block-durable os w' block_id kept).1 i (omega (arith, same_len))
    ∙ ap (λ (o : ℕ). w'.view (o + i)) same_off
    ∙ wrote.inside i lt given
  where
    w' : BlockWriter
    w' = (write_block w block_id decoded).1

    wrote : Written w w' block_id decoded
    wrote = write_block-Written w block_id decoded done

    same_off : block_off w' block_id ≡ block_off w block_id
    same_off = ap (λ (n : ℕ). u64 (block_id * n)) wrote.sized.1

    same_len : block_len w' block_id ≡ block_len w block_id
    same_len = rw (wrote.sized.0, wrote.sized.1) refl
