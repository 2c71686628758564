-- ===== src/Writer.antt =====
-- src/receiver/block_writer.cpp: decoded blocks written into the mapped file. What the system answers
-- to a call is a parameter of the operation.
pub mod Blocks
use receiver.Prelude.{
  ℕ, zero, suc, ◌-◌, ◌*◌, ◌/◌, ◌%◌, ◌^◌, ◌+◌, Bool, true, false, if◌then◌else◌, ◌==◌, ltb, leb, not,
  ◌&&◌, List, [], ◌∷◌, ◌++◌, Option, none, some, take, min, u64,
}
use receiver.Shm.Memory.{Bytes, store}

-- The answers of the system: the descriptor or failure of `open`, the size or failure of `fstat`, and
-- whether `mmap` and `msync` succeed.
pub record Os : Type 0 where
  pub open_file : List ℕ → Option ℕ
  pub fstat_size : ℕ → Option ℕ
  pub mmap_ok : ℕ → ℕ → Bool
  pub msync_ok : ℕ → ℕ → Bool
  pub page_size : ℕ

-- `mapped` is `base_` other than MAP_FAILED; `view` is the mapping's bytes and `disk` those that have
-- been made durable.
pub record BlockWriter : Type 0 where
  pub fd : Option ℕ
  pub mapped : Bool
  pub file_size : ℕ
  pub block_bytes : ℕ
  pub view : Bytes
  pub disk : Bytes

unfoldable pub close_writer : BlockWriter → BlockWriter
close_writer w = record w { fd = none; mapped = false; file_size = 0; block_bytes = 0 }

-- The rest of `open` once the file has its descriptor and its size.
unfoldable pub map_file : Os → BlockWriter → ℕ → ℕ → Bool × BlockWriter
unfolding close_writer
map_file os w fd size =
    if ltb size w.file_size
    then (false, close_writer w)
    else if w.file_size == 0
    then (true, w)
    else if os.mmap_ok fd w.file_size
    then (true, record w { mapped = true })
    else (false, close_writer w)

unfoldable pub open_writer : Os → BlockWriter → List ℕ → ℕ → ℕ → ℕ → Bool × BlockWriter
unfolding map_file close_writer
open_writer os w dest_path file_size k symbol_bytes =
    let sized = record (close_writer w) {
      block_bytes = u64 (k * symbol_bytes);
      file_size = file_size;
    } in
    elim (os.open_file dest_path) [
      | none ↦ (false, sized)
      | some fd ↦
          let opened = record sized { fd = some fd } in
          elim (os.fstat_size fd) [
            | none ↦ (false, close_writer opened)
            | some size ↦ map_file os opened fd size
          ]
    ]

-- `off` and `n` of `write_block` and `flush_block`.
abbrev pub block_off : BlockWriter → ℕ → ℕ
block_off w block_id = u64 (block_id * w.block_bytes)

abbrev pub block_len : BlockWriter → ℕ → ℕ
block_len w block_id = min w.block_bytes (w.file_size - block_off w block_id)

unfoldable pub write_block : BlockWriter → ℕ → List ℕ → Bool × BlockWriter
unfolding store
write_block w block_id decoded =
    if not w.mapped
    then (false, w)
    else if leb w.file_size (block_off w block_id)
    then (false, w)
    else (
      true,
      record w { view = store w.view (block_off w block_id) (take (block_len w block_id) decoded) },
    )

-- `msync` over `len` bytes from `at`: those bytes of the mapping become durable.
unfoldable pub synced : BlockWriter → ℕ → ℕ → BlockWriter
synced w at len = record w {
  disk = λ i. if leb at i && ltb i (at + len) then w.view i else w.disk i;
}

unfoldable pub flush_block : Os → BlockWriter → ℕ → Bool × BlockWriter
unfolding synced
flush_block os w block_id =
    if not w.mapped
    then (false, w)
    else if leb w.file_size (block_off w block_id)
    then (false, w)
    else let aligned_off = block_off w block_id / os.page_size * os.page_size in
      let aligned_len = block_off w block_id + block_len w block_id - aligned_off in
      if os.msync_ok aligned_off aligned_len
      then (true, synced w aligned_off aligned_len)
      else (false, w)

unfoldable pub flush_all : Os → BlockWriter → Bool × BlockWriter
unfolding synced
flush_all os w =
    if not w.mapped
    then (true, w)
    else if os.msync_ok 0 w.file_size
    then (true, synced w 0 w.file_size)
    else (false, w)
