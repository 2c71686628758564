-- ===== src/Codec.antt =====
-- src/receiver/rs_codec.cpp: Reed-Solomon decoding over ISA-L, which is a parameter. A symbol is the
-- list of its bytes; an array of pointers to symbols is a function from the symbol's id.
pub mod Choose
pub mod Recovery
use receiver.Prelude.{
  ℕ, zero, suc, ◌-◌, ◌*◌, ◌/◌, ◌%◌, ◌^◌, ◌+◌, Bool, true, false, if◌then◌else◌, ◌==◌, ltb, leb, not,
  ◌&&◌, List, [], ◌∷◌, ◌++◌, Option, none, some, take, drop, length, map, get_or,
}

-- What the code calls of ISA-L. Matrices are rows of bytes, one after another; `ec_encode_data`
-- returns the symbols that it would store.
pub record IsaL : Type 0 where
  pub gf_gen_cauchy1_matrix : (n k : ℕ) → List ℕ
  -- `none` for a result other than 0.
  pub gf_invert_matrix : (matrix : List ℕ) (k : ℕ) → Option (List ℕ)
  pub ec_init_tables : (k rows : ℕ) (matrix : List ℕ) → List ℕ
  pub ec_encode_data : (len k rows : ℕ) (tables : List ℕ) (src : List (List ℕ)) → List (List ℕ)

pub record RsCodec : Type 0 where
  pub k : ℕ
  pub n : ℕ
  pub symbol_bytes : ℕ
  pub encode_matrix : List ℕ

unfoldable pub make_codec : IsaL → ℕ → ℕ → ℕ → RsCodec
make_codec lib k n symbol_bytes = record {
  k = k;
  n = n;
  symbol_bytes = symbol_bytes;
  encode_matrix = lib.gf_gen_cauchy1_matrix n k;
}

-- `for (i = 0; i < count; ++i) if (!present[i]) …`
unfoldable pub all_present : ℕ → (ℕ → Bool) → Bool
all_present zero present = true
all_present (suc i) present = all_present i present && present i

-- `symbols[i]` for `i` below `count`, in order.
unfoldable pub first_symbols : ℕ → (ℕ → List ℕ) → List (List ℕ)
first_symbols zero symbols = []
first_symbols (suc i) symbols = first_symbols i symbols ++ symbols i ∷ []

-- The loop that collects `chosen`: at most `want` present ids, from `i` on, by the rounds left.
unfoldable pub choose : ℕ → (ℕ → Bool) → ℕ → ℕ → List ℕ
choose zero present want i = []
choose (suc rounds) present zero i = []
choose (suc rounds) present (suc want) i = elim (present i) [
  | true ↦ i ∷ choose rounds present want (i + 1)
  | false ↦ choose rounds present (suc want) (i + 1)
]

-- Row `r` of a matrix with rows of `k` bytes.
unfoldable pub matrix_row : ℕ → List ℕ → ℕ → List ℕ
matrix_row k matrix r = take k (drop (r * k) matrix)

unfoldable pub flatten : List (List ℕ) → List ℕ
flatten [] = []
flatten (x ∷ xs) = x ++ flatten xs

-- The inverse of the chosen rows, applied to the chosen symbols.
unfoldable pub solve : IsaL → RsCodec → (ℕ → List ℕ) → List ℕ → Option (List ℕ)
unfolding matrix_row flatten
solve lib c symbols chosen =
    elim (lib.gf_invert_matrix (flatten (map (matrix_row c.k c.encode_matrix) chosen)) c.k) [
      | none ↦ none
      | some decode_matrix ↦ some (
          flatten (
            lib.ec_encode_data c.symbol_bytes c.k c.k (lib.ec_init_tables c.k c.k decode_matrix)
              (map symbols chosen)))
    ]

-- `none` where the source returns false; else the bytes of `out_data`.
unfoldable pub decode : IsaL → RsCodec → (ℕ → List ℕ) → (ℕ → Bool) → Option (List ℕ)
unfolding all_present first_symbols choose solve
decode lib c symbols present =
    if all_present c.k present
    then some (flatten (first_symbols c.k symbols))
    else let chosen = choose c.n present c.k 0 in
      if ltb (length chosen) c.k then none else solve lib c symbols chosen

unfoldable pub encode_for_testing : IsaL → RsCodec → List (List ℕ) → List (List ℕ)
encode_for_testing lib c data_symbols =
    let p = c.n - c.k in
    lib.ec_encode_data c.symbol_bytes c.k p
      (lib.ec_init_tables c.k p (drop (c.k * c.k) c.encode_matrix)) data_symbols
