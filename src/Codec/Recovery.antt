-- ===== src/Codec/Recovery.antt =====
-- rs_codec.cpp: any `k` symbols of a block give its data back.
use receiver.Prelude.{
  ℕ, zero, suc, ◌+◌, ◌<◌, ◌≤◌, ◌≡◌, inl, inr, Bool, true, refl, ap, ap₂, sym, ◌∙◌, arith,
  if◌then◌else◌, Bool-cases, List, [], ◌∷◌, ◌++◌, some, none, length, get_or, take, map, count,
  count_cong, Distinct, take_all, take_step, &&_parts, le→not_ltb,
}
use receiver.Codec.{
  IsaL, make_codec, all_present, first_symbols, choose, matrix_row, flatten, solve, decode,
}
use receiver.Codec.Choose.{IsChoice, choose-IsChoice, IsChoice-Distinct, length-choose}

-- Ids below `n`.
abbrev pub AllIds : ℕ → List ℕ → Type 0
AllIds n [] = Unit {0}
AllIds n (x ∷ xs) = (x < n) × AllIds n xs

-- What ISA-L documents of a Cauchy code of `k` data symbols, each of `len` bytes, in `n` symbols.
-- `dot row data` is the sum, over the field, of the data's symbols times the row's coefficients.
pub record IsErasureCode (lib : IsaL) (k n len : ℕ) : Type 0 where
  pub dot : List ℕ → List (List ℕ) → List ℕ
  -- The top of the matrix is the identity.
  pub systematic :
      (i : ℕ) (data_symbols : List (List ℕ))
      → i < k
      → length data_symbols ≡ k
      → dot (matrix_row k (lib.gf_gen_cauchy1_matrix n k) i) data_symbols ≡ get_or data_symbols i []
  -- Any `k` rows make an invertible matrix, and a product with the inverse undoes one with the rows.
  pub invertible :
      (ids : List ℕ)
      → AllIds n ids
      → Distinct ids
      → length ids ≡ k
      → (inverse : List ℕ) × (lib.gf_invert_matrix
            (flatten (map (matrix_row k (lib.gf_gen_cauchy1_matrix n k)) ids))
            k
          ≡ some inverse)
        × ((data_symbols : List (List ℕ))
            → length data_symbols ≡ k
            → lib.ec_encode_data len k k
                (lib.ec_init_tables k k inverse)
                (map (λ i. dot (matrix_row k (lib.gf_gen_cauchy1_matrix n k) i) data_symbols) ids)
              ≡ data_symbols)

module _ (lib : IsaL) (k n len : ℕ) (code : IsErasureCode lib k n len)
    (data_symbols : List (List ℕ)) (whole : length data_symbols ≡ k) (k_le : k ≤ n)
    (symbols : ℕ → List ℕ) (present : ℕ → Bool)
    (encoded : (i : ℕ)
      → i < n
      → present i ≡ true
      → symbols i ≡ code.dot (matrix_row k (lib.gf_gen_cauchy1_matrix n k) i) data_symbols)
    (enough : k ≤ count n present) where
  all_present-at : (m i : ℕ) → all_present m present ≡ true → i < m → present i ≡ true
  unfolding all_present
  all_present-at zero i h lt = absurd (omega arith)
  all_present-at (suc m) i h lt = ground (arith, all_present-at m i)

  all_present-prefix : (m : ℕ) → all_present (suc m) present ≡ true → all_present m present ≡ true
  unfolding all_present
  all_present-prefix m h = (&&_parts _ _ h).0

  data_symbol : (i : ℕ) → i < k → present i ≡ true → symbols i ≡ get_or data_symbols i []
  data_symbol i lt there = encoded i (omega arith) there ∙ code.systematic i data_symbols lt whole

  first_symbols-take :
      (m : ℕ) → m ≤ k → all_present m present ≡ true → first_symbols m symbols ≡ take m data_symbols
  unfolding first_symbols
  first_symbols-take zero le all = refl
  first_symbols-take (suc m) le all =
      rw (first_symbols-take m (omega arith) (all_present-prefix m all)) (
        ap (λ (d : List ℕ). take m data_symbols ++ d ∷ [])
          (data_symbol m (omega arith) (all_present-at (suc m) m all (omega arith)))
        ∙ sym (take_step {0} m data_symbols [] (omega arith)))

  abbrev choice : List ℕ
  choice = choose n present k 0

  choice-IsChoice : IsChoice present 0 n choice
  choice-IsChoice = choose-IsChoice n k 0 n present (omega arith)

  choice-length : length choice ≡ k
  choice-length =
      length-choose n k 0 present
      ∙ omega (
        arith,
        enough,
        count_cong n (λ j. present (j + 0)) present (λ i lt. ap present (omega arith)),
      )

  choice-AllIds : (lo : ℕ) (xs : List ℕ) → IsChoice present lo n xs → AllIds n xs
  choice-AllIds lo [] c = tt
  choice-AllIds lo (x ∷ xs) (a, b, p, rest) = (b, choice-AllIds (x + 1) xs rest)

  chosen_symbols :
      (lo : ℕ) (xs : List ℕ)
      → IsChoice present lo n xs
      → map symbols xs
        ≡ map (λ i. code.dot (matrix_row k (lib.gf_gen_cauchy1_matrix n k) i) data_symbols) xs
  chosen_symbols lo [] c = refl
  chosen_symbols lo (x ∷ xs) (a, b, p, rest) =
      ap₂ ◌∷◌ (encoded x b p) (chosen_symbols (x + 1) xs rest)

  solve-data : solve lib (make_codec lib k n len) symbols choice ≡ some (flatten data_symbols)
  unfolding solve make_codec
  solve-data =
      let (inverse, inverts, undoes) =
        code.invertible choice (choice-AllIds 0 choice choice-IsChoice)
          (IsChoice-Distinct present 0 n choice choice-IsChoice) choice-length in
      rw (inverts, solve)
        (ap (λ (ds : List (List ℕ)). some (flatten ds))
          (ap (lib.ec_encode_data len k k (lib.ec_init_tables k k inverse))
              (chosen_symbols 0 choice choice-IsChoice)
            ∙ undoes data_symbols whole))

  -- If k is at most n, the data has k symbols, each symbol present below n is the product of its
  -- row of the matrix with the data, at least k symbols below n are present, and ISA-L does what it
  -- documents of a Cauchy code, then decode succeeds and returns the data, on the fast path and on
  -- the path through the inverse.
  pub decode-recovers :
      decode lib (make_codec lib k n len) symbols present ≡ some (flatten data_symbols)
  unfolding decode make_codec
  decode-recovers = elim (Bool-cases (all_present k present)) [
    | inl all ↦ rw all (
        ap (λ (ds : List (List ℕ)). some (flatten ds))
          (first_symbols-take k (omega arith) all ∙ take_all k data_symbols (omega arith)))
    | inr lost ↦ simp lost (
        ap (λ (b : Bool). if b then none else solve lib (make_codec lib k n len) symbols choice)
          (le→not_ltb _ _ (omega (arith, choice-length)))
        ∙ solve-data)
  ]
