-- ===== src/Examples/Codes.antt =====
-- A repetition code in the place of ISA-L: one data symbol, stored twice.
use receiver.Prelude.{
  ℕ, zero, suc, ◌<◌, ◌≡◌, Bool, true, false, List, [], ◌∷◌, some, refl, arith, get_or, length, map,
  replicate, count,
}
use receiver.Codec.{IsaL, make_codec, decode, choose, flatten}
use receiver.Codec.Choose.{length-choose}
use receiver.Codec.Recovery.{IsErasureCode, decode-recovers}

abbrev pub repetition : IsaL
repetition = record {
  gf_gen_cauchy1_matrix = λ n k. replicate n 1;
  gf_invert_matrix = λ matrix k. some (1 ∷ []);
  ec_init_tables = λ k rows matrix. matrix;
  ec_encode_data = λ len k rows tables src. src;
}

repeated :
    (ids : List ℕ) (data_symbols : List (List ℕ))
    → length ids ≡ 1
    → length data_symbols ≡ 1
    → map (λ i. get_or data_symbols 0 []) ids ≡ data_symbols
repeated [] ds p q = absurd (omega arith)
repeated (i ∷ []) [] p q = absurd (omega arith)
repeated (i ∷ []) (d ∷ []) p q = refl
repeated (i ∷ []) (d ∷ e ∷ ds) p q = absurd (omega arith)
repeated (i ∷ j ∷ ids) ds p q = absurd (omega arith)

first_only :
    (i : ℕ) (data_symbols : List (List ℕ))
    → i < 1
    → get_or data_symbols 0 [] ≡ get_or data_symbols i []
first_only zero ds lt = refl
first_only (suc i) ds lt = absurd (omega arith)

abbrev repetition-IsErasureCode : IsErasureCode repetition 1 2 1
repetition-IsErasureCode = record {
  dot = λ row data_symbols. get_or data_symbols 0 [];
  systematic = λ i ds lt whole. first_only i ds lt;
  invertible = λ ids below distinct one. (1 ∷ [], refl, λ ds whole. repeated ids ds one whole);
}

-- Only the second symbol has arrived.
abbrev second_only : ℕ → Bool
second_only zero = false
second_only (suc i) = true

decode-recovers_example :
    decode repetition (make_codec repetition 1 2 1) (λ _. 7 ∷ []) second_only ≡ some (7 ∷ [])
unfolding count flatten
decode-recovers_example =
    decode-recovers repetition 1 2 1 repetition-IsErasureCode ((7 ∷ []) ∷ []) refl (omega arith)
      (λ _. 7 ∷ []) second_only (λ i lt there. refl) (omega arith)

length-choose_example : length (choose 5 second_only 3 0) ≡ 3
unfolding count
length-choose_example = length-choose 5 3 0 second_only
