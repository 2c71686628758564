-- ===== src/Prelude/Keys.antt =====
-- Strings as lists of their bytes, and a map keyed by them.
use Prim.Native.Nat.{ℕ}
use mathlib.Core.Path.{◌≡◌, refl, ap, sym, ◌∙◌}
use mathlib.Core.Logic.{inl, inr}
use mathlib.Core.Bool.{Bool, true, false, ◌&&◌}
use mathlib.Core.List.{List, [], ◌∷◌}
use mathlib.Core.Option.{Option, none, some, some-ne-none}
use native.Mathlib.Omega.{arith}
use receiver.Prelude.Tests.{◌==◌, if◌then◌else◌, Bool-cases, ==_refl}

-- `a == b` of `std::string`.
unfoldable pub bytes_eq : List ℕ → List ℕ → Bool
bytes_eq [] [] = true
bytes_eq [] (y ∷ ys) = false
bytes_eq (x ∷ xs) [] = false
bytes_eq (x ∷ xs) (y ∷ ys) = x == y && bytes_eq xs ys

pub bytes_eq_refl : (xs : List ℕ) → bytes_eq xs xs ≡ true
unfolding bytes_eq
bytes_eq_refl [] = refl
bytes_eq_refl (x ∷ xs) = ground (arith, bytes_eq_refl xs)

pub bytes_eq→eq : (xs ys : List ℕ) → bytes_eq xs ys ≡ true → xs ≡ ys
unfolding bytes_eq
bytes_eq→eq [] [] h = refl
bytes_eq→eq [] (y ∷ ys) h = cc
bytes_eq→eq (x ∷ xs) [] h = cc
bytes_eq→eq (x ∷ xs) (y ∷ ys) h = ground (arith, bytes_eq→eq xs ys)

module _ {ℓ} {V : Type ℓ} where
  unfoldable pub find_key : List ℕ → List (List ℕ × V) → Option V
  find_key k [] = none
  find_key k ((j, v) ∷ m) = if bytes_eq j k then some v else find_key k m

  -- A binding replaced, or added at the end.
  unfoldable pub put_key : List ℕ → V → List (List ℕ × V) → List (List ℕ × V)
  put_key k v [] = (k, v) ∷ []
  put_key k v ((j, w) ∷ m) = if bytes_eq j k then (k, v) ∷ m else (j, w) ∷ put_key k v m

  unfoldable pub erase_key : List ℕ → List (List ℕ × V) → List (List ℕ × V)
  erase_key k [] = []
  erase_key k ((j, w) ∷ m) = if bytes_eq j k then erase_key k m else (j, w) ∷ erase_key k m

  pub find_key-put_key_self :
      (k : List ℕ) (v : V) (m : List (List ℕ × V)) → find_key k (put_key k v m) ≡ some v
  unfolding find_key put_key
  find_key-put_key_self k v [] = ground (arith, bytes_eq_refl k)
  find_key-put_key_self k v ((j, w) ∷ m) =
      ground (arith, bytes_eq_refl k, find_key-put_key_self k v m)

  pub find_key-erase_key_self :
      (k : List ℕ) (m : List (List ℕ × V)) → find_key k (erase_key k m) ≡ none
  unfolding find_key erase_key
  find_key-erase_key_self k [] = refl
  find_key-erase_key_self k ((j, w) ∷ m) = ground (arith, find_key-erase_key_self k m)

  -- A binding is found under its key, and every other key finds what it did.
  pub find_key-put_key :
      (k j : List ℕ) (v : V) (m : List (List ℕ × V))
      → find_key j (put_key k v m) ≡ (if bytes_eq k j then some v else find_key j m)
  unfolding find_key put_key
  find_key-put_key k j v [] = refl
  find_key-put_key k j v ((i, w) ∷ m) = elim (Bool-cases (bytes_eq i k)) [
    | inl same ↦ rw (same, bytes_eq→eq i k same) (ground arith)
    | inr other ↦
        rw (other, find_key-put_key k j v m)
          (ground (
            arith,
            bytes_eq_refl j,
            ap (λ (x : List ℕ). bytes_eq x k),
            bytes_eq→eq i j,
            bytes_eq→eq k j,
          ))
  ]

  -- What is found after an erasure was there before it.
  pub find_key-erase_key :
      (k j : List ℕ) (v : V) (m : List (List ℕ × V))
      → find_key j (erase_key k m) ≡ some v
      → find_key j m ≡ some v
  unfolding find_key erase_key
  find_key-erase_key k j v [] h = h
  find_key-erase_key k j v ((i, w) ∷ m) h = elim (Bool-cases (bytes_eq i k)) [
    | inl erased ↦ elim (Bool-cases (bytes_eq i j)) [
      | inl same ↦ absurd (
          some-ne-none v (
            sym (rw erased at h)
            ∙ ap (λ (x : List ℕ). find_key x (erase_key k m))
                (sym (bytes_eq→eq i j same) ∙ bytes_eq→eq i k erased)
            ∙ find_key-erase_key_self k m))
      | inr other ↦ rw other (find_key-erase_key k j v m (rw erased at h))
    ]
    | inr stays ↦ elim (Bool-cases (bytes_eq i j)) [
      | inl same ↦ rw same (rw (stays, same) at h)
      | inr other ↦ rw other (find_key-erase_key k j v m (rw (stays, other) at h))
    ]
  ]

  -- A key that is bound stays bound.
  pub find_key-put_key_known :
      (k j : List ℕ) (v w : V) (m : List (List ℕ × V))
      → find_key j m ≡ some w
      → (x : V) × (find_key j (put_key k v m) ≡ some x)
  find_key-put_key_known k j v w m known = elim (Bool-cases (bytes_eq k j)) [
    | inl own ↦ (v, find_key-put_key k j v m ∙ rw own refl)
    | inr other ↦ (w, find_key-put_key k j v m ∙ rw other known)
  ]

-- A list without the first element that equals `n`.
unfoldable pub remove_first : ℕ → List ℕ → List ℕ
remove_first n [] = []
remove_first n (x ∷ xs) = if x == n then xs else x ∷ remove_first n xs

pub remove_first-head : (n : ℕ) (xs : List ℕ) → remove_first n (n ∷ xs) ≡ xs
unfolding remove_first
remove_first-head n xs = rw (==_refl n) refl
