-- ===== src/Prelude/Lists.antt =====
-- Lists measured and indexed by native numbers, under the library's names.
use Prim.Native.Nat.{ℕ, zero, suc, ◌+◌, ◌-◌, ◌≤◌, ◌<◌, min}
use mathlib.Core.Path.{◌≡◌, refl, ap, ap₂, ◌∙◌}
use mathlib.Core.Logic.{◌≢◌, ◌⊎◌, inr}
use mathlib.Core.List.{List, [], ◌∷◌, ◌++◌}
use mathlib.Core.Option.{Option, none, some}
use native.Mathlib.Omega.{arith}

module _ {ℓ} {A : Type ℓ} where
  abbrev pub length : List A → ℕ
  length [] = 0
  length (x ∷ xs) = suc (length xs)

  abbrev pub get_elem? : List A → ℕ → Option A
  get_elem? [] i = none
  get_elem? (x ∷ xs) zero = some x
  get_elem? (x ∷ xs) (suc i) = get_elem? xs i

  abbrev pub get_or : List A → ℕ → A → A
  get_or [] i d = d
  get_or (x ∷ xs) zero d = x
  get_or (x ∷ xs) (suc i) d = get_or xs i d

  -- A write out of bounds changes nothing.
  abbrev pub set : List A → ℕ → A → List A
  set [] i v = []
  set (x ∷ xs) zero v = v ∷ xs
  set (x ∷ xs) (suc i) v = x ∷ set xs i v

  abbrev pub take : ℕ → List A → List A
  take zero xs = []
  take (suc n) [] = []
  take (suc n) (x ∷ xs) = x ∷ take n xs

  abbrev pub drop : ℕ → List A → List A
  drop zero xs = xs
  drop (suc n) [] = []
  drop (suc n) (x ∷ xs) = drop n xs

  abbrev pub replicate : ℕ → A → List A
  replicate zero a = []
  replicate (suc n) a = a ∷ replicate n a

module _ {ℓ} {A : Type ℓ} where
  pub length-append : (xs ys : List A) → length (xs ++ ys) ≡ length xs + length ys
  length-append [] ys = omega arith
  length-append (x ∷ xs) ys = omega (arith, length-append xs ys)

  pub length-set : (xs : List A) (i : ℕ) (v : A) → length (set xs i v) ≡ length xs
  length-set [] i v = refl
  length-set (x ∷ xs) zero v = refl
  length-set (x ∷ xs) (suc i) v = ap suc (length-set xs i v)

  pub length-take : (n : ℕ) (xs : List A) → length (take n xs) ≡ min n (length xs)
  length-take zero xs = omega arith
  length-take (suc n) [] = omega arith
  length-take (suc n) (x ∷ xs) = omega (arith, length-take n xs)

  pub length-drop : (n : ℕ) (xs : List A) → length (drop n xs) ≡ length xs - n
  length-drop zero xs = omega arith
  length-drop (suc n) [] = omega arith
  length-drop (suc n) (x ∷ xs) = omega (arith, length-drop n xs)

  pub length-replicate : (n : ℕ) (a : A) → length (replicate n a) ≡ n
  length-replicate zero a = refl
  length-replicate (suc n) a = ap suc (length-replicate n a)

  pub get_or-set_self :
      (xs : List A) (i : ℕ) (v d : A) → i < length xs → get_or (set xs i v) i d ≡ v
  get_or-set_self [] i v d h = absurd (omega arith)
  get_or-set_self (x ∷ xs) zero v d h = refl
  get_or-set_self (x ∷ xs) (suc i) v d h = get_or-set_self xs i v d (omega arith)

  pub get_or-set_ne :
      (xs : List A) (i j : ℕ) (v d : A) → i ≢ j → get_or (set xs i v) j d ≡ get_or xs j d
  get_or-set_ne [] i j v d h = refl
  get_or-set_ne (x ∷ xs) zero zero v d h = absurd (h refl)
  get_or-set_ne (x ∷ xs) zero (suc j) v d h = refl
  get_or-set_ne (x ∷ xs) (suc i) zero v d h = refl
  get_or-set_ne (x ∷ xs) (suc i) (suc j) v d h = get_or-set_ne xs i j v d (λ e. h (ap suc e))

  -- Below the cut, a list and its beginning agree.
  pub get_or-take :
      (n : ℕ) (xs : List A) (i : ℕ) (d : A) → i < n → get_or (take n xs) i d ≡ get_or xs i d
  get_or-take zero xs i d h = absurd (omega arith)
  get_or-take (suc n) [] i d h = refl
  get_or-take (suc n) (x ∷ xs) zero d h = refl
  get_or-take (suc n) (x ∷ xs) (suc i) d h = get_or-take n xs i d (omega arith)

  pub get_or-past : (xs : List A) (i : ℕ) (d : A) → length xs ≤ i → get_or xs i d ≡ d
  get_or-past [] i d h = refl
  get_or-past (x ∷ xs) zero d h = absurd (omega arith)
  get_or-past (x ∷ xs) (suc i) d h = get_or-past xs i d (omega arith)

  -- One element more.
  pub take_step :
      (n : ℕ) (xs : List A) (d : A)
      → n < length xs
      → take (suc n) xs ≡ take n xs ++ get_or xs n d ∷ []
  take_step zero [] d h = absurd (omega arith)
  take_step zero (x ∷ xs) d h = refl
  take_step (suc n) [] d h = absurd (omega arith)
  take_step (suc n) (x ∷ xs) d h = ap (◌∷◌ x) (take_step n xs d (omega arith))

  pub take_all : (n : ℕ) (xs : List A) → length xs ≤ n → take n xs ≡ xs
  take_all zero [] h = refl
  take_all zero (x ∷ xs) h = absurd (omega arith)
  take_all (suc n) [] h = refl
  take_all (suc n) (x ∷ xs) h = ap (◌∷◌ x) (take_all n xs (omega arith))

  pub take-append_left : (xs ys : List A) → take (length xs) (xs ++ ys) ≡ xs
  take-append_left [] ys = refl
  take-append_left (x ∷ xs) ys = ap (◌∷◌ x) (take-append_left xs ys)

  pub drop-append_left : (xs ys : List A) → drop (length xs) (xs ++ ys) ≡ ys
  drop-append_left [] ys = refl
  drop-append_left (x ∷ xs) ys = drop-append_left xs ys

suc_add : (o i : ℕ) → suc o + i ≡ suc (o + i)
suc_add o i = omega arith

sub_zero : (i : ℕ) → i - 0 ≡ i
sub_zero i = omega arith

sub_suc : (i o : ℕ) → suc i - suc o ≡ i - o
sub_suc i o = omega arith

-- `memcpy(buf + off, bs, …)`: `bs` over the bytes of `buf` from `off` on. What lies past the end of
-- the buffer is dropped.
module _ {ℓ} {A : Type ℓ} where
  unfoldable pub write_at : ℕ → List A → List A → List A
  write_at off bs [] = []
  write_at zero [] (y ∷ ys) = y ∷ ys
  write_at zero (b ∷ bs) (y ∷ ys) = b ∷ write_at zero bs ys
  write_at (suc off) bs (y ∷ ys) = y ∷ write_at off bs ys

  pub length-write_at : (off : ℕ) (bs buf : List A) → length (write_at off bs buf) ≡ length buf
  unfolding write_at
  length-write_at off bs [] = refl
  length-write_at zero [] (y ∷ ys) = refl
  length-write_at zero (b ∷ bs) (y ∷ ys) = ap suc (length-write_at zero bs ys)
  length-write_at (suc off) bs (y ∷ ys) = ap suc (length-write_at off bs ys)

  -- Inside the written range the new bytes are read,
  pub get_or-write_at_inside :
      (off : ℕ) (bs buf : List A) (j : ℕ) (d : A)
      → off ≤ j
      → j < off + length bs
      → j < length buf
      → get_or (write_at off bs buf) j d ≡ get_or bs (j - off) d
  unfolding write_at
  get_or-write_at_inside off bs [] j d o p q = absurd (omega arith)
  get_or-write_at_inside zero [] (y ∷ ys) j d o p q = absurd (omega arith)
  get_or-write_at_inside zero (b ∷ bs) (y ∷ ys) zero d o p q = refl
  get_or-write_at_inside zero (b ∷ bs) (y ∷ ys) (suc j) d o p q = rw (sub_zero (suc j)) (
      get_or-write_at_inside zero bs ys j d (omega arith) (omega arith) (omega arith)
      ∙ ap (λ (k : ℕ). get_or bs k d) (sub_zero j))
  get_or-write_at_inside (suc off) bs (y ∷ ys) zero d o p q = absurd (omega arith)
  get_or-write_at_inside (suc off) bs (y ∷ ys) (suc j) d o p q =
      rw (sub_suc j off)
        (get_or-write_at_inside off bs ys j d (omega arith) (omega arith) (omega arith))

  -- and outside it the old ones.
  pub get_or-write_at_outside :
      (off : ℕ) (bs buf : List A) (j : ℕ) (d : A)
      → (j < off) ⊎ (off + length bs ≤ j)
      → get_or (write_at off bs buf) j d ≡ get_or buf j d
  unfolding write_at
  get_or-write_at_outside off bs [] j d p = refl
  get_or-write_at_outside zero [] (y ∷ ys) j d p = refl
  get_or-write_at_outside zero (b ∷ bs) (y ∷ ys) zero d p = absurd (omega arith)
  get_or-write_at_outside zero (b ∷ bs) (y ∷ ys) (suc j) d p =
      get_or-write_at_outside zero bs ys j d (inr (omega arith))
  get_or-write_at_outside (suc off) bs (y ∷ ys) zero d p = refl
  get_or-write_at_outside (suc off) bs (y ∷ ys) (suc j) d p =
      get_or-write_at_outside off bs ys j d (omega arith)

-- Lists that agree below `n`, read with a default.
module _ {ℓ} {A : Type ℓ} (d : A) where
  abbrev pub Agree : ℕ → List A → List A → Type ℓ
  Agree n xs ys = (i : ℕ) → i < n → get_or xs i d ≡ get_or ys i d

  pub take_ext :
      (n : ℕ) (xs ys : List A)
      → n ≤ length xs
      → n ≤ length ys
      → Agree n xs ys
      → take n xs ≡ take n ys
  take_ext zero xs ys p q h = refl
  take_ext (suc n) [] ys p q h = absurd (omega arith)
  take_ext (suc n) (x ∷ xs) [] p q h = absurd (omega arith)
  take_ext (suc n) (x ∷ xs) (y ∷ ys) p q h =
      ap₂ ◌∷◌ (h 0 (omega arith))
        (take_ext n xs ys (omega arith) (omega arith) (λ i lt. h (suc i) (omega arith)))

  pub get_or-drop : (n : ℕ) (xs : List A) (i : ℕ) → get_or (drop n xs) i d ≡ get_or xs (n + i) d
  get_or-drop zero xs i = ap (λ (k : ℕ). get_or xs k d) (omega arith)
  get_or-drop (suc n) [] i = refl
  get_or-drop (suc n) (x ∷ xs) i = rw (suc_add n i) (get_or-drop n xs i)
