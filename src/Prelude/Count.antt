-- ===== src/Prelude/Count.antt =====
-- How many numbers below a bound pass a test.
use Prim.Native.Nat.{ℕ, zero, suc, ◌+◌, ◌≤◌, ◌<◌}
use mathlib.Core.Path.{◌≡◌, refl}
use mathlib.Core.Logic.{◌≢◌}
use mathlib.Core.Bool.{Bool, true, false}
use native.Mathlib.Decide.{ℕ_discrete}
use native.Mathlib.Omega.{arith}

abbrev pub of_bool : Bool → ℕ
of_bool true = 1
of_bool false = 0

unfoldable pub count : ℕ → (ℕ → Bool) → ℕ
count zero p = 0
count (suc n) p = count n p + of_bool (p n)

pub count-le : (n : ℕ) (p : ℕ → Bool) → count n p ≤ n
unfolding count
count-le zero p = omega arith
count-le (suc n) p = ground (arith, count-le n p)

pub count_cong : (n : ℕ) (p q : ℕ → Bool) → ((i : ℕ) → i < n → p i ≡ q i) → count n p ≡ count n q
unfolding count
count_cong zero p q h = refl
count_cong (suc n) p q h =
    ground (arith, h n (omega arith), count_cong n p q (λ i lt. h i (omega arith)))

pub count-zero : (n : ℕ) (p : ℕ → Bool) → ((i : ℕ) → i < n → p i ≡ false) → count n p ≡ 0
unfolding count
count-zero zero p h = refl
count-zero (suc n) p h =
    ground (arith, h n (omega arith), count-zero n p (λ i lt. h i (omega arith)))

-- One more number passes.
pub count_insert :
    (n : ℕ) (p q : ℕ → Bool) (a : ℕ)
    → a < n
    → p a ≡ false
    → q a ≡ true
    → ((i : ℕ) → i ≢ a → q i ≡ p i)
    → count n q ≡ count n p + 1
unfolding count
count_insert zero p q a lt off on same = absurd (omega arith)
count_insert (suc n) p q a lt off on same = elim (ℕ_discrete n a) [
  | yes e ↦ ground (arith, count_cong n q p (λ i i_lt. same i (omega arith)), ap_p, ap_q)
  | no ne ↦ ground (arith, same n ne, count_insert n p q a (omega arith) off on same)
]
  where
    ap_p : n ≡ a → p n ≡ false
    ap_p e = rw e off

    ap_q : n ≡ a → q n ≡ true
    ap_q e = rw e on
