-- ===== src/Prelude/Bits.antt =====
-- Laws of the native bit operations at variables. An operation is stepped by its lowest digit, and
-- `bit b w` is the binary digit of weight `2 ^ b`.
use Prim.Native.Nat.{ℕ, zero, suc, ◌+◌, ◌-◌, ◌*◌, ◌/◌, ◌%◌, ◌^◌, ◌≤◌, ◌<◌, min, max}
use Prim.Native.Nat.{bit_and, bit_or, bit_xor, digits, differ}
use Prim.Native.Nat.{bit_and-bitwise, bit_or-bitwise, bit_xor-bitwise}
use mathlib.Core.Path.{◌≡◌, refl, ap}
use mathlib.Core.Logic.{◌≢◌}
use native.Mathlib.Nat.{pow-suc, one-le-pow}
use native.Mathlib.Omega.{arith}

-- Any count of digits that covers the first number gives the same result.
module _ (z : ℕ → ℕ) (f : ℕ → ℕ → ℕ) where
  digits_enough : (c d a b : ℕ) → a ≤ c → a ≤ d → digits z f c a b ≡ digits z f d a b
  digits_enough zero d zero b p q = digits_zero d b
    where
      digits_zero : (e y : ℕ) → z y ≡ digits z f e 0 y
      digits_zero zero y = refl
      digits_zero (suc e) y = refl
  digits_enough zero d (suc a) b p q = absurd (omega arith)
  digits_enough (suc c) zero zero b p q = refl
  digits_enough (suc c) zero (suc a) b p q = absurd (omega arith)
  digits_enough (suc c) (suc d) zero b p q = refl
  digits_enough (suc c) (suc d) (suc a) b p q =
      ap (λ (t : ℕ). t * 2 + f (suc a % 2) (b % 2))
        (digits_enough c d (suc a / 2) (b / 2) (omega arith) (omega arith))

  digits_step :
      (a b : ℕ)
      → digits z f (suc a) (suc a) b
        ≡ digits z f (suc a / 2) (suc a / 2) (b / 2) * 2 + f (suc a % 2) (b % 2)
  digits_step a b =
      ap (λ (t : ℕ). t * 2 + f (suc a % 2) (b % 2))
        (digits_enough a (suc a / 2) (suc a / 2) (b / 2) (omega arith) (omega arith))

pub bit_and-step : (a b : ℕ) → bit_and a b ≡ 2 * bit_and (a / 2) (b / 2) + min (a % 2) (b % 2)
bit_and-step zero b = simp bit_and-bitwise (omega arith)
bit_and-step (suc a) b = simp bit_and-bitwise (omega (arith, digits_step (λ y. 0) min a b))

pub bit_or-step : (a b : ℕ) → bit_or a b ≡ 2 * bit_or (a / 2) (b / 2) + max (a % 2) (b % 2)
bit_or-step zero b = simp bit_or-bitwise (omega arith)
bit_or-step (suc a) b = simp bit_or-bitwise (omega (arith, digits_step (λ y. y) max a b))

-- A zero on the right, by a bound that covers the number.
zero_right : (bound w : ℕ) → w ≤ bound → (bit_and w 0 ≡ 0) × (bit_or w 0 ≡ w)
zero_right bound zero fits = (refl, refl)
zero_right zero (suc w) fits = absurd (omega arith)
zero_right (suc bound) (suc w) fits =
    let (conj, disj) = zero_right bound (suc w / 2) (omega arith) in
    (omega (arith, bit_and-step (suc w) 0, conj), omega (arith, bit_or-step (suc w) 0, disj))

pub bit_and-zero : (a : ℕ) → bit_and a 0 ≡ 0
bit_and-zero a = (zero_right a a (omega arith)).0

pub bit_or-zero : (a : ℕ) → bit_or a 0 ≡ a
bit_or-zero a = (zero_right a a (omega arith)).1

scale_suc : (q k : ℕ) → q * 2 ^ suc k ≡ 2 * (q * 2 ^ k)
scale_suc q k = omega (arith, ap (λ (t : ℕ). q * t) (pow-suc 2 k))

-- Fields that do not overlap are joined by addition, the high one first.
pub bit_or-high : (k hi lo : ℕ) → lo < 2 ^ k → bit_or (hi * 2 ^ k) lo ≡ hi * 2 ^ k + lo
bit_or-high zero hi lo h = ground (arith, bit_or-zero hi)
bit_or-high (suc k) hi lo h = ground (
  arith,
  scale_suc hi k,
  pow-suc 2 k,
  bit_or-step (hi * 2 ^ suc k) lo,
  bit_or-high k hi (lo / 2) (omega (arith, pow-suc 2 k)),
)

-- And the low one first.
pub bit_or-low : (k lo hi : ℕ) → lo < 2 ^ k → bit_or lo (hi * 2 ^ k) ≡ lo + hi * 2 ^ k
bit_or-low zero zero hi h = simp bit_or-bitwise (omega arith)
bit_or-low zero (suc lo) hi h = absurd (omega arith)
bit_or-low (suc k) lo hi h = ground (
  arith,
  scale_suc hi k,
  pow-suc 2 k,
  bit_or-step lo (hi * 2 ^ suc k),
  bit_or-low k (lo / 2) hi (omega (arith, pow-suc 2 k)),
)

-- A mask of `k` ones keeps the remainder by `2 ^ k`.
pub bit_and-ones : (k q r : ℕ) → r < 2 ^ k → bit_and (q * 2 ^ k + r) (2 ^ k - 1) ≡ r
bit_and-ones zero q r h = ground (arith, bit_and-zero (q * 1 + r))
bit_and-ones (suc k) q r h = ground (
  arith,
  scale_suc q k,
  pow-suc 2 k,
  one-le-pow k 2,
  bit_and-step (q * 2 ^ suc k + r) (2 ^ suc k - 1),
  bit_and-ones k q (r / 2) (omega (arith, pow-suc 2 k)),
)

-- The binary digit of weight `2 ^ b`.
unfoldable pub bit : ℕ → ℕ → ℕ
bit zero w = w % 2
bit (suc b) w = bit b (w / 2)

pub bit-lt : (b w : ℕ) → bit b w < 2
unfolding bit
bit-lt zero w = omega arith
bit-lt (suc b) w = bit-lt b (w / 2)

pub bit-zero : (b : ℕ) → bit b 0 ≡ 0
unfolding bit
bit-zero zero = refl
bit-zero (suc b) = bit-zero b

-- Testing with a one-bit mask reads the digit.
pub bit_and_power : (b w : ℕ) → bit_and w (2 ^ b) ≡ bit b w * 2 ^ b
unfolding bit
bit_and_power zero w = ground (arith, bit_and-step w 1, bit_and-zero (w / 2))
bit_and_power (suc b) w = ground (
  arith,
  pow-suc 2 b,
  one-le-pow b 2,
  scale_suc (bit b (w / 2)) b,
  bit_and-step w (2 ^ suc b),
  bit_and_power b (w / 2),
)

-- Setting with a one-bit mask makes that digit one,
pub bit-set_self : (b w : ℕ) → bit b (bit_or w (2 ^ b)) ≡ 1
unfolding bit
bit-set_self zero w = ground (arith, bit_or-step w 1)
bit-set_self (suc b) w = rw half_or (bit-set_self b (w / 2))
  where
    half_or : bit_or w (2 ^ suc b) / 2 ≡ bit_or (w / 2) (2 ^ b)
    half_or = ground (arith, pow-suc 2 b, bit_or-step w (2 ^ suc b))

-- and leaves the others alone.
pub bit-set_ne : (b c w : ℕ) → b ≢ c → bit c (bit_or w (2 ^ b)) ≡ bit c w
unfolding bit
bit-set_ne zero zero w h = absurd (h refl)
bit-set_ne zero (suc c) w h = ap (bit c) half_or
  where
    half_or : bit_or w 1 / 2 ≡ w / 2
    half_or = ground (arith, bit_or-step w 1, bit_or-zero (w / 2))
bit-set_ne (suc b) zero w h = ground (arith, pow-suc 2 b, bit_or-step w (2 ^ suc b))
bit-set_ne (suc b) (suc c) w h = rw half_or (bit-set_ne b c (w / 2) (λ e. h (ap suc e)))
  where
    half_or : bit_or w (2 ^ suc b) / 2 ≡ bit_or (w / 2) (2 ^ b)
    half_or = ground (arith, pow-suc 2 b, bit_or-step w (2 ^ suc b))

pub bit_xor-step : (a b : ℕ) → bit_xor a b ≡ 2 * bit_xor (a / 2) (b / 2) + differ (a % 2) (b % 2)
bit_xor-step zero b = simp bit_xor-bitwise (ground arith)
bit_xor-step (suc a) b = simp bit_xor-bitwise (omega (arith, digits_step (λ y. y) differ a b))

differ-digits : (x y : ℕ) → x < 2 → y < 2 → differ x y < 2
differ-digits zero y p q = q
differ-digits (suc zero) zero p q = omega arith
differ-digits (suc zero) (suc y) p q = omega arith
differ-digits (suc (suc x)) y p q = absurd (omega arith)

differ-lt : (a b : ℕ) → differ (a % 2) (b % 2) < 2
differ-lt a b = differ-digits (a % 2) (b % 2) (omega arith) (omega arith)

-- Exclusive or of two numbers of `k` digits has `k` digits.
pub bit_xor-lt : (k a b : ℕ) → a < 2 ^ k → b < 2 ^ k → bit_xor a b < 2 ^ k
bit_xor-lt zero zero zero p q = omega arith
bit_xor-lt zero zero (suc b) p q = absurd (omega arith)
bit_xor-lt zero (suc a) b p q = absurd (omega arith)
bit_xor-lt (suc k) a b p q = omega (
  arith,
  pow-suc 2 k,
  bit_xor-step a b,
  differ-lt a b,
  bit_xor-lt k (a / 2) (b / 2) (omega (arith, pow-suc 2 k)) (omega (arith, pow-suc 2 k)),
)
