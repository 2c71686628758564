-- ===== src/Prelude/NoRepeat.antt =====
-- Lists of numbers with no repetition, and how long they can be.
use Prim.Native.Nat.{ℕ, zero, suc, ◌≤◌, ◌<◌}
use mathlib.Core.Path.{◌≡◌}
use mathlib.Core.Logic.{◌≢◌}
use mathlib.Core.Bool.{Bool, false, ◌||◌}
use mathlib.Core.List.{List, [], ◌∷◌}
use native.Mathlib.Decide.{ℕ_discrete}
use native.Mathlib.Omega.{arith}
use receiver.Prelude.Tests.{◌==◌, if◌then◌else◌}
use receiver.Prelude.Lists.{length}

abbrev pub Absent : ℕ → List ℕ → Type 0
Absent a [] = Unit {0}
Absent a (x ∷ xs) = (a ≢ x) × Absent a xs

abbrev pub Distinct : List ℕ → Type 0
Distinct [] = Unit {0}
Distinct (x ∷ xs) = Absent x xs × Distinct xs

abbrev pub AllBelow : ℕ → List ℕ → Type 0
AllBelow n [] = Unit {0}
AllBelow n (x ∷ xs) = (x < n) × AllBelow n xs

without : ℕ → List ℕ → List ℕ
without a [] = []
without a (x ∷ xs) = if x == a then xs else x ∷ without a xs

length-without : (a : ℕ) (xs : List ℕ) → length xs ≤ suc (length (without a xs))
unfolding without
length-without a [] = omega arith
length-without a (x ∷ xs) = ground (arith, length-without a xs)

Absent-without : (b a : ℕ) (xs : List ℕ) → Absent b xs → Absent b (without a xs)
unfolding without
Absent-without b a [] h = tt
Absent-without b a (x ∷ xs) h = ground (arith, Absent-without b a xs h.1)

Distinct-without : (a : ℕ) (xs : List ℕ) → Distinct xs → Distinct (without a xs)
unfolding without
Distinct-without a [] h = tt
Distinct-without a (x ∷ xs) h = ground (arith, Distinct-without a xs h.1, Absent-without x a xs h.0)

AllBelow-Absent : (n : ℕ) (xs : List ℕ) → Absent n xs → AllBelow (suc n) xs → AllBelow n xs
AllBelow-Absent n [] h b = tt
AllBelow-Absent n (x ∷ xs) h b = (omega arith, AllBelow-Absent n xs h.1 b.1)

AllBelow-without :
    (n : ℕ) (xs : List ℕ) → Distinct xs → AllBelow (suc n) xs → AllBelow n (without n xs)
unfolding without
AllBelow-without n [] d b = tt
AllBelow-without n (x ∷ xs) d b = elim (ℕ_discrete x n) [
  | yes e ↦ ground (arith, AllBelow-Absent x xs d.0, b.1)
  | no ne ↦ ground (arith, AllBelow-without n xs d.1 b.1)
]

-- Distinct numbers below `n` are at most `n` many.
pub length-le-AllBelow : (n : ℕ) (xs : List ℕ) → Distinct xs → AllBelow n xs → length xs ≤ n
length-le-AllBelow zero [] d b = omega arith
length-le-AllBelow zero (x ∷ xs) d b = absurd (omega arith)
length-le-AllBelow (suc n) xs d b = omega (
  arith,
  length-without n xs,
  length-le-AllBelow n (without n xs) (Distinct-without n xs d) (AllBelow-without n xs d b),
)

-- Whether a number stands in a list.
unfoldable pub contains : ℕ → List ℕ → Bool
contains a [] = false
contains a (x ∷ xs) = a == x || contains a xs

pub Absent-contains : (a : ℕ) (xs : List ℕ) → contains a xs ≡ false → Absent a xs
unfolding contains
Absent-contains a [] h = tt
Absent-contains a (x ∷ xs) h = ground (arith, Absent-contains a xs)

pub contains-cons_false :
    (a x : ℕ) (xs : List ℕ) → contains a (x ∷ xs) ≡ false → (a ≢ x) × (contains a xs ≡ false)
unfolding contains
contains-cons_false a x xs h = (ground arith, ground arith)

pub contains-cons_miss :
    (a x : ℕ) (xs : List ℕ) → a ≢ x → contains a xs ≡ false → contains a (x ∷ xs) ≡ false
unfolding contains
contains-cons_miss a x xs ne h = ground arith

pub contains-Absent : (a : ℕ) (xs : List ℕ) → Absent a xs → contains a xs ≡ false
unfolding contains
contains-Absent a [] h = ground arith
contains-Absent a (x ∷ xs) h = ground (arith, h.0, contains-Absent a xs h.1)
