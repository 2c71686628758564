-- ===== src/Codec/Choose.antt =====
-- rs_codec.cpp: the symbols that `decode` chooses.
use receiver.Prelude.{
  ℕ, zero, suc, ◌+◌, ◌<◌, ◌≤◌, ◌≡◌, inl, inr, Bool, true, false, refl, ap, ◌∙◌, arith, Bool-cases,
  List, [], ◌∷◌, length, min, count, of_bool, count_cong, Absent, Distinct,
}
use receiver.Codec.{choose}

-- Ids in increasing order from `lo`, below `hi`, each of a symbol that is present.
abbrev pub IsChoice : (ℕ → Bool) → ℕ → ℕ → List ℕ → Type 0
IsChoice present lo hi [] = Unit {0}
IsChoice present lo hi (x ∷ xs) =
    (lo ≤ x) × (x < hi) × (present x ≡ true) × IsChoice present (x + 1) hi xs

IsChoice-weaken :
    (present : ℕ → Bool) (lo lo' hi : ℕ) (xs : List ℕ)
    → lo ≤ lo'
    → IsChoice present lo' hi xs
    → IsChoice present lo hi xs
IsChoice-weaken present lo lo' hi [] h c = tt
IsChoice-weaken present lo lo' hi (x ∷ xs) h (a, b, p, rest) = (omega arith, b, p, rest)

module _ (rounds want i : ℕ) (present : ℕ → Bool) where
  choose-there :
      present i ≡ true
      → choose (suc rounds) present (suc want) i ≡ i ∷ choose rounds present want (i + 1)
  unfolding choose
  choose-there h = rw (h, choose) refl

  choose-out :
      present i ≡ false
      → choose (suc rounds) present (suc want) i ≡ choose rounds present (suc want) (i + 1)
  unfolding choose
  choose-out h = rw (h, choose) refl

pub choose-IsChoice :
    (rounds want i hi : ℕ) (present : ℕ → Bool)
    → i + rounds ≤ hi
    → IsChoice present i hi (choose rounds present want i)
unfolding choose
choose-IsChoice zero want i hi present h = tt
choose-IsChoice (suc rounds) zero i hi present h = tt
choose-IsChoice (suc rounds) (suc want) i hi present h = elim (Bool-cases (present i)) [
  | inl there ↦ rw (choose-there rounds want i present there) (
    omega arith,
    omega arith,
    there,
    choose-IsChoice rounds want (i + 1) hi present (omega arith),
  )
  | inr out ↦ rw (choose-out rounds want i present out) (
      IsChoice-weaken present i (i + 1) hi _ (omega arith)
        (choose-IsChoice rounds (suc want) (i + 1) hi present (omega arith)))
]

-- A choice repeats no id.
IsChoice-Absent :
    (present : ℕ → Bool) (y lo hi : ℕ) (xs : List ℕ)
    → y < lo
    → IsChoice present lo hi xs
    → Absent y xs
IsChoice-Absent present y lo hi [] h c = tt
IsChoice-Absent present y lo hi (x ∷ xs) h (a, b, p, rest) =
    ((λ e. omega arith), IsChoice-Absent present y (x + 1) hi xs (omega arith) rest)

pub IsChoice-Distinct :
    (present : ℕ → Bool) (lo hi : ℕ) (xs : List ℕ) → IsChoice present lo hi xs → Distinct xs
IsChoice-Distinct present lo hi [] c = tt
IsChoice-Distinct present lo hi (x ∷ xs) (a, b, p, rest) = (
  IsChoice-Absent present x (x + 1) hi xs (omega arith) rest,
  IsChoice-Distinct present (x + 1) hi xs rest,
)

-- Counting from the front.
count_front : (n : ℕ) (p : ℕ → Bool) → count (suc n) p ≡ of_bool (p 0) + count n (λ j. p (suc j))
unfolding count
count_front zero p = omega arith
count_front (suc n) p = omega (arith, count_front n p)

count_shift :
    (rounds i : ℕ) (present : ℕ → Bool)
    → count rounds (λ j. present (suc j + i)) ≡ count rounds (λ j. present (j + (i + 1)))
count_shift rounds i present =
    count_cong rounds (λ j. present (suc j + i)) (λ j. present (j + (i + 1)))
      (λ j lt. ap present (omega arith))

-- As many are chosen as are wanted, or as there are.
pub length-choose :
    (rounds want i : ℕ) (present : ℕ → Bool)
    → length (choose rounds present want i) ≡ min want (count rounds (λ j. present (j + i)))
unfolding choose count
length-choose zero want i present = omega arith
length-choose (suc rounds) zero i present = omega arith
length-choose (suc rounds) (suc want) i present = elim (Bool-cases (present i)) [
  | inl there ↦ rw (choose-there rounds want i present there) (
      omega (
        arith,
        front,
        ap of_bool there,
        count_shift rounds i present,
        length-choose rounds want (i + 1) present,
      ))
  | inr out ↦ rw (choose-out rounds want i present out) (
      omega (
        arith,
        front,
        ap of_bool out,
        count_shift rounds i present,
        length-choose rounds (suc want) (i + 1) present,
      ))
]
  where
    front :
        count (suc rounds) (λ j. present (j + i))
        ≡ of_bool (present i) + count rounds (λ j. present (suc j + i))
    front =
        count_front rounds (λ j. present (j + i))
        ∙ ap (λ (x : ℕ). of_bool (present x) + count rounds (λ j. present (suc j + i)))
            (omega arith)
