-- ===== src/Shm/Memory.antt =====
-- Bytes of the arena by their offset from its start, and the 8-byte link at the start of a slot.
use receiver.Prelude.{
  ℕ, zero, suc, ◌*◌, ◌/◌, ◌^◌, ◌+◌, ◌<◌, ◌≤◌, ◌≡◌, refl, ap, arith, u8, u32, ◌⊎◌, List, [], ◌∷◌,
  length, get_or, if◌then◌else◌, ◌==◌,
}

abbrev pub Bytes : Type 0
Bytes = ℕ → ℕ

-- A map from numbers, changed at one.
abbrev pub update {ℓ} : {A : Type ℓ} → (ℕ → A) → ℕ → A → ℕ → A
update f i a j = if i == j then a else f j

-- `memcpy` to `at`.
unfoldable pub store : Bytes → ℕ → List ℕ → Bytes
store mem at [] = mem
store mem at (b ∷ bs) = update (store mem (at + 1) bs) at b

-- `*node` of a `uint64_t*` at `at`, little-endian.
unfoldable pub read64 : Bytes → ℕ → ℕ
read64 mem at =
    mem at
    + mem (at + 1) * 2 ^ 8
    + mem (at + 2) * 2 ^ 16
    + mem (at + 3) * 2 ^ 24
    + mem (at + 4) * 2 ^ 32
    + mem (at + 5) * 2 ^ 40
    + mem (at + 6) * 2 ^ 48
    + mem (at + 7) * 2 ^ 56

abbrev bytes64 : ℕ → List ℕ
bytes64 v =
    u8 v
    ∷ u8 (v / 2 ^ 8)
    ∷ u8 (v / 2 ^ 16)
    ∷ u8 (v / 2 ^ 24)
    ∷ u8 (v / 2 ^ 32)
    ∷ u8 (v / 2 ^ 40)
    ∷ u8 (v / 2 ^ 48)
    ∷ u8 (v / 2 ^ 56)
    ∷ []

-- `*node = v`.
unfoldable pub write64 : Bytes → ℕ → ℕ → Bytes
unfolding store
write64 mem at v = store mem at (bytes64 v)

pub store-outside :
    (bs : List ℕ) (mem : Bytes) (at j : ℕ)
    → (j < at) ⊎ (at + length bs ≤ j)
    → store mem at bs j ≡ mem j
unfolding store
store-outside [] mem at j h = refl
store-outside (b ∷ bs) mem at j h = ground (arith, store-outside bs mem (at + 1) j)

pub store-inside :
    (bs : List ℕ) (mem : Bytes) (at k : ℕ)
    → k < length bs
    → store mem at bs (at + k) ≡ get_or bs k 0
unfolding store
store-inside [] mem at k h = absurd (omega arith)
store-inside (b ∷ bs) mem at zero h = ground arith
store-inside (b ∷ bs) mem at (suc k) h =
    ground (arith, store-inside bs mem (at + 1) k, ap (store mem (at + 1) bs) (shift at k))
  where
    shift : (o i : ℕ) → o + suc i ≡ o + 1 + i
    shift o i = omega arith

write64-inside :
    (mem : Bytes) (at v k : ℕ) → k < 8 → write64 mem at v (at + k) ≡ get_or (bytes64 v) k 0
unfolding write64
write64-inside mem at v k h = store-inside (bytes64 v) mem at k h

write64-first : (mem : Bytes) (at v : ℕ) → write64 mem at v at ≡ u8 v
unfolding write64 store
write64-first mem at v = ground arith

-- A link that fits 32 bits is read back.
pub read64-write64 : (mem : Bytes) (at v : ℕ) → v < 2 ^ 32 → u32 (read64 (write64 mem at v) at) ≡ v
unfolding read64
read64-write64 mem at v h = omega (
  arith,
  write64-first mem at v,
  write64-inside mem at v 1 (omega arith),
  write64-inside mem at v 2 (omega arith),
  write64-inside mem at v 3 (omega arith),
  write64-inside mem at v 4 (omega arith),
  write64-inside mem at v 5 (omega arith),
  write64-inside mem at v 6 (omega arith),
  write64-inside mem at v 7 (omega arith),
)

-- Bytes elsewhere are not touched by a link.
pub write64-outside :
    (mem : Bytes) (at v j : ℕ) → (j < at) ⊎ (at + 8 ≤ j) → write64 mem at v j ≡ mem j
unfolding write64
write64-outside mem at v j h = store-outside (bytes64 v) mem at j h

pub read64_cong :
    (m m' : Bytes) (at : ℕ)
    → ((k : ℕ) → k < 8 → m (at + k) ≡ m' (at + k))
    → read64 m at ≡ read64 m' at
unfolding read64
read64_cong m m' at h =
    ground (arith, h 0, h 1, h 2, h 3, h 4, h 5, h 6, h 7, ap m (plus0 at), ap m' (plus0 at))
  where
    plus0 : (o : ℕ) → o + 0 ≡ o
    plus0 o = omega arith

-- The `len` bytes at `at`.
unfoldable pub load : Bytes → ℕ → ℕ → List ℕ
load mem at zero = []
load mem at (suc len) = mem at ∷ load mem (at + 1) len
