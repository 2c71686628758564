-- ===== src/Shm/Stack/Invariant.antt =====
-- The invariant of the shared free list, and the steps that publish no head.
use receiver.Prelude.{
  ℕ, ◌+◌, ◌<◌, ◌≤◌, ◌≡◌, ◌≢◌, ◌⊎◌, ◌^◌, inl, inr, refl, ap, sym, ◌∙◌, subst, arith, Bool, true,
  false, ◌==◌, u32, List, [], ◌∷◌, Option, some, none, Bool-cases, ℕ_discrete, ==_refl, ne→not_==,
  Distinct, contains,
}
use mathlib.Core.Bool.{false≢true}
use receiver.Shm.Layout.{list_end}
use receiver.Shm.Memory.{Bytes, update, read64}
use receiver.Shm.Segment.{slot_at}
use receiver.Shm.Arena.{head_idx, head_gen}
use receiver.Shm.Arena.FreeList.{IsChain}
use receiver.Shm.Stack.{
  Worker, idle, alloc_loaded, alloc_read, allocated, free_loaded, free_linked, Stack, wrote,
}

-- The worker has the slot to itself.
unfoldable pub holds : ℕ → Worker → Bool
holds x idle = false
holds x (alloc_loaded old) = false
holds x (alloc_read old next) = false
holds x (allocated slot) = slot == x
holds x (free_loaded slot old) = slot == x
holds x (free_linked slot old) = slot == x

-- The head that the worker has loaded.
unfoldable pub snapshot : Worker → Option ℕ
snapshot idle = none
snapshot (alloc_loaded old) = some old
snapshot (alloc_read old next) = some old
snapshot (allocated slot) = none
snapshot (free_loaded slot old) = some old
snapshot (free_linked slot old) = some old

-- A head of the generation that `j` exchanges lead to.
abbrev pub IsTaken : ℕ → Stack → ℕ → Type 0
IsTaken gen s old = (j : ℕ) × (j ≤ s.done) × (head_gen old ≡ u32 (gen + j))

-- What a worker knows of the link that it read, and of the one that it wrote.
abbrev pub KnowsNext : Stack → ℕ → ℕ → Type 0
KnowsNext s old next =
    (head_idx old ≢ list_end)
    × (next < 2 ^ 32)
    × (old ≡ s.head → next ≡ u32 (read64 s.arena (slot_at (head_idx old))))

abbrev pub link_at : Bytes → ℕ → ℕ
link_at arena x = u32 (read64 arena (slot_at x))

-- `gen` is the generation at the start, `count` the number of slots.
pub record IsStack (count gen : ℕ) (s : Stack) : Type 0 where
  pub free : List ℕ
  pub small : count < list_end
  pub chain : IsChain s.arena count (head_idx s.head) free
  pub distinct : Distinct free
  pub generation : head_gen s.head ≡ u32 (gen + s.done)
  pub taken : (i old : ℕ) → snapshot (s.workers i) ≡ some old → IsTaken gen s old
  pub current : (i old next : ℕ) → s.workers i ≡ alloc_read old next → KnowsNext s old next
  pub linked : (i x old : ℕ) → s.workers i ≡ free_linked x old → link_at s.arena x ≡ head_idx old
  pub held : (i x : ℕ) → holds x (s.workers i) ≡ true → (x < count) × (contains x free ≡ false)
  pub single : (i j x : ℕ) → holds x (s.workers i) ≡ true → holds x (s.workers j) ≡ true → i ≡ j
  pub kept :
      (x : ℕ) → x < count → contains x free ≡ false → (i : ℕ) × (holds x (s.workers i) ≡ true)

pub IsChain-same :
    (m m' : Bytes) (count : ℕ) (free : List ℕ) (top : ℕ)
    → ((y : ℕ) → contains y free ≡ true → link_at m' y ≡ link_at m y)
    → IsChain m count top free
    → IsChain m' count top free
unfolding contains
IsChain-same m m' count [] top same c = c
IsChain-same m m' count (x ∷ rest) top same c = (
  c.0,
  c.1,
  subst (λ (l : ℕ). IsChain m' count l rest) (sym (same x (rw (==_refl x) refl)))
      (IsChain-same m m' count rest _ (λ y there. same y (ground arith)) c.2),
)

pub update-cases {ℓ} :
    {A : Type ℓ} (f : ℕ → A) (i j : ℕ) (a : A)
    → ((i ≡ j) × (update f i a j ≡ a)) ⊎ ((i ≢ j) × (update f i a j ≡ f j))
update-cases f i j a = elim (ℕ_discrete i j) [
  | yes own ↦ inl (own, rw (own, ==_refl j) refl)
  | no other ↦ inr (other, rw (ne→not_== i j other) refl)
]

-- The top of a list that is not empty is in it.
pub top-contains :
    (m : Bytes) (count top : ℕ) (free : List ℕ)
    → IsChain m count top free
    → top ≢ list_end
    → contains top free ≡ true
unfolding contains
top-contains m count top [] c ne = absurd (ne c)
top-contains m count top (x ∷ rest) c ne = rw (c.0, ==_refl x) refl

module _ (count gen : ℕ) (s : Stack) (v : IsStack count gen s) (i : ℕ) (w : Worker) (arena : Bytes)
    (same : (y : ℕ) → holds y (s.workers i) ≡ false → link_at arena y ≡ link_at s.arena y)
    (holds_same : (x : ℕ) → holds x w ≡ holds x (s.workers i)) where
  not_held : (y : ℕ) → contains y v.free ≡ true → holds y (s.workers i) ≡ false
  not_held y there = elim (Bool-cases (holds y (s.workers i))) [
    | inl has ↦ absurd (false≢true (sym (v.held i y has).1 ∙ there))
    | inr free ↦ free
  ]

  holds_before : (j x : ℕ) → holds x (update s.workers i w j) ≡ holds x (s.workers j)
  holds_before j x = elim (update-cases s.workers i j w) [
    | inl (own, e) ↦ ap (holds x) e ∙ holds_same x ∙ ap (λ (k : ℕ). holds x (s.workers k)) own
    | inr (other, e) ↦ ap (holds x) e
  ]

  -- A link that was read stays right while the head is what was loaded.
  kept_next : (old next : ℕ) → KnowsNext s old next → KnowsNext (wrote s arena i w) old next
  kept_next old next (ne, fits, right) = (
    ne,
    fits,
    λ e.
        right e
        ∙ sym (
            same (head_idx old) (
              not_held (head_idx old) (
                top-contains s.arena count (head_idx old) v.free
                  (subst (λ (h : ℕ). IsChain s.arena count (head_idx h) v.free) (sym e) v.chain)
                  ne))),
  )

  -- Another worker's slot is not this one's.
  not_mine : (j x old : ℕ) → i ≢ j → s.workers j ≡ free_linked x old → holds x (s.workers i) ≡ false
  unfolding holds
  not_mine j x old other e = elim (Bool-cases (holds x (s.workers i))) [
    | inl mine ↦ absurd (other (v.single i j x mine (ap (holds x) e ∙ ==_refl x)))
    | inr free ↦ free
  ]

  pub wrote-IsStack :
      ((old : ℕ) → snapshot w ≡ some old → IsTaken gen s old)
      → ((old next : ℕ) → w ≡ alloc_read old next → KnowsNext s old next)
      → ((x old : ℕ) → w ≡ free_linked x old → link_at arena x ≡ head_idx old)
      → IsStack count gen (wrote s arena i w)
  wrote-IsStack taken current linked = record {
    free = v.free;
    small = v.small;
    chain =
        IsChain-same s.arena arena count v.free _ (λ y there. same y (not_held y there)) v.chain;
    distinct = v.distinct;
    generation = v.generation;
    taken = λ j old e. elim (update-cases s.workers i j w) [
      | inl (own, at) ↦ taken old (sym (ap snapshot at) ∙ e)
      | inr (other, at) ↦ v.taken j old (sym (ap snapshot at) ∙ e)
    ];
    current = λ j old next e. elim (update-cases s.workers i j w) [
      | inl (own, at) ↦ kept_next old next (current old next (sym at ∙ e))
      | inr (other, at) ↦ kept_next old next (v.current j old next (sym at ∙ e))
    ];
    linked = λ j x old e. elim (update-cases s.workers i j w) [
      | inl (own, at) ↦ linked x old (sym at ∙ e)
      | inr (other, at) ↦
          same x (not_mine j x old other (sym at ∙ e)) ∙ v.linked j x old (sym at ∙ e)
    ];
    held = λ j x h. v.held j x (sym (holds_before j x) ∙ h);
    single = λ j k x h g. v.single j k x (sym (holds_before j x) ∙ h) (sym (holds_before k x) ∙ g);
    kept = λ x lt out. let (j, h) = v.kept x lt out in (j, holds_before j x ∙ h);
  }
