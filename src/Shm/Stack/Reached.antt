-- ===== src/Shm/Stack/Reached.antt =====
-- What holds of the free list in every state that interleaved calls reach.
use receiver.Prelude.{
  ℕ, ◌+◌, ◌<◌, ◌≤◌, ◌≡◌, ◌≢◌, ◌^◌, refl, ap, sym, ◌∙◌, subst, arith, true, false, ◌==◌, u32, List,
  some, Distinct, contains, length,
}
use mathlib.Core.Bool.{false≢true}
use mathlib.Core.Option.{some-injective, some-ne-none}
use receiver.Shm.Layout.{list_end, slot_size}
use receiver.Shm.Memory.{update, write64, store, read64-write64, read64_cong, store-outside}
use receiver.Shm.Segment.{slot_at}
use receiver.Shm.Arena.{head_idx, head_gen}
use receiver.Shm.Arena.FreeList.{IsChain, write64-other}
use receiver.Shm.Stack.{
  idle, alloc_loaded, alloc_read, allocated, free_loaded, free_linked, Stack, Step, load_top,
  find_end, read_next, pop, pop_fails, fill, begin_free, link_node, push, push_fails, Reach, start,
  later,
}
use receiver.Shm.Stack.Invariant.{
  IsStack, IsTaken, KnowsNext, link_at, holds, snapshot, wrote-IsStack,
}
use receiver.Shm.Stack.Exchanges.{idle-IsOutside, popped-IsStack, pushed-IsStack}

module _ (count gen : ℕ) (s : Stack) (v : IsStack count gen s) where
  now_taken : (o : ℕ) → some s.head ≡ some o → IsTaken gen s o
  now_taken o e = (
    s.done,
    omega arith,
    subst (λ (h : ℕ). head_gen h ≡ u32 (gen + s.done)) (some-injective s.head o e) v.generation,
  )

  -- A worker that loads the head again, or for the first time.
  reload-IsStack :
      (i : ℕ)
      → ((x : ℕ) → false ≡ holds x (s.workers i))
      → IsStack count gen (record s { workers = update s.workers i (alloc_loaded s.head) })
  unfolding holds snapshot
  reload-IsStack i none_held =
      wrote-IsStack count gen s v i (alloc_loaded s.head) s.arena (λ y h. refl) none_held now_taken
        (λ o n h. cc) (λ x o h. cc)

  refree-IsStack :
      (i x : ℕ)
      → ((y : ℕ) → (x == y) ≡ holds y (s.workers i))
      → IsStack count gen (record s { workers = update s.workers i (free_loaded x s.head) })
  unfolding holds snapshot
  refree-IsStack i x same =
      wrote-IsStack count gen s v i (free_loaded x s.head) s.arena (λ y h. refl) same now_taken
        (λ o n h. cc) (λ y o h. cc)

  -- A slot that the worker does not hold is another than the one it holds.
  elsewhere : (x y : ℕ) → (x == y) ≡ false → y ≢ x
  elsewhere x y h e = ground arith

  knows_read :
      (old o n : ℕ)
      → head_idx old ≢ list_end
      → alloc_read old (link_at s.arena (head_idx old)) ≡ alloc_read o n
      → KnowsNext s o n
  knows_read old o n ne h =
      let own : old ≡ o = cc in
      let link : link_at s.arena (head_idx old) ≡ n = cc in
      subst (λ (z : ℕ). KnowsNext s z n) own (ne, omega (arith, link), λ e. sym link)

  -- Bytes of the worker's own slot are in no link of another slot.
  fill_same :
      (x : ℕ) (payload : List ℕ)
      → length payload ≤ slot_size
      → (y : ℕ) → (x == y) ≡ false
      → link_at (store s.arena (slot_at x) payload) y ≡ link_at s.arena y
  fill_same x payload fits y h =
      let ne = elsewhere x y h in
      ap u32 (
        read64_cong _ _ (slot_at y)
          (λ j j_lt. store-outside payload s.arena (slot_at x) (slot_at y + j) (omega arith)))

  link_same :
      (x value y : ℕ)
      → (x == y) ≡ false
      → link_at (write64 s.arena (slot_at x) value) y ≡ link_at s.arena y
  link_same x value y h = ap u32 (write64-other s.arena x value y (elsewhere x y h))

  written_link :
      (x old y o : ℕ)
      → free_linked x old ≡ free_linked y o
      → link_at (write64 s.arena (slot_at x) (head_idx old)) y ≡ head_idx o
  unfolding head_idx
  written_link x old y o h =
      let own : x ≡ y = cc in
      let same : old ≡ o = cc in
      subst (λ (z : ℕ). link_at (write64 s.arena (slot_at x) (head_idx old)) z ≡ head_idx o) own
        (read64-write64 s.arena (slot_at x) (head_idx old) (omega arith) ∙ ap head_idx same)

  pub Step-IsStack : {n : ℕ} {t : Stack} → Step n s t → t.done < 2 ^ 32 → IsStack count gen t
  unfolding holds snapshot
  Step-IsStack (load_top i lt at) few = reload-IsStack i (λ x. sym (ap (holds x) at))
  Step-IsStack (find_end i old lt at e) few =
      wrote-IsStack count gen s v i idle s.arena (λ y h. refl) (λ x. sym (ap (holds x) at))
        (λ o h. absurd (some-ne-none o (sym h))) (λ o n h. cc) (λ x o h. cc)
  Step-IsStack (read_next i old lt at ne) few =
      wrote-IsStack count gen s v i (alloc_read old (link_at s.arena (head_idx old))) s.arena
        (λ y h. refl) (λ x. sym (ap (holds x) at)) (λ o h. v.taken i o (ap snapshot at ∙ h))
        (λ o n h. knows_read old o n ne h) (λ x o h. cc)
  Step-IsStack (pop i old next lt at e) few =
      popped-IsStack count gen s v few i old next at e v.free refl
  Step-IsStack (pop_fails i old next lt at) few = reload-IsStack i (λ x. sym (ap (holds x) at))
  Step-IsStack (fill i slot payload lt at fits) few =
      wrote-IsStack count gen s v i (allocated slot) (store s.arena (slot_at slot) payload)
        (λ y h. fill_same slot payload fits y (sym (ap (holds y) at) ∙ h))
        (λ x. sym (ap (holds x) at)) (λ o h. absurd (some-ne-none o (sym h))) (λ o n h. cc)
        (λ x o h. cc)
  Step-IsStack (begin_free i slot lt at) few = refree-IsStack i slot (λ y. sym (ap (holds y) at))
  Step-IsStack (link_node i slot old lt at) few =
      wrote-IsStack count gen s v i (free_linked slot old)
        (write64 s.arena (slot_at slot) (head_idx old))
        (λ y h. link_same slot (head_idx old) y (sym (ap (holds y) at) ∙ h))
        (λ x. sym (ap (holds x) at)) (λ o h. v.taken i o (ap snapshot at ∙ h)) (λ o n h. cc)
        (λ x o h. written_link slot old x o h)
  Step-IsStack (push i slot old lt at e) few = pushed-IsStack count gen s v few i slot old at e
  Step-IsStack (push_fails i slot old lt at) few =
      refree-IsStack i slot (λ y. sym (ap (holds y) at))

Step-done : {n : ℕ} {t u : Stack} → Step n t u → t.done ≤ u.done
Step-done (load_top i lt at) = omega arith
Step-done (find_end i old lt at e) = omega arith
Step-done (read_next i old lt at ne) = omega arith
Step-done (pop i old next lt at e) = omega arith
Step-done (pop_fails i old next lt at) = omega arith
Step-done (fill i slot payload lt at fits) = omega arith
Step-done (begin_free i slot lt at) = omega arith
Step-done (link_node i slot old lt at) = omega arith
Step-done (push i slot old lt at e) = omega arith
Step-done (push_fails i slot old lt at) = omega arith

Reach-IsStack :
    (count gen : ℕ) {n : ℕ} {s t : Stack}
    → IsStack count gen s
    → Reach n s t
    → t.done < 2 ^ 32
    → IsStack count gen t
Reach-IsStack count gen v start few = v
Reach-IsStack count gen v (later r step) few =
    let mono = Step-done step in
    Step-IsStack count gen _ (Reach-IsStack count gen v r (omega arith)) step few

-- No worker is in a call or holds a slot, and every slot is in the list.
pub record IsQuiet (count : ℕ) (s : Stack) : Type 0 where
  pub free : List ℕ
  pub small : count < list_end
  pub chain : IsChain s.arena count (head_idx s.head) free
  pub distinct : Distinct free
  pub full : (x : ℕ) → x < count → contains x free ≡ true
  pub fresh : s.done ≡ 0
  pub calm : (i : ℕ) → s.workers i ≡ idle

IsQuiet-IsStack : (count : ℕ) (s : Stack) → IsQuiet count s → IsStack count (head_gen s.head) s
unfolding holds snapshot head_gen
IsQuiet-IsStack count s q = record {
  free = q.free;
  small = q.small;
  chain = q.chain;
  distinct = q.distinct;
  generation = omega (arith, q.fresh);
  taken = λ i o e. absurd (some-ne-none o (sym e ∙ ap snapshot (q.calm i)));
  current = λ i o n e. absurd (idle-IsOutside.1 o n (sym (q.calm i) ∙ e));
  linked = λ i x o e. absurd (idle-IsOutside.2 x o (sym (q.calm i) ∙ e));
  held = λ i x h. absurd (false≢true (ap (holds x) (sym (q.calm i)) ∙ h));
  single = λ i j x h g. absurd (false≢true (ap (holds x) (sym (q.calm i)) ∙ h));
  kept = λ x lt out. absurd (false≢true (sym out ∙ q.full x lt));
}

-- The worker's slot is outside the list, and no other worker has it.
abbrev pub IsSole : ℕ → List ℕ → Stack → ℕ → ℕ → Type 0
IsSole count free s i x =
    (x < count) × (contains x free ≡ false) × ((j : ℕ) → holds x (s.workers j) ≡ true → i ≡ j)

-- If count is below 0xFFFFFFFF, no worker is in a call or has a slot, and the links run through a
-- list of distinct slots with every slot below count in it, then in every state that interleaved
-- calls of alloc_slot and free_slot reach by fewer than 2 ^ 32 successful exchanges, each load,
-- read or write of a link, exchange and filling of an owned slot being a step, the links run
-- through a list of distinct slots below count; a slot that a worker has is below count, is not in
-- the list and is no other worker's; and every slot that is not in the list is some worker's.
pub Reach-IsSole :
    (count : ℕ) {n : ℕ} {s t : Stack}
    → IsQuiet count s
    → Reach n s t
    → t.done < 2 ^ 32
    → (free : List ℕ) × IsChain t.arena count (head_idx t.head) free
      × Distinct free
      × ((i x : ℕ) → holds x (t.workers i) ≡ true → IsSole count free t i x)
      × ((x : ℕ) → x < count → contains x free ≡ false → (i : ℕ) × (holds x (t.workers i) ≡ true))
Reach-IsSole count {n} {s} {t} q r few =
    let v = Reach-IsStack count (head_gen s.head) (IsQuiet-IsStack count s q) r few in
    (
      v.free,
      v.chain,
      v.distinct,
      (λ i x h. ((v.held i x h).0, (v.held i x h).1, λ j g. v.single i j x h g)),
      v.kept,
    )
