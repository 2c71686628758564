-- ===== src/Shm/Stack/Alone.antt =====
-- A call of alloc_slot or free_slot that no other worker interrupts, as a run of the shared free list.
use receiver.Prelude.{
  ℕ, ◌<◌, ◌≡◌, ◌≢◌, refl, sym, ◌∙◌, if◌then◌else◌, ◌==◌, ==_refl, ne→not_==, ℕ_discrete,
}
use receiver.Shm.Layout.{list_end}
use receiver.Shm.Memory.{update, write64}
use receiver.Shm.Segment.{Segment, slot_at}
use receiver.Shm.Arena.{head_idx, alloc_slot, free_slot}
use receiver.Shm.Stack.{
  Worker, idle, alloc_loaded, alloc_read, allocated, free_loaded, free_linked, Stack, moved, wrote,
  exchanged, load_top, find_end, read_next, pop, begin_free, link_node, push, Reach, start, later,
}
use receiver.Shm.Stack.Invariant.{link_at}

-- The stack has the arena and the head of the segment.
abbrev pub IsOf : Segment → Stack → Type 0
IsOf s t = (t.arena ≡ s.arena) × (t.head ≡ s.header.free_list_head)

-- Where alloc_slot leaves a worker.
abbrev pub returned : ℕ → Worker
returned slot = if slot == list_end then idle else allocated slot

-- The call that a worker makes next, as one function of the segment: alloc_slot when it has no slot,
-- free_slot of its own slot when it has one. A worker in a call makes none.
unfoldable pub next_call : Worker → Segment → Worker × Segment
next_call idle s = (returned (alloc_slot s).0, (alloc_slot s).1)
next_call (allocated slot) s = (idle, free_slot s slot)
next_call (alloc_loaded old) s = (alloc_loaded old, s)
next_call (alloc_read old next) s = (alloc_read old next, s)
next_call (free_loaded slot old) s = (free_loaded slot old, s)
next_call (free_linked slot old) s = (free_linked slot old, s)

-- A run of worker `i` alone that ends with it at `w`, and with the arena and the head of `s`.
abbrev pub Runs : ℕ → ℕ → Stack → Worker × Segment → Type 0
Runs n i t (w, s) =
    (u : Stack) × Reach n t u
    × IsOf s u
    × (u.workers i ≡ w)
    × ((j : ℕ) → i ≢ j → u.workers j ≡ t.workers j)

update-same : (f : ℕ → Worker) (i : ℕ) (w : Worker) → update f i w i ≡ w
update-same f i w = rw (==_refl i) refl

update-other : (f : ℕ → Worker) (i j : ℕ) (w : Worker) → i ≢ j → update f i w j ≡ f j
update-other f i j w ne = rw (ne→not_== i j ne) refl

kept_slot : (x : ℕ) → x ≢ list_end → returned x ≡ allocated x
kept_slot x ne = rw (ne→not_== x list_end ne) refl

module _ (n i : ℕ) (lt : i < n) (s : Segment) (t : Stack) (of : IsOf s t) where
  loaded : Stack
  loaded = moved t i (alloc_loaded t.head)

  alloc_empty :
      t.workers i ≡ idle
      → head_idx t.head ≡ list_end
      → Runs n i t (returned (alloc_slot s).0, (alloc_slot s).1)
  unfolding alloc_slot loaded
  alloc_empty at e = (
    moved loaded i idle,
    later (later start (load_top i lt at)) (find_end i t.head lt (update-same t.workers i _) e),
    rw (sym of.1, e) (of.0, refl),
    rw (==_refl i, sym of.1, e) refl,
    λ j ne.
        update-other loaded.workers i j idle ne
        ∙ update-other t.workers i j (alloc_loaded t.head) ne,
  )

  alloc_top :
      t.workers i ≡ idle
      → head_idx t.head ≢ list_end
      → Runs n i t (returned (alloc_slot s).0, (alloc_slot s).1)
  unfolding alloc_slot loaded
  alloc_top at ne =
      let link = link_at t.arena (head_idx t.head) in
      let read = moved loaded i (alloc_read t.head link) in
      (
        exchanged read link t.head i (allocated (head_idx t.head)),
        later
            (later (later start (load_top i lt at))
              (read_next i t.head lt (update-same t.workers i _) ne))
            (pop i t.head link lt (update-same loaded.workers i _) refl),
        rw (sym of.1, ne→not_== _ _ ne, of.0) (refl, refl),
        rw (==_refl i, sym of.1, ne→not_== _ _ ne) (sym (kept_slot (head_idx t.head) ne)),
        λ j other.
            update-other read.workers i j _ other
            ∙ update-other loaded.workers i j _ other
            ∙ update-other t.workers i j _ other,
      )

  free_alone : (slot : ℕ) → t.workers i ≡ allocated slot → Runs n i t (idle, free_slot s slot)
  unfolding free_slot
  free_alone slot at =
      let begun = moved t i (free_loaded slot t.head) in
      let linked =
        wrote begun (write64 t.arena (slot_at slot) (head_idx t.head)) i
          (free_linked slot t.head) in
      (
        exchanged linked slot t.head i idle,
        later
            (later (later start (begin_free i slot lt at))
              (link_node i slot t.head lt (update-same t.workers i _)))
            (push i slot t.head lt (update-same begun.workers i _) refl),
        rw (of.0, of.1) (refl, refl),
        update-same linked.workers i idle,
        λ j other.
            update-other linked.workers i j _ other
            ∙ update-other begun.workers i j _ other
            ∙ update-other t.workers i j _ other,
      )

  worker-Runs : (w : Worker) → t.workers i ≡ w → Runs n i t (next_call w s)
  unfolding next_call
  worker-Runs idle at = elim (ℕ_discrete (head_idx t.head) list_end) [
    | yes e ↦ alloc_empty at e
    | no ne ↦ alloc_top at ne
  ]
  worker-Runs (allocated slot) at = free_alone slot at
  worker-Runs (alloc_loaded old) at = (t, start, of, at, λ j other. refl)
  worker-Runs (alloc_read old next) at = (t, start, of, at, λ j other. refl)
  worker-Runs (free_loaded slot old) at = (t, start, of, at, λ j other. refl)
  worker-Runs (free_linked slot old) at = (t, start, of, at, λ j other. refl)

  -- If a state has the arena and the head of a segment, then a worker that makes its next call
  -- alone, alloc_slot when it has no slot and free_slot of its slot when it has one, reaches by
  -- steps of the interleaved system a state with the arena and the head that the call as one
  -- function leaves, has the slot that alloc_slot returns or none, and leaves the other workers as
  -- they were.
  pub next_call-Runs : Runs n i t (next_call (t.workers i) s)
  next_call-Runs = worker-Runs (t.workers i) refl
