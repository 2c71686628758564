-- ===== src/Shm/Attach/Held.antt =====
-- shm_manager.cpp: attaching holds one descriptor and one mapping, and failing to attach holds none.
use receiver.Prelude.{
  ℕ, zero, suc, ◌+◌, ◌≡◌, ◌⊎◌, inl, inr, Bool, true, false, refl, ap, sym, ◌∙◌, arith, List, ◌∷◌,
  some, none, Bool-cases, Option-cases, ◌==◌, remove_first-head,
}
use receiver.Shm.Layout.{compute_total_size, default_arena_bytes}
use receiver.Shm.Lifecycle.{init_header, map_and_validate}
use receiver.Shm.Attach.{
  ShmObject, ShmManager, World, Answers, Attempt, unmap, close, validate_mapping, map_object,
  fill_object, create, attach_object, open_shm, attempt_shm, attempt_loop, open_or_create_shm,
  zero_segment,
}

module _ (rest : List ℕ) (k : ℕ) where
  -- Beside `rest` and `k` mappings the process holds nothing.
  abbrev pub IsDetached : ShmManager → World → Type 0
  IsDetached m w =
      (m.fd ≡ none)
      × (m.mapped ≡ false)
      × (m.attached ≡ false)
      × (w.descriptors ≡ rest)
      × (w.mappings ≡ k)

  -- It holds a descriptor and a mapping of an object that passes the checks.
  abbrev pub IsAttached : ShmManager → World → Type 0
  IsAttached m w =
      ((fd : ℕ) × (m.fd ≡ some fd) × (w.descriptors ≡ fd ∷ rest))
      × (m.mapped ≡ true)
      × (m.attached ≡ true)
      × (w.mappings ≡ k + 1)
      × ((object : ShmObject) × (w.object ≡ some object)
          × (m.map_size ≡ object.size)
          × (map_and_validate object.contents object.size ≡ true))

  abbrev pub IsHeld : Bool × ShmManager × World → Type 0
  IsHeld (done, m, w) = ((done ≡ true) × IsAttached m w) ⊎ ((done ≡ false) × IsDetached m w)

  pub close-IsDetached :
      (m : ShmManager) (w : World)
      → IsDetached m w
      → let (m', w') = close m w in IsDetached m' w' × (w'.object ≡ w.object)
  unfolding close unmap
  close-IsDetached m w (fd, mapped, attached, d, n) =
      rw (fd, close, mapped) ((refl, refl, refl, d, n), refl)

  pub close-attached :
      (m : ShmManager) (w : World)
      → IsAttached m w
      → let (m', w') = close m w in IsDetached m' w' × (w'.object ≡ w.object)
  unfolding close unmap
  close-attached m w ((fd, has, d), mapped, attached, n, _) =
      rw (has, close, mapped)
        ((refl, refl, refl, rw d (remove_first-head fd rest), omega arith), refl)

  -- With a descriptor just opened, mapping ends attached or holding nothing.
  map_object-IsHeld :
      (ans : Answers) (w : World) (fd : ℕ) (object : ShmObject)
      → w.descriptors ≡ fd ∷ rest
      → w.mappings ≡ k
      → w.object ≡ some object
      → IsHeld (map_object ans w fd object.size object.contents)
        × ((map_object ans w fd object.size object.contents).2.object ≡ some object)
  unfolding map_object validate_mapping close unmap
  map_object-IsHeld ans w fd object d n o = elim (Bool-cases ans.mmap_ok) [
    | inr refused ↦
        rw refused (inr (refl, (refl, refl, refl, rw d (remove_first-head fd rest), n)), o)
    | inl mapped ↦ rw mapped (elim (Bool-cases (map_and_validate object.contents object.size)) [
      | inl valid ↦
          rw valid
            (inl (refl, ((fd, refl, d), refl, refl, omega arith, (object, o, refl, valid))), o)
      | inr invalid ↦
          rw invalid
            (inr (refl, (refl, refl, refl, rw d (remove_first-head fd rest), omega arith)), o)
    ])
  ]

  attach_object-IsHeld :
      (ans : Answers) (w : World) (fd : ℕ) (object : ShmObject)
      → w.descriptors ≡ fd ∷ rest
      → w.mappings ≡ k
      → w.object ≡ some object
      → IsHeld (attach_object ans w fd object)
        × ((attach_object ans w fd object).2.object ≡ some object)
  unfolding attach_object
  attach_object-IsHeld ans w fd object d n o = elim (Bool-cases ans.fstat_ok) [
    | inr failed ↦
        rw failed (inr (refl, (refl, refl, refl, rw d (remove_first-head fd rest), n)), o)
    | inl sized ↦ rw sized (elim (Bool-cases (object.size == 0)) [
      | inl empty ↦
          rw empty (inr (refl, (refl, refl, refl, rw d (remove_first-head fd rest), n)), o)
      | inr full ↦ rw full (map_object-IsHeld ans w fd object d n o)
    ])
  ]

  pub open_shm-IsHeld :
      (ans : Answers) (m : ShmManager) (w : World)
      → IsDetached m w
      → IsHeld (open_shm ans m w) × ((open_shm ans m w).2.object ≡ w.object)
  unfolding open_shm
  open_shm-IsHeld ans m w v =
      let (v0, same) = close-IsDetached m w v in
      elim (Option-cases (close m w).1.object) [
        | inl missing ↦ rw (missing, open_shm) (inr (refl, v0), same)
        | inr (object, there) ↦ elim (Option-cases ans.shm_open_fd) [
          | inl refused ↦ rw (there, open_shm, refused) (inr (refl, v0), same)
          | inr (fd, granted) ↦
              let (held, kept) =
                attach_object-IsHeld ans
                  (record (close m w).1 { descriptors = fd ∷ (close m w).1.descriptors }) fd object
                  (ap (λ (x : List ℕ). fd ∷ x) v0.3) v0.4 there in
              rw (there, open_shm, granted) (held, kept ∙ sym there ∙ same)
        ]
      ]

  fill_object-IsHeld :
      (ans : Answers) (w : World) (fd arena_bytes : ℕ)
      → w.descriptors ≡ fd ∷ rest
      → w.mappings ≡ k
      → IsHeld (fill_object ans w fd arena_bytes)
  unfolding fill_object
  fill_object-IsHeld ans w fd arena_bytes d n = elim (Bool-cases ans.ftruncate_ok) [
    | inr refused ↦
        simp refused (inr (refl, (refl, refl, refl, rw d (remove_first-head fd rest), n)))
    | inl sized ↦ simp sized (elim (Bool-cases ans.mmap_ok) [
      | inr refused ↦
          simp refused (inr (refl, (refl, refl, refl, rw d (remove_first-head fd rest), n)))
      | inl mapped ↦ simp mapped (
          (map_object-IsHeld ans
            (record w {
              object = some (record {
                size = compute_total_size arena_bytes;
                contents = init_header ans.getpid ans.boot_id arena_bytes;
              });
            })
            fd
            (record {
              size = compute_total_size arena_bytes;
              contents = init_header ans.getpid ans.boot_id arena_bytes;
            })
            d n refl).0)
    ])
  ]

  pub create-IsHeld :
      (ans : Answers) (m : ShmManager) (w : World) (arena_bytes : ℕ)
      → IsDetached m w
      → IsHeld (create ans m w arena_bytes)
  unfolding create
  create-IsHeld ans m w arena_bytes v =
      let (v0, same) = close-IsDetached m w v in
      elim (Option-cases (close m w).1.object) [
        | inr (object, there) ↦ rw (there, create) (inr (refl, v0))
        | inl missing ↦ elim (Option-cases ans.shm_open_fd) [
          | inl refused ↦ rw (missing, create, refused) (inr (refl, v0))
          | inr (fd, granted) ↦
              rw (missing, create, granted)
                (fill_object-IsHeld ans
                  (record (close m w).1 {
                    object = some (record { size = 0; contents = zero_segment });
                    descriptors = fd ∷ (close m w).1.descriptors;
                  })
                  fd arena_bytes (ap (λ (x : List ℕ). fd ∷ x) v0.3) v0.4)
        ]
      ]

  attempt_shm-IsHeld :
      (a : Attempt) (m : ShmManager) (w : World) → IsDetached m w → IsHeld (attempt_shm a m w)
  unfolding attempt_shm
  attempt_shm-IsHeld a m w v =
      by_open (open_shm-IsHeld a.open_answers m (record w { object = a.others w.object }) v).0
    where
      by_open :
          IsHeld (open_shm a.open_answers m (record w { object = a.others w.object }))
          → IsHeld (attempt_shm a m w)
      by_open (inl (done, held)) = rw done (inl (refl, held))
      by_open (inr (failed, free)) =
          rw failed (create-IsHeld a.create_answers _ _ default_arena_bytes free)

  attempt_loop-IsHeld :
      (attempts : ℕ → Attempt) (left attempt : ℕ) (m : ShmManager) (w : World)
      → IsDetached m w
      → IsHeld (attempt_loop attempts left attempt m w)
  unfolding attempt_loop
  attempt_loop-IsHeld attempts zero attempt m w v = inr (refl, v)
  attempt_loop-IsHeld attempts (suc left) attempt m w v =
      by_attempt (attempt_shm-IsHeld (attempts attempt) m w v) (
        attempt_loop-IsHeld attempts left (attempt + 1) (attempt_shm (attempts attempt) m w).1
          (attempt_shm (attempts attempt) m w).2)
    where
      by_attempt :
          IsHeld (attempt_shm (attempts attempt) m w)
          → (IsDetached
                (attempt_shm (attempts attempt) m w).1
                (attempt_shm (attempts attempt) m w).2
              → IsHeld (
                  attempt_loop attempts left
                    (attempt + 1)
                    (attempt_shm (attempts attempt) m w).1
                    (attempt_shm (attempts attempt) m w).2))
          → IsHeld (attempt_loop attempts (suc left) attempt m w)
      by_attempt (inl (done, held)) later = rw done (inl (refl, held))
      by_attempt (inr (failed, free)) later = rw failed (later free)

  -- Beginning detached, open_or_create_shm either succeeds attached to an object that passes the
  -- checks at its size, with one more descriptor and one more mapping, or fails detached with the
  -- descriptors and mappings that it began with, however the system answers and the other processes
  -- change the object.
  pub open_or_create_shm-IsHeld :
      (attempts : ℕ → Attempt) (m : ShmManager) (w : World)
      → IsDetached m w
      → let (done, m', w') = open_or_create_shm attempts m w in
        ((done ≡ true) × IsAttached m' w') ⊎ ((done ≡ false) × IsDetached m' w')
  unfolding open_or_create_shm
  open_or_create_shm-IsHeld attempts m w v = attempt_loop-IsHeld attempts 100 0 m w v
