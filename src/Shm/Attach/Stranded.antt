-- ===== src/Shm/Attach/Stranded.antt =====
-- shm_manager.cpp, main.cpp: a creator that fails after shm_open leaves an object that nothing replaces.
use receiver.Prelude.{
  ℕ, zero, suc, ◌+◌, ◌≡◌, ◌⊎◌, inl, inr, Bool, false, refl, ap, sym, subst, ◌∙◌, arith, List, ◌∷◌,
  Option, some, none, Bool-cases, Option-cases,
}
use mathlib.Core.Bool.{false≢true}
use receiver.Shm.Layout.{default_arena_bytes}
use receiver.Shm.Segment.{Segment}
use receiver.Shm.Lifecycle.{map_and_validate, header_valid}
use receiver.Shm.Attach.{
  ShmObject, ShmManager, World, Answers, Attempt, close, validate_mapping, map_object, fill_object,
  create, attach_object, open_shm, attempt_shm, attempt_loop, open_or_create_shm, zero_segment,
}
use receiver.Shm.Attach.Held.{IsDetached, IsHeld, open_shm-IsHeld, create-IsHeld}
use receiver.Shm.Attach.Created.{close-object, create-exists}

-- An object that no check lets through: it has no size yet, or is all zeros.
abbrev pub IsStranded : Option ShmObject → Type 0
IsStranded o =
    (object : ShmObject) × (o ≡ some object)
    × ((object.size ≡ 0) ⊎ (object.contents ≡ zero_segment))

-- No other process touches the object between the attempts.
abbrev pub IsQuiet : (ℕ → Attempt) → Type 0
IsQuiet attempts = (j : ℕ) (o : Option ShmObject) → (attempts j).others o ≡ o

zero_invalid : (size : ℕ) → map_and_validate zero_segment size ≡ false
unfolding map_and_validate header_valid
zero_invalid size = refl

map_object-zero :
    (ans : Answers) (w : World) (fd size : ℕ) (contents : Segment)
    → contents ≡ zero_segment
    → (map_object ans w fd size contents).0 ≡ false
unfolding map_object validate_mapping
map_object-zero ans w fd size contents zeros = elim (Bool-cases ans.mmap_ok) [
  | inr refused ↦ rw refused refl
  | inl mapped ↦
      rw mapped (rw (ap (λ (x : Segment). map_and_validate x size) zeros ∙ zero_invalid size) refl)
]

attach_object-stranded :
    (ans : Answers) (w : World) (fd : ℕ) (object : ShmObject)
    → (object.size ≡ 0) ⊎ (object.contents ≡ zero_segment)
    → (attach_object ans w fd object).0 ≡ false
unfolding attach_object
attach_object-stranded ans w fd object (inl empty) = ground arith
attach_object-stranded ans w fd object (inr zeros) =
    ground (arith, map_object-zero ans w fd object.size object.contents zeros)

open_shm-stranded :
    (ans : Answers) (m : ShmManager) (w : World)
    → IsStranded w.object
    → (open_shm ans m w).0 ≡ false
unfolding open_shm
open_shm-stranded ans m w (object, there, bad) = elim (Option-cases ans.shm_open_fd) [
  | inl refused ↦ rw (close-object m w ∙ there, open_shm, refused) refl
  | inr (fd, granted) ↦
      rw (close-object m w ∙ there, open_shm, granted) (attach_object-stranded ans _ fd object bad)
]

module _ (rest : List ℕ) (k : ℕ) where
  failed-IsDetached :
      {m : ShmManager} {w : World}
      → (done : Bool) → IsHeld rest k (done, m, w)
      → done ≡ false
      → IsDetached rest k m w
  failed-IsDetached done (inl (yes_done, _)) failed = absurd (false≢true (sym failed ∙ yes_done))
  failed-IsDetached done (inr (_, free)) failed = free

  attempt_shm-IsStranded :
      (a : Attempt) (m : ShmManager) (w : World)
      → IsDetached rest k m w
      → a.others w.object ≡ w.object
      → IsStranded w.object
      → let (done, m', w') = attempt_shm a m w in
        (done ≡ false) × IsDetached rest k m' w' × IsStranded w'.object
  unfolding attempt_shm
  attempt_shm-IsStranded a m w v quiet (object, there, bad) =
      let seen = record w { object = a.others w.object } in
      let failed = open_shm-stranded a.open_answers m seen (object, quiet ∙ there, bad) in
      let (held, kept) = open_shm-IsHeld rest k a.open_answers m seen v in
      let (_, m1, w1) = open_shm a.open_answers m seen in
      let free = failed-IsDetached _ held failed in
      let (refused, same) =
        create-exists a.create_answers m1 w1 default_arena_bytes object (kept ∙ quiet ∙ there) in
      rw failed (
        refused,
        failed-IsDetached _ (create-IsHeld rest k a.create_answers m1 w1 default_arena_bytes free)
            refused,
        (object, same, bad),
      )

  attempt_loop-stranded :
      (attempts : ℕ → Attempt) (left attempt : ℕ) (m : ShmManager) (w : World)
      → IsQuiet attempts
      → IsDetached rest k m w
      → IsStranded w.object
      → (attempt_loop attempts left attempt m w).0 ≡ false
  unfolding attempt_loop
  attempt_loop-stranded attempts zero attempt m w quiet v bad = refl
  attempt_loop-stranded attempts (suc left) attempt m w quiet v bad =
      let (failed, free, still) =
        attempt_shm-IsStranded (attempts attempt) m w v (quiet attempt w.object) bad in
      rw failed (attempt_loop-stranded attempts left (attempt + 1) _ _ quiet free still)

fill_object-IsStranded :
    (ans : Answers) (w : World) (fd arena_bytes : ℕ)
    → w.object ≡ some (record { size = 0; contents = zero_segment })
    → (ans.ftruncate_ok ≡ false) ⊎ (ans.mmap_ok ≡ false)
    → ((fill_object ans w fd arena_bytes).0 ≡ false)
      × IsStranded (fill_object ans w fd arena_bytes).2.object
unfolding fill_object
fill_object-IsStranded ans w fd arena_bytes made (inl refused) =
    simp refused (refl, (_, made, inl refl))
fill_object-IsStranded ans w fd arena_bytes made (inr refused) =
    elim (Bool-cases ans.ftruncate_ok) [
      | inr short ↦ simp short (refl, (_, made, inl refl))
      | inl sized ↦ simp (sized, refused) (refl, (_, refl, inr refl))
    ]

module _ (rest : List ℕ) (k : ℕ) where
  -- If no object is there, shm_open is granted and then ftruncate or mmap fails, create fails; and
  -- a process that is not attached and finds the object as create left it, with no other process
  -- touching the object, fails all hundred attempts, whatever the system grants.
  pub create-strands :
      (ans : Answers) (m : ShmManager) (w : World) (arena_bytes fd : ℕ) (attempts : ℕ → Attempt)
      (n : ShmManager) (v : World)
      → w.object ≡ none
      → ans.shm_open_fd ≡ some fd
      → (ans.ftruncate_ok ≡ false) ⊎ (ans.mmap_ok ≡ false)
      → IsDetached rest k n v
      → v.object ≡ (create ans m w arena_bytes).2.object
      → IsQuiet attempts
      → ((create ans m w arena_bytes).0 ≡ false) × ((open_or_create_shm attempts n v).0 ≡ false)
  unfolding create open_or_create_shm
  create-strands ans m w arena_bytes fd attempts n v missing granted refused free left quiet =
      let made =
        fill_object-IsStranded ans
          (record (close m w).1 {
            object = some (record { size = 0; contents = zero_segment });
            descriptors = fd ∷ (close m w).1.descriptors;
          })
          fd arena_bytes refl refused in
      let (failed, bad) = by_create made in
      (
        failed,
        attempt_loop-stranded rest k attempts 100 0 n v quiet free
            (subst IsStranded (sym left) bad),
      )
    where
      by_create :
          ((fill_object ans
                (record (close m w).1 {
                  object = some (record { size = 0; contents = zero_segment });
                  descriptors = fd ∷ (close m w).1.descriptors;
                })
                fd
                arena_bytes).0
              ≡ false)
            × IsStranded
                (fill_object ans
                  (record (close m w).1 {
                    object = some (record { size = 0; contents = zero_segment });
                    descriptors = fd ∷ (close m w).1.descriptors;
                  })
                  fd
                  arena_bytes).2.object
          → ((create ans m w arena_bytes).0 ≡ false)
            × IsStranded (create ans m w arena_bytes).2.object
      by_create made = rw (close-object m w ∙ missing, create, granted) made
