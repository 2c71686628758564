-- ===== src/Shm/Attach/Created.antt =====
-- shm_manager.cpp: exactly one process creates the segment, and the others attach to it.
use receiver.Prelude.{ℕ, ◌≡◌, true, false, refl, ◌∙◌, arith, some, ◌==◌}
use receiver.Shm.Layout.{compute_total_size}
use receiver.Shm.Segment.{Segment}
use receiver.Shm.Lifecycle.{init_header, map_and_validate}
use receiver.Shm.Attach.{
  ShmObject, ShmManager, World, Answers, unmap, close, validate_mapping, map_object, create,
  attach_object, open_shm,
}

-- Closing leaves the object.
pub close-object : (m : ShmManager) (w : World) → (close m w).1.object ≡ w.object
unfolding close unmap
close-object m w = ground arith

-- The calls that `open` makes are granted.
abbrev pub AttachGranted : Answers → Type 0
AttachGranted ans =
    ((fd : ℕ) × (ans.shm_open_fd ≡ some fd)) × (ans.fstat_ok ≡ true) × (ans.mmap_ok ≡ true)

-- An object that is there is not created again.
pub create-exists :
    (ans : Answers) (m : ShmManager) (w : World) (arena_bytes : ℕ) (object : ShmObject)
    → w.object ≡ some object
    → ((create ans m w arena_bytes).0 ≡ false)
      × ((create ans m w arena_bytes).2.object ≡ some object)
unfolding create
create-exists ans m w arena_bytes object there =
    rw (close-object m w ∙ there, create) (refl, close-object m w ∙ there)

-- A mapping of contents that pass the checks.
map_object-valid :
    (ans : Answers) (w : World) (fd size : ℕ) (contents : Segment)
    → ans.mmap_ok ≡ true
    → map_and_validate contents size ≡ true
    → ((map_object ans w fd size contents).0 ≡ true)
      × ((map_object ans w fd size contents).2.object ≡ w.object)
unfolding map_object validate_mapping
map_object-valid ans w fd size contents mapped valid = simp (mapped, valid) (refl, refl)

attach_object-valid :
    (ans : Answers) (w : World) (fd : ℕ) (object : ShmObject)
    → ans.fstat_ok ≡ true
    → ans.mmap_ok ≡ true
    → (object.size == 0) ≡ false
    → map_and_validate object.contents object.size ≡ true
    → (attach_object ans w fd object).0 ≡ true
unfolding attach_object
attach_object-valid ans w fd object sized mapped full valid =
    simp (sized, full) (map_object-valid ans w fd object.size object.contents mapped valid).0

-- An object with a size, whose contents pass the checks, is attached to.
pub open_shm-valid :
    (ans : Answers) (m : ShmManager) (w : World) (object : ShmObject)
    → AttachGranted ans
    → w.object ≡ some object
    → (object.size == 0) ≡ false
    → map_and_validate object.contents object.size ≡ true
    → (open_shm ans m w).0 ≡ true
unfolding open_shm
open_shm-valid ans m w object ((fd, granted), sized, mapped) there full valid =
    rw (close-object m w ∙ there, open_shm, granted)
      (attach_object-valid ans _ fd object sized mapped full valid)

module _ (ans : Answers) (m : ShmManager) (w : World) (arena_bytes fd : ℕ) where
  abbrev pub created : ShmObject
  created = record {
    size = compute_total_size arena_bytes;
    contents = init_header ans.getpid ans.boot_id arena_bytes;
  }
