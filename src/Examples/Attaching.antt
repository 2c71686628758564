-- ===== src/Examples/Attaching.antt =====
-- Processes that create the segment and attach to it.
use receiver.Prelude.{ℕ, ◌≡◌, ◌⊎◌, inl, true, false, [], ◌∷◌, some, none, refl, arith}
use receiver.Shm.Layout.{compute_total_size, default_arena_bytes}
use receiver.Shm.Lifecycle.{init_header}
use receiver.Shm.Lifecycle.Fresh.{init_header-IsSegment}
use receiver.Shm.Attach.{ShmObject, World, Answers, Attempt, create, open_or_create_shm, detached}
use receiver.Shm.Attach.Held.{IsDetached, IsAttached, open_or_create_shm-IsHeld}
use receiver.Shm.Attach.Retries.{open_or_create_shm_complete}
use receiver.Shm.Attach.Stranded.{create-strands}

abbrev granted : Answers
granted = record {
  shm_open_fd = some 3;
  ftruncate_ok = true;
  fstat_ok = true;
  mmap_ok = true;
  getpid = 42;
  boot_id = [];
}

abbrev no_space : Answers
no_space = record granted { ftruncate_ok = false }

-- A process with its standard descriptors, before there is an object.
abbrev pub world : World
world = record { object = none; descriptors = 0 ∷ 1 ∷ 2 ∷ []; mappings = 0 }

abbrev pub alone : ℕ → Attempt
alone _ = record { others = λ o. o; open_answers = granted; create_answers = granted }

open_or_create_shm-IsHeld_example :
    let (done, m', w') = open_or_create_shm alone detached world in
    ((done ≡ true) × IsAttached (0 ∷ 1 ∷ 2 ∷ []) 0 m' w')
    ⊎ ((done ≡ false) × IsDetached (0 ∷ 1 ∷ 2 ∷ []) 0 m' w')
open_or_create_shm-IsHeld_example =
    open_or_create_shm-IsHeld (0 ∷ 1 ∷ 2 ∷ []) 0 alone detached world (refl, refl, refl, refl, refl)

abbrev small_object : ShmObject
small_object = record { size = compute_total_size 6144; contents = init_header 42 [] 6144 }

-- From the third attempt on another process has completed the segment.
abbrev behind_another : ℕ → Attempt
behind_another j = record {
  others = λ o. some small_object;
  open_answers = granted;
  create_answers = granted;
}

open_or_create_shm_complete_example : (open_or_create_shm behind_another detached world).0 ≡ true
open_or_create_shm_complete_example =
    open_or_create_shm_complete behind_another 2 detached world (omega arith) (
      ((3, refl), refl, refl),
      λ before. (
        small_object,
        refl,
        refl,
        (init_header-IsSegment 42 [] 6144 (omega arith) (omega arith) (omega arith)).1,
      ),
    )

create-strands_example :
    ((create no_space detached world default_arena_bytes).0 ≡ false)
    × ((open_or_create_shm alone detached (record world {
      object = (create no_space detached world default_arena_bytes).2.object;
    })).0
        ≡ false)
create-strands_example =
    create-strands (0 ∷ 1 ∷ 2 ∷ []) 0 no_space detached world default_arena_bytes 3 alone detached
      (record world { object = (create no_space detached world default_arena_bytes).2.object }) refl
      refl (inl refl) (refl, refl, refl, refl, refl) refl (λ j o. refl)
