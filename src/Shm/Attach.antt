-- ===== src/Shm/Attach.antt =====
-- shm_manager.cpp: creating, opening and closing the segment, and the retries of main.cpp. What the
-- system answers to each call is a parameter.
pub mod Held
pub mod Created
pub mod Stranded
pub mod Retries
use receiver.Prelude.{
  ℕ, zero, suc, ◌+◌, ◌-◌, Bool, true, false, if◌then◌else◌, ◌==◌, not, List, [], ◌∷◌, Option, some,
  none, remove_first,
}
use receiver.Shm.Layout.{compute_total_size, default_arena_bytes}
use receiver.Shm.Segment.{ShmHeader, Segment, zero_entry}
use receiver.Shm.Lifecycle.{zero_session, init_header, map_and_validate}

-- The object behind SHM_NAME.
pub record ShmObject : Type 0 where
  pub size : ℕ
  pub contents : Segment

-- A segment of zero bytes.
abbrev pub zero_segment : Segment
zero_segment = record {
  header = record {
    magic = 0;
    version = 0;
    slot_size = 0;
    slot_count = 0;
    free_list_head = 0;
    used_slots = 0;
    high_water_used = 0;
    session_open_lock = 0;
    session_table_offset = 0;
    block_table_region_offset = 0;
    arena_offset = 0;
    total_size = 0;
    owner_pid = 0;
    boot_id = [];
  };
  sessions = λ _. zero_session;
  blocks = λ _. zero_entry;
  arena = λ _. 0;
}

-- The members of ShmManager: `mapped` is a `base_` other than MAP_FAILED, `attached` a `header_` other
-- than null.
pub record ShmManager : Type 0 where
  pub fd : Option ℕ
  pub mapped : Bool
  pub map_size : ℕ
  pub attached : Bool

-- What the calls of the process change: the object, its open descriptors and its mappings.
pub record World : Type 0 where
  pub object : Option ShmObject
  pub descriptors : List ℕ
  pub mappings : ℕ

-- The answers to one call of `create` or `open`. A descriptor is granted or not; `shm_open` fails too
-- if the object is there under O_EXCL, or missing without O_CREAT.
pub record Answers : Type 0 where
  pub shm_open_fd : Option ℕ
  pub ftruncate_ok : Bool
  pub fstat_ok : Bool
  pub mmap_ok : Bool
  pub getpid : ℕ
  pub boot_id : List ℕ

abbrev pub close_fd : World → ℕ → World
close_fd w fd = record w { descriptors = remove_first fd w.descriptors }

abbrev pub detached : ShmManager
detached = record { fd = none; mapped = false; map_size = 0; attached = false }

unfoldable pub unmap : ShmManager → World → World
unmap m w = if m.mapped then record w { mappings = w.mappings - 1 } else w

unfoldable pub close : ShmManager → World → ShmManager × World
unfolding unmap
close m w = elim m.fd [
  | none ↦ (detached, unmap m w)
  | some fd ↦ (detached, close_fd (unmap m w) fd)
]

-- The checks at the end of `create` and `open`, on the mapped object.
unfoldable pub validate_mapping : ShmManager → World → Segment → Bool × ShmManager × World
unfolding close
validate_mapping m w contents =
    if map_and_validate contents m.map_size
    then (true, record m { attached = true }, w)
    else let (m', w') = close m w in (false, m', w')

-- `mmap` of the object at `fd`.
unfoldable pub map_object : Answers → World → ℕ → ℕ → Segment → Bool × ShmManager × World
unfolding validate_mapping
map_object ans w fd size contents =
    if ans.mmap_ok
    then validate_mapping
        (record { fd = some fd; mapped = true; map_size = size; attached = false })
        (record w { mappings = w.mappings + 1 }) contents
    else (false, record detached { map_size = size }, close_fd w fd)

-- `create` once the object has been made.
unfoldable pub fill_object : Answers → World → ℕ → ℕ → Bool × ShmManager × World
fill_object ans w fd arena_bytes =
    let total_size = compute_total_size arena_bytes in
    if not ans.ftruncate_ok
    then (false, detached, close_fd w fd)
    else if not ans.mmap_ok
    then (
      false,
      detached,
      close_fd (record w { object = some (record { size = total_size; contents = zero_segment }) })
          fd,
    )
    else let made = init_header ans.getpid ans.boot_id arena_bytes in
      map_object ans (record w { object = some (record { size = total_size; contents = made }) }) fd
        total_size made

unfoldable pub create : Answers → ShmManager → World → ℕ → Bool × ShmManager × World
create ans m w arena_bytes =
    let (m0, w0) = close m w in
    elim w0.object [
      | some object ↦ (false, m0, w0)
      | none ↦ elim ans.shm_open_fd [
        | none ↦ (false, m0, w0)
        | some fd ↦
            fill_object ans
              (record w0 {
                object = some (record { size = 0; contents = zero_segment });
                descriptors = fd ∷ w0.descriptors;
              })
              fd arena_bytes
      ]
    ]

-- `open` once the descriptor is granted.
unfoldable pub attach_object : Answers → World → ℕ → ShmObject → Bool × ShmManager × World
unfolding map_object
attach_object ans w fd object =
    if not ans.fstat_ok
    then (false, detached, close_fd w fd)
    else if object.size == 0
    then (false, detached, close_fd w fd)
    else map_object ans w fd object.size object.contents

unfoldable pub open_shm : Answers → ShmManager → World → Bool × ShmManager × World
open_shm ans m w =
    let (m0, w0) = close m w in
    elim w0.object [
      | none ↦ (false, m0, w0)
      | some object ↦ elim ans.shm_open_fd [
        | none ↦ (false, m0, w0)
        | some fd ↦ attach_object ans (record w0 { descriptors = fd ∷ w0.descriptors }) fd object
      ]
    ]

-- One round of `open_or_create_shm`: what the other processes have made of the object in the meantime,
-- and the answers to both calls.
pub record Attempt : Type 0 where
  pub others : Option ShmObject → Option ShmObject
  pub open_answers : Answers
  pub create_answers : Answers

unfoldable pub attempt_shm : Attempt → ShmManager → World → Bool × ShmManager × World
attempt_shm a m w =
    let (opened, m1, w1) = open_shm a.open_answers m (record w { object = a.others w.object }) in
    if opened then (true, m1, w1) else create a.create_answers m1 w1 default_arena_bytes

-- The loop, by the attempts that are left; `attempt` numbers them.
unfoldable pub attempt_loop : (ℕ → Attempt) → ℕ → ℕ → ShmManager → World → Bool × ShmManager × World
attempt_loop attempts zero attempt m w = (false, m, w)
attempt_loop attempts (suc left) attempt m w =
    let (done, m', w') = attempt_shm (attempts attempt) m w in
    let rest = attempt_loop attempts left (attempt + 1) m' w' in
    if done then (true, m', w') else rest

unfoldable pub open_or_create_shm : (ℕ → Attempt) → ShmManager → World → Bool × ShmManager × World
open_or_create_shm attempts m w = attempt_loop attempts 100 0 m w
