-- ===== src/Shm/Opening.antt =====
-- shm_manager.cpp: several receivers that open one session at once, as one SessionOpen makes them do.
pub mod Decided
pub mod Reached
use receiver.Prelude.{ℕ, ◌<◌, ◌≡◌, Option, none, some}
use receiver.Shm.Memory.{update}
use receiver.Shm.Segment.{Segment}
use receiver.Shm.Session.{SessionParams, lock_sessions, unlock_sessions, open_locked}

-- Where a call of open_session stands, past the test of the number of blocks: before it has the lock;
-- with the lock, before and after the loops over the table; and returned.
pub data Opener : Type 0 where
  asking : Opener
  inside : Opener
  found : (result : Option ℕ) → Opener
  returned : (result : Option ℕ) → Opener

pub record Opening : Type 0 where
  pub segment : Segment
  pub calls : ℕ → Opener

abbrev pub with_call : Opening → Segment → ℕ → Opener → Opening
with_call o s i c = record { segment = s; calls = update o.calls i c }

-- One action of one of `n` calls, in any order. What is done with the lock held, of which a lookup
-- sees the final store only, is one action.
pub data Step (n : ℕ) (p : SessionParams) (o : Opening) : Opening → Type 0 where
  acquire :
      (i : ℕ) (s : Segment)
      → i < n
      → o.calls i ≡ asking
      → lock_sessions o.segment ≡ some s
      → Step n p o (with_call o s i inside)
  spin :
      (i : ℕ)
      → i < n
      → o.calls i ≡ asking
      → lock_sessions o.segment ≡ none
      → Step n p o (with_call o o.segment i asking)
  search :
      (i : ℕ)
      → i < n
      → o.calls i ≡ inside
      → Step n p o (with_call o (open_locked o.segment p).1 i (found (open_locked o.segment p).0))
  release :
      (i : ℕ) (result : Option ℕ)
      → i < n
      → o.calls i ≡ found result
      → Step n p o (with_call o (unlock_sessions o.segment) i (returned result))

pub data Reach (n : ℕ) (p : SessionParams) (o : Opening) : Opening → Type 0 where
  start : Reach n p o o
  later : {t u : Opening} → Reach n p o t → Step n p t u → Reach n p o u
