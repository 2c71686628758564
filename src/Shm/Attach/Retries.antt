-- ===== src/Shm/Attach/Retries.antt =====
-- main.cpp: the retries end attached if the segment is complete by one of them.
use receiver.Prelude.{
  ℕ, zero, suc, ◌+◌, ◌<◌, ◌≤◌, ◌≡◌, inl, inr, true, false, refl, sym, subst, ◌∙◌, arith, Option,
  some, ◌==◌, Bool-cases, ℕ_discrete,
}
use mathlib.Core.Bool.{false≢true}
use receiver.Shm.Lifecycle.{map_and_validate}
use receiver.Shm.Attach.{
  ShmObject, ShmManager, World, Attempt, attempt_shm, attempt_loop, open_or_create_shm,
}
use receiver.Shm.Attach.Created.{AttachGranted, open_shm-valid}

-- Whatever the object was, at this attempt the other processes have completed it, and the calls of
-- `open` are granted.
abbrev pub IsComplete : Attempt → Type 0
IsComplete a =
    AttachGranted a.open_answers
    × ((before : Option ShmObject)
        → (object : ShmObject) × (a.others before ≡ some object)
          × ((object.size == 0) ≡ false)
          × (map_and_validate object.contents object.size ≡ true))

attempt_shm_complete :
    (a : Attempt) (m : ShmManager) (w : World) → IsComplete a → (attempt_shm a m w).0 ≡ true
unfolding attempt_shm
attempt_shm_complete a m w (granted, complete) =
    let (object, there, full, valid) = complete w.object in
    rw
      (open_shm-valid a.open_answers m (record w { object = a.others w.object }) object granted
        there full valid)
      refl

attempt_loop_complete :
    (attempts : ℕ → Attempt) (left attempt k : ℕ) (m : ShmManager) (w : World)
    → attempt ≤ k
    → k < attempt + left
    → IsComplete (attempts k)
    → (attempt_loop attempts left attempt m w).0 ≡ true
unfolding attempt_loop
attempt_loop_complete attempts zero attempt k m w lo hi c = absurd (omega arith)
attempt_loop_complete attempts (suc left) attempt k m w lo hi c =
    elim (Bool-cases (attempt_shm (attempts attempt) m w).0) [
      | inl done ↦ rw done refl
      | inr failed ↦ elim (ℕ_discrete attempt k) [
        | yes now ↦ absurd (
            false≢true (
              sym failed
              ∙ attempt_shm_complete (attempts attempt) m w
                  (subst (λ (x : ℕ). IsComplete (attempts x)) (sym now) c)))
        | no later ↦
            rw failed (
              attempt_loop_complete attempts left (attempt + 1) k _ _ (omega arith) (omega arith) c)
      ]
    ]

-- If at one of the hundred attempts the other processes have completed a segment that has a size
-- and passes the checks, and the calls of open are granted then, open_or_create_shm succeeds.
pub open_or_create_shm_complete :
    (attempts : ℕ → Attempt) (k : ℕ) (m : ShmManager) (w : World)
    → k < 100
    → IsComplete (attempts k)
    → (open_or_create_shm attempts m w).0 ≡ true
unfolding open_or_create_shm
open_or_create_shm_complete attempts k m w lt c =
    attempt_loop_complete attempts 100 0 k m w (omega arith) (omega arith) c
