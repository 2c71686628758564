-- ===== src/Shm/Ownership.antt =====
-- shm_manager.cpp: who owns which slot of the arena, and that every operation keeps it so.
pub mod Links
pub mod Defs
pub mod Register
pub mod Latch
pub mod GiveBack
pub mod Claim
pub mod Open
pub mod Entries
pub mod Kept
pub mod Sweep
pub mod Close
pub mod Purge
