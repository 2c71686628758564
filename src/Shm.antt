-- ===== src/Shm.antt =====
-- src/receiver/shm_manager.hpp and shm_manager.cpp: the shared segment of the receiver processes.
pub mod Layout
pub mod Memory
pub mod Segment
pub mod Arena
pub mod Block
pub mod Session
pub mod Ownership
pub mod Lifecycle
pub mod Attach
pub mod Race
pub mod Stack
pub mod Opening
