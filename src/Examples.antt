-- ===== src/Examples.antt =====
-- Concrete inputs, and the theorems at them.
mod Segments
mod Codes
mod Packets
mod Shared
mod Frames
mod Sessions
mod Races
mod Control
mod Receivers
mod Loops
mod Attaching
mod Sockets
mod Stacks
mod Openings
mod Triggers
mod Starting
