-- ===== src/Companion.antt =====
-- internal/companion: the computer's side of a link. `Outcome` has the results and errors of its
-- code, the other modules one part of the companion each.
pub mod Outcome
pub mod Operations
pub mod Permissions
pub mod Control
pub mod Reorder
pub mod Channel
pub mod Relay
pub mod Link
pub mod Session
pub mod Pairing
pub mod Frames
pub mod Config
pub mod Storage
pub mod Rules
