-- ===== src/Companion/Rules.antt =====
-- The theorems on internal/companion: `Turns` has the branches of `handle`, `Session` what holds over
-- all messages of a session.
pub mod Cases
pub mod Turns
pub mod Session
pub mod Once
pub mod Valid
pub mod Order
pub mod Backoff
pub mod Migration
pub mod Approval
pub mod Decision
pub mod Secured
pub mod Truthful
pub mod Ready
pub mod Buffer
pub mod Delivered
