-- ===== src/Relay/Rules.antt =====
-- What single operations of services/rendezvous-relay/internal/relay return and have done then.
pub mod Returns
pub mod Runs
pub mod Reads
pub mod Admissions
pub mod Peers
pub mod Alive
pub mod Forwarding
pub mod Agreement
pub mod Limits
pub mod Cancellation
pub mod Joining
