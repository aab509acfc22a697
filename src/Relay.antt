-- ===== src/Relay.antt =====
-- services/rendezvous-relay/internal/relay: the rendezvous relay.
pub mod Model
pub mod Failure
pub mod Table
pub mod Message
pub mod Effect
pub mod Store
pub mod Safety
pub mod Handler
pub mod Rules
