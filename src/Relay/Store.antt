-- ===== src/Relay/Store.antt =====
-- services/rendezvous-relay/internal/relay/store.go: the operations of `DynamoStore`, each a run of
-- calls to the database. `Writes` has the requests' writes.
pub mod Writes
pub mod Rates
pub mod Sessions
pub mod Opening
pub mod Connections
pub mod Pairs
pub mod Commits
pub mod Links
