-- ===== src/Tests.antt =====
-- The theorems at concrete inputs. Of services/rendezvous-relay/internal/relay: `Stage` has a table, a
-- database and a request, `History`, `Rules` and `Runs` the theorems at work on them. `Order` and `Session`
-- are about the companion's sessions, `Pairing` about pairing and storage, `Wire` about the parsers.
mod Stage
mod History
mod Rules
mod Runs
mod Order
mod Session
mod Wire
mod Pairing
