-- ===== src/Relay/Safety.antt =====
-- What services/rendezvous-relay/internal/relay guarantees of the items of its table, whatever the
-- database answers and however the runs of concurrent invocations interleave. `Rows` states it for
-- one item, `Writes` and `PairWrites` for one write, `Calls` and `Requests` for a run, `Steps` for
-- several changes of one item, `History` for the table, and the two others for what follows.
pub mod Rows
pub mod Writes
pub mod PairWrites
pub mod Calls
pub mod Requests
pub mod Steps
pub mod History
pub mod Lifetimes
pub mod PairLifetimes
