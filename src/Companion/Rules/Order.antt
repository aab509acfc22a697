-- ===== src/Companion/Rules/Order.antt =====
-- The theorems on `secureChannel.receive` of internal/companion/relay.go: `Pending` has the lemmas on
-- the map of waiting packets, `Loop` the loop, `Frames` one frame, `Delivery` a session, `Arrival` what the order of arrival changes.
pub mod Pending
pub mod Loop
pub mod Frames
pub mod Delivery
pub mod Arrival
