-- ===== src/Relay/Handler.antt =====
-- services/rendezvous-relay/internal/relay/handler.go: `Event` has the events of the gateway and the
-- services that the handler only calls, `Notify` the messages and the cleanup behind them, `Dispatch`
-- and `Requests` the requests of the default route, `Connect` the connect route and `Routes` the rest.
pub mod Event
pub mod Notify
pub mod Dispatch
pub mod Requests
pub mod Connect
pub mod Routes
