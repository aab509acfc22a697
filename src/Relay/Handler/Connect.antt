-- ===== src/Relay/Handler/Connect.antt =====
-- services/rendezvous-relay/internal/relay/handler.go: `handleConnect`. A response is its status and
-- its body.
pub mod Soundness
use remote_davinci.Base.{
  ℕ, ◌+◌, ◌*◌, String, not, ◌||◌, Option, none, some, str_eq, is_empty, ◌==◌, if◌then◌else◌,
}
use remote_davinci.Relay.Model.{
  AuthMode, pairing, endpoint, Connection, Endpoint, CloseSessionResult, ServiceError,
}
use remote_davinci.Relay.Failure.{Result, ok, err, as_service}
use remote_davinci.Relay.Message.{Message}
use remote_davinci.Relay.Effect.{Prog, pure, ◌>>=◌, ◌>>◌, attempt, time}
use remote_davinci.Relay.Store.Rates.{rate_limit}
use remote_davinci.Relay.Store.Connections.{connect}
use remote_davinci.Relay.Store.Links.{get_endpoint}
use remote_davinci.Relay.Handler.Event.{
  Authorization, pairing_scheme, bearer, WebSocketEvent, Wire, is_unauthenticated, is_forbidden,
}
use remote_davinci.Relay.Handler.Notify.{notify_closed_session}

pub record WebSocketResponse : Type 0 where
  pub status_code : ℕ
  pub body : Option Message

abbrev pub status_only : ℕ → WebSocketResponse
status_only code = record { status_code = code; body = none }

-- `sourceIP`, and the key of the event's source
abbrev pub source_of : Wire → WebSocketEvent → String
source_of wire event =
    wire.source_key (if is_empty event.source_ip then "unknown" else event.source_ip)

-- The status of a connect that the store refused.
unfoldable pub refused_status : Option ServiceError → ℕ
refused_status none = 500
refused_status (some s) =
    if is_unauthenticated s.code || is_forbidden s.code
    then 401
    else if s.retryable
    then 503
    else 500

-- The connection that an endpoint had before is told that it is replaced; an error of that is passed over.
unfoldable pub announce_replaced : ℕ → Option CloseSessionResult → String → Prog (Unit {0})
announce_replaced fuel none endpoint_id = pure tt
announce_replaced fuel (some r) endpoint_id = do
  told ← attempt (
      notify_closed_session fuel (some r) "replaced" (
        if not (str_eq r.session.controller_id endpoint_id)
        then r.session.companion_connection_id
        else r.session.controller_connection_id))
  pure tt

unfoldable pub after_connect :
    ℕ → String → Result (Option CloseSessionResult) → Prog WebSocketResponse
after_connect fuel endpoint_id (err e) = pure (status_only (refused_status (as_service e)))
after_connect fuel endpoint_id (ok closed) = do
  announce_replaced fuel closed endpoint_id
  pure (status_only 200)

abbrev pub connection_of : AuthMode → String → String → String → ℕ → Connection
connection_of mode endpoint_id source_key connection_id timestamp = record {
  connection_id = connection_id;
  auth_mode = mode;
  endpoint_id = endpoint_id;
  source_key = source_key;
  pairing_id = "";
  connected_at = timestamp;
  expires_at = timestamp + 2 * 60 * 60 + 5 * 60;
}

unfoldable pub connect_pairing : ℕ → Wire → WebSocketEvent → Prog WebSocketResponse
connect_pairing fuel wire event = do
  timestamp ← time
  answer ← attempt (do
    rate_limit (source_of wire event) "pairing.connect" 30 timestamp
    connect (connection_of pairing "" (source_of wire event) event.connection_id timestamp) "")
  after_connect fuel "" answer

unfoldable pub connect_bearer :
    ℕ → Wire → WebSocketEvent → String → String → Option Endpoint → Prog WebSocketResponse
connect_bearer fuel wire event endpoint_id hash none = pure (status_only 401)
connect_bearer fuel wire event endpoint_id hash (some e) =
    if not (e.revoked_at == 0) || not (str_eq e.credential_hash hash)
    then pure (status_only 401)
    else do
      timestamp ← time
      answer ← attempt (
          connect
            (connection_of endpoint endpoint_id (source_of wire event) event.connection_id
              timestamp)
            hash)
      after_connect fuel endpoint_id answer

unfoldable pub connect_authorized :
    ℕ → Wire → WebSocketEvent → Option Authorization → Prog WebSocketResponse
connect_authorized fuel wire event none = pure (status_only 401)
connect_authorized fuel wire event (some pairing_scheme) = connect_pairing fuel wire event
connect_authorized fuel wire event (some (bearer endpoint_id secret)) = do
  e ← get_endpoint endpoint_id
  connect_bearer fuel wire event endpoint_id (wire.credential_digest secret) e

-- `handleConnect`
unfoldable pub handle_connect : ℕ → Wire → WebSocketEvent → Prog WebSocketResponse
handle_connect fuel wire event =
    connect_authorized fuel wire event (wire.parse_authorization event.authorization)
