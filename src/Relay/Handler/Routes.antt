-- ===== src/Relay/Handler/Routes.antt =====
-- services/rendezvous-relay/internal/relay/handler.go: the routes of the gateway, from `relayPairFrame`
-- to `Handle`. Logging is left out, and so is the failure of writing a message as JSON.
pub mod Soundness
use remote_davinci.Base.{
  ℕ, String, true, not, ◌&&◌, ◌||◌, none, some, str_eq, is_empty, if◌then◌else◌,
}
use remote_davinci.Protocol.{invalid_message, unauthenticated, forbidden, pair_unavailable}
use remote_davinci.Relay.Model.{
  AuthMode, pairing, endpoint, other_mode, is_endpoint, Connection, ready, half_committed, Pair,
}
use remote_davinci.Relay.Failure.{Failure, Result, ok, err, service_error}
use remote_davinci.Relay.Message.{Reply, response, ok_body, frame_body}
use remote_davinci.Relay.Effect.{Prog, pure, fail, ◌>>=◌, ◌>>◌, attempt, settle, time, new_id}
use remote_davinci.Relay.Store.Writes.{status_eq}
use remote_davinci.Relay.Store.Rates.{rate_limit}
use remote_davinci.Relay.Store.Sessions.{session}
use remote_davinci.Relay.Store.Connections.{connection}
use remote_davinci.Relay.Store.Pairs.{pair_by_id}
use remote_davinci.Relay.Handler.Event.{
  Request, pair_frame, session_frame, type_of, ClientEnvelope, WebSocketEvent, Wire, failure,
  peer_connection, session_peer, should_drop_frame, should_drop_default,
}
use remote_davinci.Relay.Handler.Notify.{notify, cleanup, reject_and_drop}
use remote_davinci.Relay.Handler.Dispatch.{delivered_or_offline}
use remote_davinci.Relay.Handler.Requests.{dispatch}
use remote_davinci.Relay.Handler.Connect.{WebSocketResponse, status_only, source_of, handle_connect}

unfoldable pub forward : ℕ → String → String → Result String → Prog (Unit {0})
forward fuel message_type raw peer = do
  connection_id ← settle peer
  id ← new_id
  delivered ← notify fuel connection_id (response message_type (frame_body raw) id "")
  delivered_or_offline delivered

unfoldable pub forward_in_pair : ℕ → Pair → String → String → Prog (Unit {0})
forward_in_pair fuel p connection_id raw =
    if not (status_eq p.status ready) && not (status_eq p.status half_committed)
    then fail (service_error pair_unavailable)
    else forward fuel "pair.frame" raw (peer_connection p connection_id)

-- `relayPairFrame`
unfoldable pub relay_pair_frame : ℕ → Wire → String → String → WebSocketEvent → Prog (Unit {0})
relay_pair_frame fuel wire pair_id raw event = do
  timestamp ← time
  rate_limit (source_of wire event) "pair.frame" 120 timestamp
  later ← time
  p ← pair_by_id pair_id later
  forward_in_pair fuel p event.connection_id raw

unfoldable pub forward_in_session : ℕ → Connection → String → String → String → ℕ → Prog (Unit {0})
forward_in_session fuel c session_id connection_id raw timestamp =
    if not (is_endpoint c.auth_mode) || is_empty c.endpoint_id
    then fail (service_error forbidden)
    else do
      rate_limit c.endpoint_id "session.frame" 3600 timestamp
      s ← session session_id timestamp
      forward fuel "session.frame" raw (session_peer s connection_id)

-- `relaySessionFrame`
unfoldable pub relay_session_frame : ℕ → String → String → WebSocketEvent → Prog (Unit {0})
relay_session_frame fuel session_id raw event = do
  timestamp ← time
  c ← connection event.connection_id timestamp
  forward_in_session fuel c session_id event.connection_id raw timestamp

-- `requestIDFromBody` with a fresh id where the body has none
unfoldable pub request_id : Wire → String → Prog String
request_id wire body = do
  fresh ← new_id
  pure (elim (wire.request_id_from_body body) [ some id ↦ id | none ↦ fresh ])

unfoldable pub relay_frame : ℕ → Wire → Request → WebSocketEvent → Prog (Unit {0})
relay_frame fuel wire (pair_frame pair_id raw) event = relay_pair_frame fuel wire pair_id raw event
relay_frame fuel wire (session_frame session_id raw) event =
    relay_session_frame fuel session_id raw event
relay_frame fuel wire _ event = fail (service_error invalid_message)

unfoldable pub reject_frame : ℕ → WebSocketEvent → String → Failure → Prog WebSocketResponse
reject_frame fuel event id e =
    if should_drop_frame event.route_key e
    then (do reject_and_drop fuel id e event.connection_id; pure (status_only 200))
    else (do
      fresh ← new_id
      told ← notify fuel event.connection_id (failure id e fresh)
      pure (status_only 200))

unfoldable pub after_frame :
    ℕ → WebSocketEvent → String → Result (Unit {0}) → Prog WebSocketResponse
after_frame fuel event id (ok done) = pure (status_only 200)
after_frame fuel event id (err e) = reject_frame fuel event id e

unfoldable pub frame_parsed :
    ℕ → Wire → WebSocketEvent → Result ClientEnvelope → Prog WebSocketResponse
frame_parsed fuel wire event (err e) = do
  id ← request_id wire event.body
  reject_frame fuel event id e
frame_parsed fuel wire event (ok m) = do
  answer ← attempt (
      if not (str_eq (type_of m.request) event.route_key)
      then fail (service_error invalid_message)
      else relay_frame fuel wire m.request event)
  after_frame fuel event m.id answer

-- `handleFrame`
unfoldable pub handle_frame : ℕ → Wire → WebSocketEvent → Prog WebSocketResponse
handle_frame fuel wire event = frame_parsed fuel wire event (wire.parse_client event.body)

-- The limit of messages on a connection.
unfoldable pub message_limit : AuthMode → Connection → Prog (Unit {0})
message_limit pairing c = do
  timestamp ← time
  rate_limit c.source_key "pairing.message" 120 timestamp
message_limit endpoint c =
    if is_empty c.endpoint_id
    then fail (service_error unauthenticated)
    else do timestamp ← time; rate_limit c.endpoint_id "endpoint.message" 600 timestamp
message_limit (other_mode s) c = fail (service_error unauthenticated)

unfoldable pub answer_default : ℕ → Wire → ℕ → ClientEnvelope → WebSocketEvent → Prog Reply
answer_default fuel wire limit m event = do
  timestamp ← time
  c ← connection event.connection_id timestamp
  message_limit c.auth_mode c
  dispatch fuel wire limit m.request c

unfoldable pub reject_default : ℕ → WebSocketEvent → String → Failure → Prog WebSocketResponse
reject_default fuel event id e =
    if should_drop_default e
    then (do reject_and_drop fuel id e event.connection_id; pure (status_only 200))
    else (do fresh ← new_id; pure (record { status_code = 200; body = some (failure id e fresh) }))

unfoldable pub after_default :
    ℕ → WebSocketEvent → ClientEnvelope → Result Reply → Prog WebSocketResponse
after_default fuel event m (err e) = reject_default fuel event m.id e
after_default fuel event m (ok reply) = do
  id ← new_id
  pure (record {
    status_code = 200;
    body = some (response "ok" (ok_body (type_of m.request) reply) id m.id);
  })

unfoldable pub default_parsed :
    ℕ → Wire → ℕ → WebSocketEvent → Result ClientEnvelope → Prog WebSocketResponse
default_parsed fuel wire limit event (err e) = do
  id ← request_id wire event.body
  reject_default fuel event id e
default_parsed fuel wire limit event (ok m) = do
  answer ← attempt (answer_default fuel wire limit m event)
  after_default fuel event m answer

-- `handleDefault`
unfoldable pub handle_default : ℕ → Wire → ℕ → WebSocketEvent → Prog WebSocketResponse
handle_default fuel wire limit event =
    default_parsed fuel wire limit event (wire.parse_client event.body)

-- `Handle`
unfoldable pub handle : ℕ → Wire → ℕ → WebSocketEvent → Prog WebSocketResponse
handle fuel wire limit event =
    if str_eq event.route_key "$connect"
    then handle_connect fuel wire event
    else if str_eq event.route_key "$disconnect"
    then (do cleanup fuel event.connection_id true; pure (status_only 200))
    else if str_eq event.route_key "pair.frame" || str_eq event.route_key "session.frame"
    then handle_frame fuel wire event
    else if str_eq event.route_key "$default"
    then handle_default fuel wire limit event
    else pure (status_only 400)
