-- ===== src/Relay/Handler/Event.antt =====
-- services/rendezvous-relay/internal/relay/handler.go: an event of the gateway, what the protocol
-- package makes of its text, and the tests on errors.
use remote_davinci.Base.{
  String, Bool, true, false, not, ◌&&◌, ◌||◌, Option, none, some, str_eq, holds, is_none,
  if◌then◌else◌,
}
use remote_davinci.Protocol.{
  ErrorCode, invalid_message, unauthenticated, forbidden, rate_limited, internal, DeviceRole,
}
use remote_davinci.Relay.Model.{Pair, PairSide, Session}
use remote_davinci.Relay.Failure.{
  Failure, Result, ok, err, service_error, as_service, as_validation,
}
use remote_davinci.Relay.Message.{Message, error_body, response}

-- The body of a client's message, decoded by its type (protocol/protocol.go, the `…Body` structs).
pub data Request : Type 0 where
  system_hello system_ping endpoint_revoke : Request
  pair_create : (join_token_hash : String) → Request
  pair_join : (locator join_token : String) → Request
  pair_commit :
      (pair_id side_id link_id self_id : String) (self_role : DeviceRole) (credential_hash : String)
      (peer_id : String) (peer_role : DeviceRole)
      → Request
  pair_cancel : (pair_id : String) → Request
  pair_frame : (pair_id raw : String) → Request
  link_get link_revoke session_open : (link_id : String) → Request
  endpoint_rotate : (credential_hash : String) → Request
  session_close : (session_id : String) → Request
  session_frame : (session_id raw : String) → Request

-- `ClientMessageTypes`
abbrev pub type_of : Request → String
type_of system_hello = "system.hello"
type_of system_ping = "system.ping"
type_of endpoint_revoke = "endpoint.revoke"
type_of (pair_create h) = "pair.create"
type_of (pair_join l t) = "pair.join"
type_of (pair_commit p s l i r h j q) = "pair.commit"
type_of (pair_cancel p) = "pair.cancel"
type_of (pair_frame p raw) = "pair.frame"
type_of (link_get l) = "link.get"
type_of (link_revoke l) = "link.revoke"
type_of (session_open l) = "session.open"
type_of (endpoint_rotate h) = "endpoint.rotate"
type_of (session_close s) = "session.close"
type_of (session_frame s raw) = "session.frame"

pub record ClientEnvelope : Type 0 where
  pub id : String
  pub request : Request

-- protocol/protocol.go: ParsedAuthorization
pub data Authorization : Type 0 where
  pairing_scheme : Authorization
  bearer : (endpoint_id secret : String) → Authorization

pub record WebSocketEvent : Type 0 where
  pub connection_id : String
  pub route_key : String
  pub source_ip : String
  pub authorization : String
  pub body : String

-- What the handler takes from the protocol package and from hashing: the parsers of a frame and of
-- an authorization header (an error is one of validation), the key of a source address, and the
-- digests of a secret and of a join token.
pub record Wire : Type 0 where
  pub parse_client : String → Result ClientEnvelope
  pub request_id_from_body : String → Option String
  pub parse_authorization : String → Option Authorization
  pub source_key : String → String
  pub credential_digest : String → String
  pub join_token_hash : String → Result String

-- `failure`: every code that the code builds is in `protocol.ErrorCodes`.
unfoldable pub failure : String → Failure → String → Message
failure reply_to e id = elim (as_validation e) [
  | some code ↦ response "error" (error_body code false none) id reply_to
  | none ↦ elim (as_service e) [
    | some s ↦ response "error" (error_body s.code s.retryable s.retry_after_ms) id reply_to
    | none ↦ response "error" (error_body internal true none) id reply_to
  ]
]

unfoldable pub peer_of_joiner : Option PairSide → String → String → Result String
peer_of_joiner none creator connection_id = err (service_error forbidden)
peer_of_joiner (some s) creator connection_id =
    if str_eq s.connection_id connection_id then ok creator else err (service_error forbidden)

abbrev pub joiner_connection : Option PairSide → String
joiner_connection none = ""
joiner_connection (some s) = s.connection_id

-- `peerConnection`
unfoldable pub peer_connection : Pair → String → Result String
unfolding peer_of_joiner
peer_connection p connection_id =
    if str_eq p.side_a.connection_id connection_id
    then ok (joiner_connection p.side_b)
    else peer_of_joiner p.side_b p.side_a.connection_id connection_id

-- `sessionPeer`
unfoldable pub session_peer : Session → String → Result String
session_peer s connection_id =
    if str_eq s.controller_connection_id connection_id
    then ok s.companion_connection_id
    else if str_eq s.companion_connection_id connection_id
    then ok s.controller_connection_id
    else err (service_error forbidden)

abbrev pub validation_failure : Failure → Bool
validation_failure e = not (is_none (as_validation e))

abbrev pub is_rate_limited : ErrorCode → Bool
is_rate_limited rate_limited = true
is_rate_limited _ = false

abbrev pub is_invalid_message : ErrorCode → Bool
is_invalid_message invalid_message = true
is_invalid_message _ = false

abbrev pub is_unauthenticated : ErrorCode → Bool
is_unauthenticated unauthenticated = true
is_unauthenticated _ = false

abbrev pub is_forbidden : ErrorCode → Bool
is_forbidden forbidden = true
is_forbidden _ = false

-- `serviceCode(err) == …`
abbrev pub has_code : (ErrorCode → Bool) → Failure → Bool
has_code p e = holds (λ s. p s.code) (as_service e)

unfoldable pub should_drop_frame : String → Failure → Bool
should_drop_frame route e =
    let session_route = str_eq route "session.frame" in
    let frame_route = str_eq route "pair.frame" || session_route in
    frame_route && validation_failure e
    || has_code is_rate_limited e
    || frame_route && has_code is_invalid_message e
    || session_route && (has_code is_unauthenticated e || has_code is_forbidden e)

unfoldable pub should_drop_default : Failure → Bool
should_drop_default e =
    validation_failure e || has_code is_rate_limited e || has_code is_unauthenticated e
