-- ===== src/Relay/Handler/Requests.antt =====
-- services/rendezvous-relay/internal/relay/handler.go: the requests of endpoints, and `dispatch` over
-- all requests.
pub mod Soundness
use remote_davinci.Base.{
  ℕ, String, Bool, not, ◌&&◌, ◌||◌, Option, none, some, str_eq, is_empty, ltb, ◌==◌, if◌then◌else◌,
}
use remote_davinci.Protocol.{invalid_message, forbidden, DeviceRole, controller, companion}
use remote_davinci.Relay.Model.{
  is_pairing, is_endpoint, Connection, Endpoint, PairCommit, Link, LinkStatus, link_revoked,
  Session, CloseSessionResult,
}
use remote_davinci.Relay.Failure.{Result, ok, err, service_error}
use remote_davinci.Relay.Message.{
  Reply, hello_reply, ping_reply, link_reply, revoked_reply, rotated_reply, opened_reply,
  closed_reply, response, link_revoked_body,
}
use remote_davinci.Relay.Effect.{Prog, pure, fail, ◌>>=◌, ◌>>◌, attempt, time, new_id}
use remote_davinci.Relay.Store.Opening.{open_session}
use remote_davinci.Relay.Store.Links.{
  link, get_endpoint, revoke_link, rotate_endpoint, revoke_endpoint,
}
use remote_davinci.Relay.Handler.Event.{
  Request, system_hello, system_ping, pair_create, pair_join, pair_commit, pair_cancel, pair_frame,
  link_get, link_revoke, endpoint_rotate, endpoint_revoke, session_open, session_close,
  session_frame, Wire,
}
use remote_davinci.Relay.Handler.Notify.{
  notify, notify_closed_session, notify_endpoint, notify_opened_session, close_and_notify,
  join_errors,
}
use remote_davinci.Relay.Handler.Dispatch.{
  pairing_action, endpoint_action, create_request, join_request, commit_request, cancel_request,
}

-- `connection.EndpointID == ""` is forbidden.
unfoldable pub with_endpoint : Connection → Prog Reply → Prog Reply
with_endpoint c m = if is_empty c.endpoint_id then fail (service_error forbidden) else m

abbrev pub peer_of_link : Link → String → String
peer_of_link l endpoint_id =
    if str_eq l.controller_id endpoint_id then l.companion_id else l.controller_id

abbrev pub peer_role_of_link : Link → String → DeviceRole
peer_role_of_link l endpoint_id =
    if str_eq l.controller_id endpoint_id then companion else controller

-- The status of a link as its peer sees it, and the time of its end: a link to an endpoint that is
-- gone or revoked is revoked.
unfoldable pub seen_status : Link → Option Endpoint → LinkStatus
seen_status l none = link_revoked
seen_status l (some peer) = if peer.revoked_at == 0 then l.status else link_revoked

unfoldable pub seen_end : Link → Option Endpoint → ℕ
seen_end l none = l.revoked_at
seen_end l (some peer) =
    if not (peer.revoked_at == 0) && (l.revoked_at == 0 || ltb peer.revoked_at l.revoked_at)
    then peer.revoked_at
    else l.revoked_at

unfoldable pub get_reply : Link → String → Option Endpoint → Reply
get_reply l endpoint_id peer =
    let end = seen_end l peer in
    link_reply l.link_id (peer_of_link l endpoint_id) (peer_role_of_link l endpoint_id)
      (seen_status l peer) (if end == 0 then none else some end)

unfoldable pub found_link : Option Link → String → Prog Reply
found_link none endpoint_id = fail (service_error forbidden)
found_link (some l) endpoint_id =
    if is_empty endpoint_id
      || not (str_eq l.controller_id endpoint_id) && not (str_eq l.companion_id endpoint_id)
    then fail (service_error forbidden)
    else do peer ← get_endpoint (peer_of_link l endpoint_id); pure (get_reply l endpoint_id peer)

unfoldable pub get_request : String → Connection → Prog Reply
get_request link_id c = do l ← link link_id; found_link l c.endpoint_id

unfoldable pub revoke_link_request : ℕ → String → Connection → ℕ → Prog Reply
revoke_link_request fuel link_id c timestamp = do
  revoked ← revoke_link link_id c.endpoint_id c.connection_id timestamp
  notify_closed_session fuel revoked.session "revoked" ""
  id ← new_id
  notify_endpoint fuel (peer_of_link revoked.link c.endpoint_id)
      (response "link.revoked" (link_revoked_body revoked.link.link_id) id "")
  pure revoked_reply

unfoldable pub rotate_request : String → Connection → ℕ → Prog Reply
rotate_request credential_hash c timestamp = do
  rotate_endpoint c.endpoint_id c.connection_id credential_hash timestamp
  pure rotated_reply

abbrev pub peer_of_session : Session → String → String
peer_of_session s endpoint_id =
    if str_eq s.controller_id endpoint_id
    then s.companion_connection_id
    else s.controller_connection_id

unfoldable pub announce_revoked : ℕ → Session → String → Prog (Unit {0})
announce_revoked fuel s endpoint_id = do
  id ← new_id
  delivered ←
      notify fuel (peer_of_session s endpoint_id)
        (response "link.revoked" (link_revoked_body s.link_id) id "")
  pure tt

unfoldable pub after_revocation : ℕ → Option CloseSessionResult → String → Prog (Unit {0})
after_revocation fuel none endpoint_id = pure tt
after_revocation fuel (some r) endpoint_id =
    if r.closed_now then announce_revoked fuel r.session endpoint_id else pure tt

unfoldable pub revoke_endpoint_request : ℕ → Connection → ℕ → Prog Reply
revoke_endpoint_request fuel c timestamp = do
  revoked ← revoke_endpoint c.endpoint_id c.connection_id timestamp
  notify_closed_session fuel revoked.session "revoked" ""
  after_revocation fuel revoked.session c.endpoint_id
  pure revoked_reply

abbrev pub without_result : Result (Option CloseSessionResult) → Result (Unit {0})
without_result (ok r) = ok tt
without_result (err e) = err e

-- A session whose parties cannot be told is closed again.
unfoldable pub after_opening : ℕ → Session → Result (Unit {0}) → Prog Reply
after_opening fuel s (ok done) = pure (opened_reply s.session_id)
after_opening fuel s (err e) = do
  closed ← attempt (close_and_notify fuel s.session_id "" "" "peer-disconnected" "")
  join_errors (err e) (without_result closed)
  fail e

unfoldable pub open_request : ℕ → String → Connection → ℕ → Prog Reply
open_request fuel link_id c timestamp = do
  id ← new_id
  s ← open_session link_id c.endpoint_id c.connection_id id timestamp
  told ← attempt (notify_opened_session fuel s)
  after_opening fuel s told

unfoldable pub close_request : ℕ → String → Connection → Prog Reply
close_request fuel session_id c = do
  closed ← close_and_notify fuel session_id c.endpoint_id c.connection_id "requested" ""
  pure closed_reply

-- The actions that the connection's mode allows.
unfoldable pub permitted : Request → Connection → Bool
permitted request c = not (
    is_pairing c.auth_mode && not (pairing_action request)
    || is_endpoint c.auth_mode && not (endpoint_action request))

abbrev pub commit_of :
    String → String → String → String → DeviceRole → String → String → DeviceRole → PairCommit
commit_of connection_id side_id link_id self_id self_role credential_hash peer_id peer_role =
    record {
      connection_id = connection_id;
      side_id = side_id;
      link_id = link_id;
      self = record { endpoint_id = self_id; role = self_role; credential_hash = credential_hash };
      peer = record { endpoint_id = peer_id; role = peer_role };
    }

-- The `switch` of `dispatch`; `limit` is `pairActivationsPerSourceHour` of the store.
unfoldable pub serve : ℕ → Wire → ℕ → Request → Connection → ℕ → Prog Reply
serve fuel wire limit system_hello c now = pure (hello_reply now 1)
serve fuel wire limit system_ping c now = pure (ping_reply now)
serve fuel wire limit (pair_create hash) c now = create_request hash c now
serve fuel wire limit (pair_join locator token) c now = join_request fuel wire locator token c now
serve fuel wire limit (pair_commit pair_id side_id link_id self_id self_role hash peer_id peer_role)
      c now =
    commit_request fuel limit pair_id
      (commit_of c.connection_id side_id link_id self_id self_role hash peer_id peer_role) c now
serve fuel wire limit (pair_cancel pair_id) c now = cancel_request fuel pair_id c now
serve fuel wire limit (link_get link_id) c now = get_request link_id c
serve fuel wire limit (link_revoke link_id) c now =
    with_endpoint c (revoke_link_request fuel link_id c now)
serve fuel wire limit (endpoint_rotate hash) c now = with_endpoint c (rotate_request hash c now)
serve fuel wire limit endpoint_revoke c now = with_endpoint c (revoke_endpoint_request fuel c now)
serve fuel wire limit (session_open link_id) c now =
    with_endpoint c (open_request fuel link_id c now)
serve fuel wire limit (session_close session_id) c now =
    with_endpoint c (close_request fuel session_id c)
serve fuel wire limit (pair_frame pair_id raw) c now = fail (service_error invalid_message)
serve fuel wire limit (session_frame session_id raw) c now = fail (service_error invalid_message)

-- `dispatch`
unfoldable pub dispatch : ℕ → Wire → ℕ → Request → Connection → Prog Reply
dispatch fuel wire limit request c = do
  timestamp ← time
  if permitted request c
      then serve fuel wire limit request c timestamp
      else fail (service_error forbidden)
