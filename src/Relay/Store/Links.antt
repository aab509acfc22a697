-- ===== src/Relay/Store/Links.antt =====
-- services/rendezvous-relay/internal/relay/store.go: links and the credentials of endpoints.
pub mod Soundness
use remote_davinci.Base.{
  ℕ, zero, suc, String, Bool, true, false, not, ◌&&◌, Option, none, some, List, [], ◌∷◌, str_eq,
  is_empty, if◌then◌else◌,
}
use remote_davinci.Protocol.{unauthenticated, forbidden, conflict}
use remote_davinci.Relay.Model.{
  Endpoint, Link, link_active, link_revoked, Session, CloseSessionResult, RevokeLinkResult,
  RevokeEndpointResult, closed_session,
}
use remote_davinci.Relay.Failure.{service_error, retryable_error}
use remote_davinci.Relay.Table.{Write, endpoint_kind, link_kind, session_kind}
use remote_davinci.Relay.Effect.{
  Prog, pure, fail, attempt, ◌>>=◌, get_item, update_item, transact_items,
}
use remote_davinci.Relay.Store.Writes.{
  connection_delete, endpoint_fence, endpoint_rotate, endpoint_revoke, link_release, link_revoke,
}
use remote_davinci.Relay.Store.Sessions.{
  retrying, max_attempts, Fence, omit_link, omit_endpoint, transact_session_transition,
  current_endpoint, close_session,
}
use remote_davinci.Relay.Store.Opening.{absent_session}
use remote_davinci.Relay.Store.Connections.{has_side}

-- `GetEndpoint`
unfoldable pub get_endpoint : String → Prog (Option Endpoint)
get_endpoint id = get_item endpoint_kind id

-- `Link`
unfoldable pub link : String → Prog (Option Link)
link id = get_item link_kind id

-- `clearIfEqual`, which is called for the pointer of a link only
unfoldable pub clear_link : String → String → Prog (Unit {0})
clear_link link_id session_id = do
  answer ← update_item (link_release link_id session_id)
  retrying (pure tt) pure answer

abbrev pub is_revoked : Link → Bool
is_revoked l = elim l.status [ link_revoked ↦ true | link_active ↦ false ]

unfoldable pub only_if_closed : Option CloseSessionResult → Option CloseSessionResult
only_if_closed none = none
only_if_closed (some r) = if r.closed_now then some r else none

abbrev pub revoked : Link → ℕ → Link
revoked l now = record l { status = link_revoked; revoked_at = now; active_session_id = "" }

-- The link was revoked before: a session that it still points to is closed.
unfoldable pub revoke_again : Link → String → String → String → ℕ → Prog RevokeLinkResult
revoke_again l link_id endpoint_id connection_id now =
    if is_empty l.active_session_id then pure (record { link = l; session = none }) else do
      closed ← close_session l.active_session_id endpoint_id connection_id now
      cleared ← attempt (clear_link link_id l.active_session_id)
      pure (record { link = record l { active_session_id = "" }; session = only_if_closed closed })

-- The session that the link points to, or one that stands for it if it is gone.
unfoldable pub session_of_link : Link → String → Option Session → Session
session_of_link l link_id none =
    absent_session l.active_session_id link_id l.controller_id l.companion_id
session_of_link l link_id (some s) =
    if str_eq s.link_id link_id
    then s
    else absent_session l.active_session_id link_id l.controller_id l.companion_id

unfoldable pub closed_now : Session → ℕ → Bool → Option CloseSessionResult
closed_now s now closed =
    if closed then some (record { session = closed_session s now; closed_now = true }) else none

unfoldable pub revoke_idle :
    Prog RevokeLinkResult → Link → String → String → String → ℕ → Prog RevokeLinkResult
revoke_idle again l link_id endpoint_id connection_id now = do
  answer ←
      transact_items (
        link_revoke link_id l.active_session_id now ∷ endpoint_fence endpoint_id connection_id ∷ [])
  retrying again
      (λ done.
        pure
          (record { link = record l { status = link_revoked; revoked_at = now }; session = none }))
      answer

unfoldable pub revoke_busy :
    Prog RevokeLinkResult → Link → Session → String → Fence → ℕ → Prog RevokeLinkResult
revoke_busy again l s link_id fence now = do
  answer ← attempt (
      transact_session_transition s now (link_revoke link_id l.active_session_id now ∷ [])
        (omit_link link_id) (some fence))
  retrying again
      (λ closed. pure (record { link = revoked l now; session = closed_now s now closed })) answer

unfoldable pub revoke_active :
    Prog RevokeLinkResult → Link → String → String → String → ℕ → Prog RevokeLinkResult
revoke_active again l link_id endpoint_id connection_id now =
    if is_empty l.active_session_id
    then revoke_idle again l link_id endpoint_id connection_id now
    else do
      found ← get_item session_kind l.active_session_id
      revoke_busy again l (session_of_link l link_id found) link_id
          (record { endpoint_id = endpoint_id; connection_id = connection_id }) now

unfoldable pub revoke_read :
    Prog RevokeLinkResult → Option Link → String → String → String → ℕ → Prog RevokeLinkResult
revoke_read again none link_id endpoint_id connection_id now = fail (service_error forbidden)
revoke_read again (some l) link_id endpoint_id connection_id now =
    if not (str_eq l.controller_id endpoint_id) && not (str_eq l.companion_id endpoint_id)
    then fail (service_error forbidden)
    else if is_revoked l
    then revoke_again l link_id endpoint_id connection_id now
    else revoke_active again l link_id endpoint_id connection_id now

unfoldable pub revoke_link_rounds : ℕ → String → String → String → ℕ → Prog RevokeLinkResult
revoke_link_rounds zero link_id endpoint_id connection_id now = fail (retryable_error conflict)
revoke_link_rounds (suc n) link_id endpoint_id connection_id now = do
  e ← current_endpoint endpoint_id connection_id
  l ← link link_id
  revoke_read (revoke_link_rounds n link_id endpoint_id connection_id now) l link_id endpoint_id
      connection_id now

-- `RevokeLink`
unfoldable pub revoke_link : String → String → String → ℕ → Prog RevokeLinkResult
revoke_link = revoke_link_rounds max_attempts

-- `RotateEndpoint`
unfoldable pub rotate_endpoint : String → String → String → ℕ → Prog (Unit {0})
rotate_endpoint endpoint_id connection_id credential_hash now = do
  answer ← update_item (endpoint_rotate endpoint_id connection_id credential_hash now)
  retrying (fail (service_error unauthenticated)) pure answer

abbrev pub revoked_endpoint : Endpoint → ℕ → Endpoint
revoked_endpoint e now = record e {
  credential_hash = "";
  connection_id = "";
  active_session_id = "";
  revoked_at = now;
  updated_at = now;
}

unfoldable pub revoke_plainly :
    Prog RevokeEndpointResult → Endpoint → List Write → ℕ → Prog RevokeEndpointResult
revoke_plainly again e ws now = do
  answer ← transact_items ws
  retrying again (λ done. pure (record { endpoint = revoked_endpoint e now; session = none }))
      answer

unfoldable pub revoke_with_session :
    Prog RevokeEndpointResult
    → Endpoint
    → List Write
    → String
    → ℕ
    → Option Session
    → Prog RevokeEndpointResult
revoke_with_session again e ws endpoint_id now none = revoke_plainly again e ws now
revoke_with_session again e ws endpoint_id now (some s) =
    if not (has_side s endpoint_id) then revoke_plainly again e ws now else do
      answer ← attempt (transact_session_transition s now ws (omit_endpoint endpoint_id) none)
      retrying again
          (λ closed.
            pure (record { endpoint = revoked_endpoint e now; session = closed_now s now closed }))
          answer

unfoldable pub revoke_endpoint_writes : Endpoint → String → String → ℕ → List Write
revoke_endpoint_writes e endpoint_id connection_id now =
    endpoint_revoke endpoint_id connection_id e.active_session_id now
    ∷ connection_delete connection_id
    ∷ []

-- A round of `RevokeEndpoint` from where the endpoint has been read.
unfoldable pub revoke_current :
    Prog RevokeEndpointResult → Endpoint → String → String → ℕ → Prog RevokeEndpointResult
revoke_current again e endpoint_id connection_id now =
    let ws = revoke_endpoint_writes e endpoint_id connection_id now in
    if is_empty e.active_session_id then revoke_plainly again e ws now else do
      s ← get_item session_kind e.active_session_id
      revoke_with_session again e ws endpoint_id now s

unfoldable pub revoke_endpoint_rounds : ℕ → String → String → ℕ → Prog RevokeEndpointResult
revoke_endpoint_rounds zero endpoint_id connection_id now = fail (retryable_error conflict)
revoke_endpoint_rounds (suc n) endpoint_id connection_id now = do
  e ← current_endpoint endpoint_id connection_id
  revoke_current (revoke_endpoint_rounds n endpoint_id connection_id now) e endpoint_id
      connection_id now

-- `RevokeEndpoint`
unfoldable pub revoke_endpoint : String → String → ℕ → Prog RevokeEndpointResult
revoke_endpoint = revoke_endpoint_rounds max_attempts
