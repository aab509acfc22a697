-- ===== src/Relay/Store/Opening.antt =====
-- services/rendezvous-relay/internal/relay/store.go: opening a session, and the repair of pointers
-- that an ended session has left.
pub mod Soundness
use remote_davinci.Base.{
  ℕ, zero, suc, ◌+◌, String, Bool, true, false, not, ◌&&◌, ◌||◌, Option, none, some, List, [], ◌∷◌,
  str_eq, is_empty, ltb, ◌==◌, if◌then◌else◌,
}
use remote_davinci.Protocol.{unauthenticated, forbidden, peer_offline, peer_busy}
use remote_davinci.Relay.Model.{Endpoint, Link, Session, session_active, session_closed}
use remote_davinci.Relay.Failure.{service_error, retryable_error}
use remote_davinci.Relay.Table.{Write, endpoint_kind, link_kind, session_kind}
use remote_davinci.Relay.Effect.{Prog, pure, fail, attempt, ◌>>=◌, ◌>>◌, get_item, transact_items}
use remote_davinci.Relay.Store.Writes.{
  is_active_link, is_active_session, put_if_absent, endpoint_open, link_open,
}
use remote_davinci.Relay.Store.Sessions.{
  retrying, max_attempts, omit_nothing, transact_session_transition, close_session,
}

-- The session that stands for one that is gone: only its pointers are taken away.
abbrev pub absent_session : String → String → String → String → Session
absent_session session_id link_id controller_id companion_id = record {
  session_id = session_id;
  link_id = link_id;
  controller_id = controller_id;
  companion_id = companion_id;
  controller_connection_id = "";
  companion_connection_id = "";
  status = session_closed;
  created_at = 0;
  expires_at = 0;
  closed_at = 0;
}

unfoldable pub repair_read : String → Link → ℕ → Option Session → Prog Bool
repair_read session_id link now none = do
  answer ← attempt (
      transact_session_transition
        (absent_session session_id link.link_id link.controller_id link.companion_id) now []
        omit_nothing none)
  retrying (pure true) (λ closed. pure true) answer
repair_read session_id link now (some s) =
    if is_active_session s.status && ltb now s.expires_at
    then pure false
    else do closed ← close_session session_id "" "" now; pure true

-- `repairStaleSession`
unfoldable pub repair_stale_session : String → Link → ℕ → Prog Bool
repair_stale_session session_id link now = do
  found ← get_item session_kind session_id
  repair_read session_id link now found

-- The keys of `staleLocks`: the pointers that are set, each once.
unfoldable pub add_lock : String → List String → List String
add_lock id [] = if is_empty id then [] else id ∷ []
add_lock id (x ∷ xs) = let rest = add_lock id xs in if str_eq x id then x ∷ xs else x ∷ rest

unfoldable pub stale_locks : Link → Endpoint → Endpoint → List String
stale_locks link controller companion =
    add_lock companion.active_session_id
      (add_lock controller.active_session_id (add_lock link.active_session_id []))

-- The loop over `staleLocks`; the result is `repaired`. Go does not fix the order of a map's keys;
-- here it is the order in which they were put in.
unfoldable pub repair_all : List String → Link → ℕ → Prog Bool
repair_all [] link now = pure false
repair_all (id ∷ ids) link now = do
  fixed ← repair_stale_session id link now
  if fixed then (do rest ← repair_all ids link now; pure true) else fail (retryable_error peer_busy)

abbrev pub session_lifetime_seconds : ℕ
session_lifetime_seconds = 7200

unfoldable pub new_session : String → String → Endpoint → Endpoint → String → ℕ → Session
new_session session_id link_id controller companion connection_id now = record {
  session_id = session_id;
  link_id = link_id;
  controller_id = controller.endpoint_id;
  companion_id = companion.endpoint_id;
  controller_connection_id = connection_id;
  companion_connection_id = companion.connection_id;
  status = session_active;
  created_at = now;
  expires_at = now + session_lifetime_seconds;
  closed_at = 0;
}

unfoldable pub open_writes : String → Session → List Write
open_writes link_id s =
    put_if_absent session_kind s.session_id s
    ∷ link_open link_id s.session_id
    ∷ endpoint_open s.controller_id s.controller_connection_id s.session_id
    ∷ endpoint_open s.companion_id s.companion_connection_id s.session_id
    ∷ []

-- The last part of a round of `OpenSession`.
unfoldable pub open_commit : Prog Session → String → Session → Prog Session
open_commit again link_id s = do
  answer ← transact_items (open_writes link_id s)
  retrying again (λ done. pure s) answer

-- The peer must be there, on a connection of its own.
unfoldable pub open_with_peer : Prog Session → Endpoint → String → Session → Prog Session
open_with_peer again companion link_id s =
    if not (companion.revoked_at == 0)
      || is_empty companion.connection_id
      || str_eq companion.connection_id s.controller_connection_id
    then fail (retryable_error peer_offline)
    else open_commit again link_id s

unfoldable pub open_unlocked :
    Prog Session → Link → Endpoint → Endpoint → String → String → String → ℕ → Prog Session
open_unlocked again link controller companion link_id connection_id session_id now =
    if not (controller.revoked_at == 0) || not (str_eq controller.connection_id connection_id)
    then fail (service_error unauthenticated)
    else open_with_peer again companion link_id
        (new_session session_id link_id controller companion connection_id now)

-- A round of `OpenSession` from where the link and both endpoints have been read.
unfoldable pub open_between :
    Prog Session → Link → Endpoint → Endpoint → String → String → String → ℕ → Prog Session
open_between again link controller companion link_id connection_id session_id now = do
  repaired ← repair_all (stale_locks link controller companion) link now
  if repaired
      then again
      else open_unlocked again link controller companion link_id connection_id session_id now

unfoldable pub open_endpoints :
    Prog Session
    → Link
    → Option Endpoint
    → Option Endpoint
    → String
    → String
    → String
    → ℕ
    → Prog Session
open_endpoints again link none companion link_id connection_id session_id now =
    fail (service_error unauthenticated)
open_endpoints again link (some c) none link_id connection_id session_id now =
    fail (service_error unauthenticated)
open_endpoints again link (some c) (some d) link_id connection_id session_id now =
    open_between again link c d link_id connection_id session_id now

unfoldable pub open_link :
    Prog Session → Option Link → String → String → String → String → ℕ → Prog Session
open_link again none link_id endpoint_id connection_id session_id now =
    fail (service_error forbidden)
open_link again (some link) link_id endpoint_id connection_id session_id now =
    if not (is_active_link link.status) || not (str_eq link.controller_id endpoint_id)
    then fail (service_error forbidden)
    else do
      controller ← get_item endpoint_kind link.controller_id
      companion ← get_item endpoint_kind link.companion_id
      open_endpoints again link controller companion link_id connection_id session_id now

unfoldable pub open_session_rounds : ℕ → String → String → String → String → ℕ → Prog Session
open_session_rounds zero link_id endpoint_id connection_id session_id now =
    fail (retryable_error peer_busy)
open_session_rounds (suc n) link_id endpoint_id connection_id session_id now = do
  link ← get_item link_kind link_id
  open_link (open_session_rounds n link_id endpoint_id connection_id session_id now) link link_id
      endpoint_id connection_id session_id now

-- `OpenSession`
unfoldable pub open_session : String → String → String → String → ℕ → Prog Session
open_session = open_session_rounds max_attempts
