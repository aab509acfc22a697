-- ===== src/Relay/Store/Sessions.antt =====
-- services/rendezvous-relay/internal/relay/store.go: the transaction that closes a session and takes
-- its pointers away, closing a session and reading one.
pub mod Soundness
use remote_davinci.Base.{
  ℕ, zero, suc, String, Bool, false, not, ◌&&◌, ◌||◌, Option, none, some, List, [], ◌∷◌, ◌++◌,
  str_eq, is_empty, leb, ◌==◌, if◌then◌else◌,
}
use remote_davinci.Protocol.{unauthenticated, forbidden, conflict, session_not_found}
use remote_davinci.Relay.Model.{Endpoint, Link, Session, CloseSessionResult, closed_session}
use remote_davinci.Relay.Failure.{
  Result, ok, err, service_error, retryable_error, conditional_failure,
}
use remote_davinci.Relay.Table.{Write, endpoint_kind, link_kind, session_kind}
use remote_davinci.Relay.Effect.{
  Prog, pure, fail, settle, attempt, ◌>>=◌, ◌>>◌, get_item, transact_items,
}
use remote_davinci.Relay.Store.Writes.{
  is_active_session, endpoint_fence, endpoint_release, link_release, session_close,
}

-- The rest of a round of a retry loop: `continue` on a failed condition, return any other error.
unfoldable pub retrying : {A B : Type 0} → Prog B → (A → Prog B) → Result A → Prog B
retrying again done (ok a) = done a
retrying again done (err e) = if conditional_failure e then again else fail e

abbrev pub max_attempts : ℕ
max_attempts = 5

-- The arguments `omit` and `fences` of `transactSessionTransition`: every call gives a map with at
-- most one entry.
pub data Omit : Type 0 where
  omit_nothing : Omit
  omit_link omit_endpoint : String → Omit

abbrev pub omits_link : Omit → String → Bool
omits_link (omit_link id) link_id = str_eq id link_id
omits_link _ link_id = false

abbrev pub omits_endpoint : Omit → String → Bool
omits_endpoint (omit_endpoint id) endpoint_id = str_eq id endpoint_id
omits_endpoint _ endpoint_id = false

pub record Fence : Type 0 where
  pub endpoint_id : String
  pub connection_id : String

-- `fences[endpointID]`
abbrev pub fence_of : Option Fence → String → String
fence_of none endpoint_id = ""
fence_of (some f) endpoint_id = if str_eq f.endpoint_id endpoint_id then f.connection_id else ""

unfoldable pub release_link_writes : Session → Option Link → List Write
release_link_writes s none = []
release_link_writes s (some l) =
    if str_eq l.active_session_id s.session_id then link_release s.link_id s.session_id ∷ [] else []

unfoldable pub release_link : Session → Omit → Prog (List Write)
release_link s omit =
    if omits_link omit s.link_id
    then pure []
    else do link ← get_item link_kind s.link_id; pure (release_link_writes s link)

-- One round of the loop over the two endpoints: its writes, and whether it set `fenced`.
unfoldable pub release_endpoint_writes :
    Session → Option Fence → String → Option Endpoint → List Write × Bool
release_endpoint_writes s fences endpoint_id none = ([], false)
release_endpoint_writes s fences endpoint_id (some e) =
    let held = str_eq e.active_session_id s.session_id in
    let fence = fence_of fences endpoint_id in
    (
      if held then endpoint_release endpoint_id s.session_id fence ∷ [] else [],
      held && not (is_empty fence),
    )

unfoldable pub release_endpoint : Session → Omit → Option Fence → String → Prog (List Write × Bool)
release_endpoint s omit fences endpoint_id =
    if is_empty endpoint_id || omits_endpoint omit endpoint_id then pure ([], false) else do
      endpoint ← get_item endpoint_kind endpoint_id
      pure (release_endpoint_writes s fences endpoint_id endpoint)

unfoldable pub fence_writes : Omit → Option Fence → Bool → List Write
fence_writes omit none fenced = []
fence_writes omit (some f) fenced =
    if is_empty f.connection_id || fenced || omits_endpoint omit f.endpoint_id
    then []
    else endpoint_fence f.endpoint_id f.connection_id ∷ []

unfoldable pub close_writes : Session → ℕ → List Write
close_writes s now = if is_active_session s.status then session_close s.session_id now ∷ [] else []

unfoldable pub commit_transition : Bool → List Write → Prog Bool
commit_transition closing [] = pure false
commit_transition closing (w ∷ ws) = do
  answer ← transact_items (w ∷ ws)
  settle answer
  pure closing

-- `transactSessionTransition`
unfoldable pub transact_session_transition :
    Session → ℕ → List Write → Omit → Option Fence → Prog Bool
transact_session_transition s now prefix omit fences = do
  link ← release_link s omit
  controller ← release_endpoint s omit fences s.controller_id
  companion ← release_endpoint s omit fences s.companion_id
  commit_transition (is_active_session s.status) (
      prefix
      ++ (close_writes s now
          ++ (link
              ++ (controller.0
                  ++ (companion.0 ++ fence_writes omit fences (controller.1 || companion.1))))))

unfoldable pub check_endpoint : Option Endpoint → String → Prog Endpoint
check_endpoint none connection_id = fail (service_error unauthenticated)
check_endpoint (some e) connection_id =
    if not (e.revoked_at == 0) || not (str_eq e.connection_id connection_id)
    then fail (service_error unauthenticated)
    else pure e

-- `currentEndpoint`
unfoldable pub current_endpoint : String → String → Prog Endpoint
current_endpoint endpoint_id connection_id =
    if is_empty endpoint_id || is_empty connection_id
    then fail (service_error unauthenticated)
    else do endpoint ← get_item endpoint_kind endpoint_id; check_endpoint endpoint connection_id

unfoldable pub authorize_close : String → String → Prog (Unit {0})
authorize_close endpoint_id connection_id =
    if not (is_empty endpoint_id)
    then (do endpoint ← current_endpoint endpoint_id connection_id; pure tt)
    else if not (is_empty connection_id)
    then fail (service_error unauthenticated)
    else pure tt

unfoldable pub closed_result : Session → ℕ → Bool → CloseSessionResult
closed_result s now closed = record {
  session = if closed then closed_session s now else s;
  closed_now = closed;
}

-- `fences` of `CloseSession`
unfoldable pub close_fence : String → String → Option Fence
close_fence endpoint_id connection_id =
    if is_empty endpoint_id
    then none
    else some (record { endpoint_id = endpoint_id; connection_id = connection_id })

-- A round of `CloseSession` from where the session has been read.
unfoldable pub close_read :
    Prog (Option CloseSessionResult)
    → String
    → String
    → ℕ
    → Option Session
    → Prog (Option CloseSessionResult)
close_read again endpoint_id connection_id now none = pure none
close_read again endpoint_id connection_id now (some s) =
    if not (is_empty endpoint_id)
      && not (str_eq s.controller_id endpoint_id)
      && not (str_eq s.companion_id endpoint_id)
    then fail (service_error forbidden)
    else do
      answer ← attempt (
          transact_session_transition s now [] omit_nothing (close_fence endpoint_id connection_id))
      retrying again (λ closed. pure (some (closed_result s now closed))) answer

unfoldable pub close_session_rounds :
    ℕ → String → String → String → ℕ → Prog (Option CloseSessionResult)
close_session_rounds zero session_id endpoint_id connection_id now = fail (retryable_error conflict)
close_session_rounds (suc n) session_id endpoint_id connection_id now = do
  authorize_close endpoint_id connection_id
  session ← get_item session_kind session_id
  close_read (close_session_rounds n session_id endpoint_id connection_id now) endpoint_id
      connection_id now session

-- `CloseSession`
unfoldable pub close_session : String → String → String → ℕ → Prog (Option CloseSessionResult)
close_session = close_session_rounds max_attempts

unfoldable pub found_session : String → ℕ → Option Session → Prog Session
found_session session_id now none = fail (service_error session_not_found)
found_session session_id now (some s) =
    if not (is_active_session s.status)
    then fail (service_error session_not_found)
    else if leb s.expires_at now
    then (do closed ← close_session session_id "" "" now; fail (service_error session_not_found))
    else pure s

-- `Session`
unfoldable pub session : String → ℕ → Prog Session
session session_id now = do
  found ← get_item session_kind session_id
  found_session session_id now found
