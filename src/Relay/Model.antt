-- ===== src/Relay/Model.antt =====
-- services/rendezvous-relay/internal/relay/model.go. A `string` id is a `String` and "" stands for
-- "none", as in the source; an `int64` instant or counter is a natural number.
use remote_davinci.Base.{
  ℕ, String, Bool, true, false, not, ◌&&◌, Option, none, some, str_eq, if◌then◌else◌,
}
use remote_davinci.Protocol.{ErrorCode, DeviceRole, controller, role_eq}

pub data AuthMode : Type 0 where
  pairing endpoint : AuthMode
  other_mode : String → AuthMode

abbrev pub is_pairing : AuthMode → Bool
is_pairing pairing = true
is_pairing _ = false

abbrev pub is_endpoint : AuthMode → Bool
is_endpoint endpoint = true
is_endpoint _ = false

pub record Connection : Type 0 where
  pub connection_id : String
  pub auth_mode : AuthMode
  pub endpoint_id : String
  pub source_key : String
  pub pairing_id : String
  pub connected_at : ℕ
  pub expires_at : ℕ

pub record Endpoint : Type 0 where
  pub endpoint_id : String
  pub credential_hash : String
  pub role : DeviceRole
  pub connection_id : String
  pub active_session_id : String
  pub revoked_at : ℕ
  pub created_at : ℕ
  pub updated_at : ℕ

pub record PairSide : Type 0 where
  pub connection_id : String
  pub side_id : String

pub record PairIdentity : Type 0 where
  pub endpoint_id : String
  pub role : DeviceRole

pub record PairEndpointCommit : Type 0 where
  pub endpoint_id : String
  pub role : DeviceRole
  pub credential_hash : String

pub record PairCommit : Type 0 where
  pub connection_id : String
  pub side_id : String
  pub link_id : String
  pub self : PairEndpointCommit
  pub peer : PairIdentity

pub data PairStatus : Type 0 where
  opened ready half_committed activated pair_closed : PairStatus

pub record Pair : Type 0 where
  pub pair_id : String
  pub locator : String
  pub join_token_hash : String
  pub status : PairStatus
  pub side_a : PairSide
  pub side_b : Option PairSide
  pub commit_a : Option PairCommit
  pub commit_b : Option PairCommit
  pub expires_at : ℕ

pub data LinkStatus : Type 0 where
  link_active link_revoked : LinkStatus

pub record Link : Type 0 where
  pub link_id : String
  pub controller_id : String
  pub companion_id : String
  pub status : LinkStatus
  pub active_session_id : String
  pub created_at : ℕ
  pub revoked_at : ℕ

pub data SessionStatus : Type 0 where
  session_active session_closed : SessionStatus

pub record Session : Type 0 where
  pub session_id : String
  pub link_id : String
  pub controller_id : String
  pub companion_id : String
  pub controller_connection_id : String
  pub companion_connection_id : String
  pub status : SessionStatus
  pub created_at : ℕ
  pub expires_at : ℕ
  pub closed_at : ℕ

pub record CloseSessionResult : Type 0 where
  pub session : Session
  pub closed_now : Bool

pub record DisconnectResult : Type 0 where
  pub connection : Connection
  pub session : Option CloseSessionResult

pub record RevokeLinkResult : Type 0 where
  pub link : Link
  pub session : Option CloseSessionResult

pub record RevokeEndpointResult : Type 0 where
  pub endpoint : Endpoint
  pub session : Option CloseSessionResult

pub record CommitPairResult : Type 0 where
  pub pair : Pair
  pub link : Option Link
  pub activated_now : Bool

pub record ServiceError : Type 0 where
  pub code : ErrorCode
  pub retryable : Bool
  pub retry_after_ms : Option ℕ

abbrev pub same_commit : PairCommit → PairCommit → Bool
same_commit a b =
    str_eq a.connection_id b.connection_id
    && str_eq a.side_id b.side_id
    && str_eq a.link_id b.link_id
    && str_eq a.self.endpoint_id b.self.endpoint_id
    && role_eq a.self.role b.self.role
    && str_eq a.self.credential_hash b.self.credential_hash
    && str_eq a.peer.endpoint_id b.peer.endpoint_id
    && role_eq a.peer.role b.peer.role

unfoldable pub reciprocal_commits : PairCommit → PairCommit → Bool
reciprocal_commits a b =
    str_eq a.link_id b.link_id
    && not (str_eq a.self.endpoint_id a.peer.endpoint_id)
    && str_eq a.self.endpoint_id b.peer.endpoint_id
    && str_eq a.peer.endpoint_id b.self.endpoint_id
    && role_eq a.self.role b.peer.role
    && role_eq a.peer.role b.self.role
    && not (role_eq a.self.role a.peer.role)

abbrev is_controller : DeviceRole → Bool
is_controller r = role_eq r controller

-- `none` is the error `serviceError(protocol.Conflict)`, the only one that the function returns.
unfoldable pub link_from_commits : PairCommit → PairCommit → ℕ → Option Link
unfolding reciprocal_commits
link_from_commits a b now =
    if not (reciprocal_commits a b)
    then none
    else let first = if is_controller b.self.role then b.self else a.self in
      let second = if is_controller b.self.role then a.self else b.self in
      some (record {
        link_id = a.link_id;
        controller_id = first.endpoint_id;
        companion_id = second.endpoint_id;
        status = link_active;
        active_session_id = "";
        created_at = now;
        revoked_at = 0;
      })

abbrev pub closed_session : Session → ℕ → Session
closed_session s now = record s { status = session_closed; closed_at = now }
