-- ===== src/Relay/Store/Connections.antt =====
-- services/rendezvous-relay/internal/relay/store.go: connections, from `Connect` to `Disconnect`.
pub mod Soundness
use remote_davinci.Base.{
  ℕ, zero, suc, String, Bool, true, false, not, ◌&&◌, ◌||◌, Option, none, some, List, [], ◌∷◌, ◌++◌,
  str_eq, is_empty, holds, leb, ◌==◌, if◌then◌else◌,
}
use remote_davinci.Protocol.{unauthenticated, conflict}
use remote_davinci.Relay.Model.{
  Connection, is_pairing, is_endpoint, AuthMode, Endpoint, activated, pair_closed, Pair, Session,
  CloseSessionResult, DisconnectResult, closed_session,
}
use remote_davinci.Relay.Failure.{service_error, retryable_error}
use remote_davinci.Relay.Table.{Write, connection_kind, endpoint_kind, pair_kind, session_kind}
use remote_davinci.Relay.Effect.{Prog, pure, fail, attempt, ◌>>=◌, get_item, transact_items}
use remote_davinci.Relay.Store.Writes.{
  is_active_session, status_eq, is_member, put_if_absent, connection_delete,
  connection_delete_existing, endpoint_connect, endpoint_disconnect, pair_close_member,
}
use remote_davinci.Relay.Store.Sessions.{
  retrying, max_attempts, omit_endpoint, transact_session_transition,
}

unfoldable pub mode_eq : AuthMode → AuthMode → Bool
mode_eq AuthMode.pairing AuthMode.pairing = true
mode_eq AuthMode.endpoint AuthMode.endpoint = true
mode_eq (AuthMode.other_mode s) (AuthMode.other_mode t) = str_eq s t
mode_eq _ _ = false

-- `sameConnection`
unfoldable pub same_connection : Connection → Endpoint → Prog Bool
same_connection c e = if not (str_eq e.connection_id c.connection_id) then pure false else do
  existing ← get_item connection_kind c.connection_id
  pure (
      holds
        (λ (x : Connection). mode_eq x.auth_mode c.auth_mode && str_eq x.endpoint_id c.endpoint_id)
        existing)

unfoldable pub active_session : Endpoint → Prog (Option Session)
active_session e =
    if is_empty e.active_session_id then pure none else get_item session_kind e.active_session_id

-- The session is active and has this connection on the endpoint's side.
unfoldable pub runs_on : Session → Endpoint → Connection → Bool
runs_on s e c =
    is_active_session s.status
    && ((str_eq s.controller_id e.endpoint_id && str_eq s.controller_connection_id c.connection_id)
        || (str_eq s.companion_id e.endpoint_id
            && str_eq s.companion_connection_id c.connection_id))

-- The two early returns for a connection that is in place.
unfoldable pub already_connected : Bool → Option Session → Endpoint → Connection → Bool
already_connected same s e c =
    same && (is_empty e.active_session_id || holds (λ (x : Session). runs_on x e c) s)

unfoldable pub connect_writes : Bool → Connection → String → Endpoint → List Write
connect_writes same c credential_hash e =
    (if same then [] else put_if_absent connection_kind c.connection_id c ∷ [])
    ++ endpoint_connect c.endpoint_id c.connection_id credential_hash e.connection_id
        e.active_session_id c.connected_at
      ∷ (if is_empty e.connection_id || str_eq e.connection_id c.connection_id
          then []
          else connection_delete e.connection_id ∷ [])

-- The session has the endpoint on one of its sides.
abbrev pub has_side : Session → String → Bool
has_side s endpoint_id = str_eq s.controller_id endpoint_id || str_eq s.companion_id endpoint_id

unfoldable pub closed_now : Session → ℕ → Bool → Option CloseSessionResult
closed_now s now closed =
    if closed then some (record { session = closed_session s now; closed_now = true }) else none

unfoldable pub connect_commit :
    Prog (Option CloseSessionResult)
    → List Write
    → Connection
    → Endpoint
    → Option Session
    → Prog (Option CloseSessionResult)
connect_commit again ws c e none = do
  answer ← transact_items ws
  retrying again (λ done. pure none) answer
connect_commit again ws c e (some s) =
    if has_side s e.endpoint_id
    then (do
      answer ←
          attempt
            (transact_session_transition s c.connected_at ws (omit_endpoint e.endpoint_id) none)
      retrying again (λ closed. pure (closed_now s c.connected_at closed)) answer)
    else (do answer ← transact_items ws; retrying again (λ done. pure none) answer)

-- A round of `Connect` from where the endpoint has been read.
unfoldable pub connect_endpoint :
    Prog (Option CloseSessionResult)
    → Connection
    → String
    → Option Endpoint
    → Prog (Option CloseSessionResult)
connect_endpoint again c credential_hash none = fail (service_error unauthenticated)
connect_endpoint again c credential_hash (some e) =
    if not (e.revoked_at == 0) || not (str_eq e.credential_hash credential_hash)
    then fail (service_error unauthenticated)
    else do
      same ← same_connection c e
      s ← active_session e
      if already_connected same s e c
          then pure none
          else connect_commit again (connect_writes same c credential_hash e) c e s

unfoldable pub connect_rounds : ℕ → Connection → String → Prog (Option CloseSessionResult)
connect_rounds zero c credential_hash = fail (retryable_error conflict)
connect_rounds (suc n) c credential_hash = do
  endpoint ← get_item endpoint_kind c.endpoint_id
  connect_endpoint (connect_rounds n c credential_hash) c credential_hash endpoint

-- `Connect`
unfoldable pub connect : Connection → String → Prog (Option CloseSessionResult)
connect c credential_hash =
    if is_endpoint c.auth_mode && (is_empty c.endpoint_id || is_empty credential_hash)
      || is_pairing c.auth_mode && not (is_empty c.endpoint_id)
    then fail (service_error unauthenticated)
    else if is_empty c.endpoint_id
    then (do
      answer ← transact_items (put_if_absent connection_kind c.connection_id c ∷ [])
      retrying (fail (service_error unauthenticated)) (λ done. pure none) answer)
    else connect_rounds max_attempts c credential_hash

abbrev pub result_of : Connection → Option CloseSessionResult → DisconnectResult
result_of c s = record { connection = c; session = s }

-- The last step of a round: `return result, err`.
unfoldable pub finish :
    Prog (Option DisconnectResult) → Connection → List Write → Prog (Option DisconnectResult)
finish again c ws = do
  answer ← transact_items ws
  retrying again (λ done. pure (some (result_of c none))) answer

unfoldable pub pair_writes : Connection → String → Option Pair → List Write
pair_writes c connection_id none = []
pair_writes c connection_id (some p) =
    if is_member p connection_id
      && not (status_eq p.status activated)
      && not (status_eq p.status pair_closed)
    then pair_close_member c.pairing_id connection_id ∷ []
    else []

unfoldable pub disconnect_pairing :
    Prog (Option DisconnectResult) → String → Connection → Prog (Option DisconnectResult)
disconnect_pairing again connection_id c = do
  pair ← (if is_empty c.pairing_id then pure none else get_item pair_kind c.pairing_id)
  finish again c (connection_delete_existing connection_id ∷ pair_writes c connection_id pair)

unfoldable pub disconnect_session :
    Prog (Option DisconnectResult)
    → String
    → ℕ
    → Connection
    → List Write
    → Option Session
    → Prog (Option DisconnectResult)
disconnect_session again connection_id now c ws none = finish again c ws
disconnect_session again connection_id now c ws (some s) =
    if str_eq s.controller_connection_id connection_id
      || str_eq s.companion_connection_id connection_id
    then (do
      answer ← attempt (transact_session_transition s now ws (omit_endpoint c.endpoint_id) none)
      retrying again (λ closed. pure (some (result_of c (closed_now s now closed)))) answer)
    else finish again c ws

unfoldable pub disconnect_endpoint :
    Prog (Option DisconnectResult)
    → String
    → ℕ
    → Connection
    → Option Endpoint
    → Prog (Option DisconnectResult)
disconnect_endpoint again connection_id now c none =
    finish again c (connection_delete_existing connection_id ∷ [])
disconnect_endpoint again connection_id now c (some e) =
    if not (str_eq e.connection_id connection_id)
    then finish again c (connection_delete_existing connection_id ∷ [])
    else let ws =
        connection_delete_existing connection_id
        ∷ endpoint_disconnect c.endpoint_id connection_id e.active_session_id
        ∷ [] in
      if is_empty e.active_session_id then finish again c ws else (do
        s ← get_item session_kind e.active_session_id
        disconnect_session again connection_id now c ws s)

-- A round of `Disconnect` from where the connection has been read.
unfoldable pub disconnect_connection :
    Prog (Option DisconnectResult) → String → ℕ → Option Connection → Prog (Option DisconnectResult)
disconnect_connection again connection_id now none = pure none
disconnect_connection again connection_id now (some c) =
    if is_empty c.endpoint_id then disconnect_pairing again connection_id c else do
      endpoint ← get_item endpoint_kind c.endpoint_id
      disconnect_endpoint again connection_id now c endpoint

unfoldable pub disconnect_rounds : ℕ → String → ℕ → Prog (Option DisconnectResult)
disconnect_rounds zero connection_id now = fail (retryable_error conflict)
disconnect_rounds (suc n) connection_id now = do
  connection ← get_item connection_kind connection_id
  disconnect_connection (disconnect_rounds n connection_id now) connection_id now connection

-- `Disconnect`
unfoldable pub disconnect : String → ℕ → Prog (Option DisconnectResult)
disconnect = disconnect_rounds max_attempts

unfoldable pub unexpired : ℕ → Option Connection → Prog Connection
unexpired now none = fail (service_error unauthenticated)
unexpired now (some c) =
    if leb c.expires_at now then fail (service_error unauthenticated) else pure c

-- `Connection`
unfoldable pub connection : String → ℕ → Prog Connection
connection connection_id now = do
  found ← get_item connection_kind connection_id
  unexpired now found
