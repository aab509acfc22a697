-- ===== src/Relay/Rules/Reads.antt =====
-- What the reads of services/rendezvous-relay/internal/relay/store.go return.
use remote_davinci.Base.{
  subst, ℕ, String, ◌≡◌, ◌<◌, leb, ◌==◌, true, false, not, ◌||◌, Option, none, some, str_eq,
  is_empty, arith,
}
use remote_davinci.Relay.Model.{Connection, Endpoint, Session}
use remote_davinci.Relay.Table.{endpoint_kind, session_kind, connection_kind}
use remote_davinci.Relay.Effect.{get_item}
use remote_davinci.Relay.Store.Writes.{is_active_session}
use remote_davinci.Relay.Store.Connections.{unexpired, connection}
use remote_davinci.Relay.Store.Sessions.{
  check_endpoint, current_endpoint, found_session, session, close_session,
}
use remote_davinci.Relay.Rules.Returns.{Returns, Returns-bind, Returns-if}

unexpired-Returns :
    (now : ℕ) (o : Option Connection) (c : Connection)
    → Returns (unexpired now o) c
    → now < c.expires_at
unfolding unexpired
unexpired-Returns now none c h = absurd h
unexpired-Returns now (some d) c h =
    Returns-if (leb d.expires_at now) _ _ c (λ e k. absurd k)
      (λ e k. subst (λ (x : Connection). now < x.expires_at) k (ground (arith, e))) h

-- `Connection` only returns a connection that is not expired.
pub connection-alive :
    (id : String) (now : ℕ) (c : Connection) → Returns (connection id now) c → now < c.expires_at
unfolding connection
connection-alive id now c h =
    let (o, x, y) = Returns-bind (unexpired now) c (get_item connection_kind id) h in
    unexpired-Returns now o c y

check_endpoint-Returns :
    (o : Option Endpoint) (connection_id : String) (e : Endpoint)
    → Returns (check_endpoint o connection_id) e
    → (e.revoked_at ≡ 0) × (str_eq e.connection_id connection_id ≡ true)
unfolding check_endpoint
check_endpoint-Returns none connection_id e h = absurd h
check_endpoint-Returns (some f) connection_id e h =
    Returns-if (not (f.revoked_at == 0) || not (str_eq f.connection_id connection_id)) _ _ e
      (λ x k. absurd k)
      (λ x k.
        subst (λ (y : Endpoint). (y.revoked_at ≡ 0) × (str_eq y.connection_id connection_id ≡ true))
          k (ground (arith, x), ground (arith, x)))
      h

-- `currentEndpoint` only returns an endpoint that is not revoked and that has the connection that the
-- request came on, and it never does so for the connection "".
pub current_endpoint-current :
    (id connection_id : String) (e : Endpoint)
    → Returns (current_endpoint id connection_id) e
    → (e.revoked_at ≡ 0)
      × (str_eq e.connection_id connection_id ≡ true)
      × (is_empty connection_id ≡ false)
unfolding current_endpoint
current_endpoint-current id connection_id e h =
    Returns-if (is_empty id || is_empty connection_id) _ _ e (λ x k. absurd k)
      (λ x k.
        let (o, y, z) =
          Returns-bind (λ o. check_endpoint o connection_id) e (get_item endpoint_kind id) k in
        let (a, b) = check_endpoint-Returns o connection_id e z in (a, b, ground (arith, x)))
      h

found_session-Returns :
    (id : String) (now : ℕ) (o : Option Session) (s : Session)
    → Returns (found_session id now o) s
    → (is_active_session s.status ≡ true) × (now < s.expires_at)
unfolding found_session
found_session-Returns id now none s h = absurd h
found_session-Returns id now (some u) s h =
    Returns-if (not (is_active_session u.status)) _ _ s (λ e k. absurd k)
      (λ e.
        Returns-if (leb u.expires_at now) _ _ s
          (λ f k. let (c, x, y) = Returns-bind _ s (close_session id "" "" now) k in absurd y)
          (λ f k.
            subst (λ (x : Session). (is_active_session x.status ≡ true) × (now < x.expires_at)) k
              (ground (arith, e), ground (arith, f))))
      h

-- `Session` only returns a session that is active and not expired.
pub session-alive :
    (id : String) (now : ℕ) (s : Session)
    → Returns (session id now) s
    → (is_active_session s.status ≡ true) × (now < s.expires_at)
unfolding session
session-alive id now s h =
    let (o, x, y) = Returns-bind (found_session id now) s (get_item session_kind id) h in
    found_session-Returns id now o s y
