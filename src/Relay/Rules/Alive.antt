-- ===== src/Relay/Rules/Alive.antt =====
-- The connections and sessions that services/rendezvous-relay/internal/relay/store.go returns, with the
-- reads behind them.
use remote_davinci.Base.{
  ℕ, String, ◌≡◌, refl, ◌<◌, true, not, Option, some, none, subst, arith, leb,
}
use remote_davinci.Relay.Model.{Connection, Session}
use remote_davinci.Relay.Table.{connection_kind, session_kind}
use remote_davinci.Relay.Effect.{get_item}
use remote_davinci.Relay.Store.Writes.{is_active_session}
use remote_davinci.Relay.Store.Connections.{unexpired, connection}
use remote_davinci.Relay.Store.Sessions.{found_session, session, close_session}
use remote_davinci.Relay.Rules.Runs.{Answers, Runs, Runs-bind, Runs-if, Runs-get_item}

module _ (world : Answers) where
  unexpired-Read :
      (now : ℕ) (o : Option Connection) (c : Connection)
      → Runs world (unexpired now o) c
      → (o ≡ some c) × (now < c.expires_at)
  unfolding unexpired
  unexpired-Read now none c h = absurd h
  unexpired-Read now (some d) c h =
      Runs-if world (leb d.expires_at now) _ _ c (λ e k. absurd k)
        (λ e k.
          subst (λ (x : Connection). (some d ≡ some x) × (now < x.expires_at)) k
            (refl, ground (arith, e)))
        h

  found_session-Read :
      (id : String) (now : ℕ) (o : Option Session) (s : Session)
      → Runs world (found_session id now o) s
      → (o ≡ some s) × (is_active_session s.status ≡ true) × (now < s.expires_at)
  unfolding found_session
  found_session-Read id now none s h = absurd h
  found_session-Read id now (some u) s h =
      Runs-if world (not (is_active_session u.status)) _ _ s (λ e k. absurd k)
        (λ e.
          Runs-if world (leb u.expires_at now) _ _ s
            (λ f k. let (c, x, y) = Runs-bind world _ s (close_session id "" "" now) k in absurd y)
            (λ f k.
              subst
                (λ (x : Session).
                  (some u ≡ some x) × (is_active_session x.status ≡ true) × (now < x.expires_at))
                k (refl, ground (arith, e), ground (arith, f))))
        h

  -- A connection was read, and is alive.
  pub connection-Read :
      (id : String) (now : ℕ) (c : Connection)
      → Runs world (connection id now) c
      → world.reads connection_kind id (some c) × (now < c.expires_at)
  unfolding connection
  connection-Read id now c h =
      let (o, x, y) = Runs-bind world (unexpired now) c (get_item connection_kind id) h in
      let (e, l) = unexpired-Read now o c y in
      (subst (world.reads connection_kind id) e (Runs-get_item world connection_kind id o x), l)

  -- A session was read, and is alive.
  pub session-Read :
      (id : String) (now : ℕ) (s : Session)
      → Runs world (session id now) s
      → world.reads session_kind id (some s)
        × (is_active_session s.status ≡ true)
        × (now < s.expires_at)
  unfolding session
  session-Read id now s h =
      let (o, x, y) = Runs-bind world (found_session id now) s (get_item session_kind id) h in
      let (e, a, l) = found_session-Read id now o s y in
      (subst (world.reads session_kind id) e (Runs-get_item world session_kind id o x), a, l)
