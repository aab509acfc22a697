-- ===== src/Relay/Rules/Forwarding.antt =====
-- The frames that services/rendezvous-relay/internal/relay/handler.go forwards (`relayPairFrame` and
-- `relaySessionFrame`): to whom, and from whom.
use remote_davinci.Base.{
  ℕ, String, ◌≡◌, refl, ◌<◌, ◌⊎◌, inl, inr, Bool, true, false, not, ◌&&◌, ◌||◌, some, is_empty,
  subst, arith, ◌∙◌,
}
use remote_davinci.Relay.Model.{
  Connection, is_endpoint, Pair, PairSide, PairStatus, opened, ready, half_committed, activated,
  pair_closed, Session,
}
use remote_davinci.Relay.Failure.{Result, ok, err, is_gone}
use remote_davinci.Relay.Message.{Message, response, frame_body}
use remote_davinci.Relay.Table.{connection_kind, pair_kind, session_kind}
use remote_davinci.Relay.Effect.{settle, new_id, time}
use remote_davinci.Relay.Store.Writes.{is_active_session, status_eq}
use remote_davinci.Relay.Store.Connections.{connection}
use remote_davinci.Relay.Store.Sessions.{session}
use remote_davinci.Relay.Store.Rates.{rate_limit}
use remote_davinci.Relay.Store.Pairs.{pair_by_id}
use remote_davinci.Relay.Handler.Event.{WebSocketEvent, Wire, peer_connection, session_peer}
use remote_davinci.Relay.Handler.Notify.{
  Cleaner, cleanup, post_message, posted, notify_by, notify_with_pair_event, notify,
}
use remote_davinci.Relay.Handler.Dispatch.{delivered_or_offline}
use remote_davinci.Relay.Handler.Connect.{source_of}
use remote_davinci.Relay.Handler.Routes.{
  forward, forward_in_pair, relay_pair_frame, forward_in_session, relay_session_frame,
}
use remote_davinci.Relay.Rules.Runs.{Answers, Says, Runs, Runs-bind, Runs-if, Runs-settle}
use remote_davinci.Relay.Rules.Admissions.{pair_by_id-Read}
use remote_davinci.Relay.Rules.Peers.{Opposite, session_peer-Opposite, peer_connection-Opposite}
use remote_davinci.Relay.Rules.Alive.{connection-Read, session-Read}

joined_by :
    (s : PairStatus)
    → (not (status_eq s ready) && not (status_eq s half_committed)) ≡ false
    → (s ≡ ready) ⊎ (s ≡ half_committed)
joined_by opened h = absurd (cc h)
joined_by ready h = inl refl
joined_by half_committed h = inr refl
joined_by activated h = absurd (cc h)
joined_by pair_closed h = absurd (cc h)

module _ (world : Answers) where
  posted-true :
      (clean : Cleaner) (d : String) (send : Bool) (r : Result (Unit {0}))
      → Runs world (posted clean d send r) true
      → r ≡ ok tt
  unfolding posted
  posted-true clean d send (ok done) h = refl
  posted-true clean d send (err e) h =
      Runs-if world (not (is_gone e)) _ _ true (λ x k. absurd k)
        (λ x k. let (u, y, z) = Runs-bind world _ true (clean d send) k in absurd (cc z)) h

  took_by :
      (d : String) (m : Message) (r : Result (Unit {0}))
      → Runs world (post_message d m) r
      → r ≡ ok tt
      → world.took d m
  unfolding post_message
  took_by d m r (x, said, same) e =
      subst (λ (y : Result (Unit {0})). Says (λ done. world.took d m) y) (same ∙ e) said

  delivered_true : (b : Bool) → Runs world (delivered_or_offline b) tt → b ≡ true
  unfolding delivered_or_offline
  delivered_true true h = refl
  delivered_true false h = absurd h

  notify-took :
      (fuel : ℕ) (d : String) (m : Message)
      → Runs world (notify fuel d m) true
      → (is_empty d ≡ false) × world.took d m
  unfolding notify notify_with_pair_event notify_by
  notify-took fuel d m h =
      Runs-if world (is_empty d) _ _ true (λ x k. absurd (cc k))
        (λ x k.
          let (r, y, z) = Runs-bind world _ true (post_message d m) k in
          (x, took_by d m r y (posted-true (cleanup fuel) d false r z)))
        h

  forward-took :
      (fuel : ℕ) (kind raw : String) (peer : Result String)
      → Runs world (forward fuel kind raw peer) tt
      → (d : String) × (id : String) × (peer ≡ ok d)
        × (is_empty d ≡ false)
        × world.took d (response kind (frame_body raw) id "")
  unfolding forward
  forward-took fuel kind raw peer h =
      let (d, x, k) = Runs-bind world _ tt (settle peer) h in
      let (id, y, l) = Runs-bind world _ tt new_id k in
      let (delivered, z, w) =
        Runs-bind world _ tt (notify fuel d (response kind (frame_body raw) id "")) l in
      let (full, took) = notify-took fuel d (response kind (frame_body raw) id "") (
        subst (Runs world (notify fuel d (response kind (frame_body raw) id "")))
          (delivered_true delivered w) z) in
      (d, id, Runs-settle world peer d x, full, took)

  clock_of : (t : ℕ) → Runs world time t → world.clock t
  unfolding time
  clock_of t (u, said, same) = subst world.clock same said

  -- The frame `raw` for a session went from `sender` to the other connection of the session: all that was
  -- read for it was alive at the time `t`, and the gateway took it.
  pub record SessionForwarded (session_id raw sender : String) : Type 0 where
    pub t : ℕ
    pub c : Connection
    pub s : Session
    pub receiver : String
    pub id : String
    pub timed : world.clock t
    pub reads_c : world.reads connection_kind sender (some c)
    pub c_alive : t < c.expires_at
    pub c_endpoint : (is_endpoint c.auth_mode ≡ true) × (is_empty c.endpoint_id ≡ false)
    pub reads_s : world.reads session_kind session_id (some s)
    pub s_active : is_active_session s.status ≡ true
    pub s_alive : t < s.expires_at
    pub opposite : Opposite s.controller_connection_id s.companion_connection_id sender receiver
    pub sent : world.took receiver (response "session.frame" (frame_body raw) id "")

  -- If `relaySessionFrame` succeeds, the connection that the frame came on was read as a live connection
  -- of an endpoint, the session as active and not expired, the sender is one of the session's two
  -- connections, and the gateway took the frame, unchanged, for the other one.
  pub relay_session_frame-SessionForwarded :
      (fuel : ℕ) (session_id raw : String) (event : WebSocketEvent)
      → Runs world (relay_session_frame fuel session_id raw event) tt
      → SessionForwarded session_id raw event.connection_id
  unfolding relay_session_frame forward_in_session
  relay_session_frame-SessionForwarded fuel session_id raw event h =
      let (t, x, k) = Runs-bind world _ tt time h in
      let (c, y, l) = Runs-bind world _ tt (connection event.connection_id t) k in
      let (reads_c, alive_c) = connection-Read world event.connection_id t c y in
      Runs-if world (not (is_endpoint c.auth_mode) || is_empty c.endpoint_id) _ _ tt
        (λ e m. absurd m)
        (λ e m.
          let (u, z, n) =
            Runs-bind world _ tt (rate_limit c.endpoint_id "session.frame" 3600 t) m in
          let (s, w, v) = Runs-bind world _ tt (session session_id t) n in
          let (reads_s, active, alive_s) = session-Read world session_id t s w in
          let (d, id, peer, full, took) =
            forward-took fuel "session.frame" raw (session_peer s event.connection_id) v in
          record {
            t = t;
            c = c;
            s = s;
            receiver = d;
            id = id;
            timed = clock_of t x;
            reads_c = reads_c;
            c_alive = alive_c;
            c_endpoint = (ground (arith, e), ground (arith, e));
            reads_s = reads_s;
            s_active = active;
            s_alive = alive_s;
            opposite = session_peer-Opposite s event.connection_id d peer;
            sent = took;
          })
        l

  -- The frame `raw` for a pair went from `sender` to the other side of the pair.
  pub record PairForwarded (pair_id raw sender : String) : Type 0 where
    pub t : ℕ
    pub p : Pair
    pub side : PairSide
    pub receiver : String
    pub id : String
    pub timed : world.clock t
    pub reads_p : world.reads pair_kind pair_id (some p)
    pub p_alive : t < p.expires_at
    pub p_joined : (p.status ≡ ready) ⊎ (p.status ≡ half_committed)
    pub has_side : p.side_b ≡ some side
    pub opposite : Opposite p.side_a.connection_id side.connection_id sender receiver
    pub sent : world.took receiver (response "pair.frame" (frame_body raw) id "")

  -- If `relayPairFrame` succeeds, the pair was read as not expired and as ready or half committed, it has
  -- two sides, the sender's connection is that of one of them, and the gateway took the frame,
  -- unchanged, for the connection of the other one.
  pub relay_pair_frame-PairForwarded :
      (fuel : ℕ) (wire : Wire) (pair_id raw : String) (event : WebSocketEvent)
      → Runs world (relay_pair_frame fuel wire pair_id raw event) tt
      → PairForwarded pair_id raw event.connection_id
  unfolding relay_pair_frame forward_in_pair
  relay_pair_frame-PairForwarded fuel wire pair_id raw event h =
      let (now, x, k) = Runs-bind world _ tt time h in
      let (u, y, l) =
        Runs-bind world _ tt (rate_limit (source_of wire event) "pair.frame" 120 now) k in
      let (t, z, m) = Runs-bind world _ tt time l in
      let (p, w, n) = Runs-bind world _ tt (pair_by_id pair_id t) m in
      let (reads_p, same, alive) = pair_by_id-Read world pair_id t p w in
      Runs-if world (not (status_eq p.status ready) && not (status_eq p.status half_committed)) _ _
        tt (λ e q. absurd q)
        (λ e q.
          let (d, id, peer, full, took) =
            forward-took fuel "pair.frame" raw (peer_connection p event.connection_id) q in
          let (side, has, opposite) = peer_connection-Opposite p event.connection_id d peer full in
          record {
            t = t;
            p = p;
            side = side;
            receiver = d;
            id = id;
            timed = clock_of t z;
            reads_p = reads_p;
            p_alive = alive;
            p_joined = joined_by p.status e;
            has_side = has;
            opposite = opposite;
            sent = took;
          })
        n
