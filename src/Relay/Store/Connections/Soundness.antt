-- ===== src/Relay/Store/Connections/Soundness.antt =====
-- Connecting and disconnecting (services/rendezvous-relay/internal/relay/store.go), and the
-- soundness of the requests.
use remote_davinci.Base.{ℕ, zero, suc, String, Bool, Option, none, some, List}
use remote_davinci.Relay.Model.{
  Connection, Endpoint, Pair, Session, CloseSessionResult, DisconnectResult,
}
use remote_davinci.Relay.Table.{Write, connection_kind, endpoint_kind, session_kind, pair_kind}
use remote_davinci.Relay.Effect.{Prog}
use remote_davinci.Relay.Store.Sessions.{max_attempts}
use remote_davinci.Relay.Store.Sessions.Soundness.{transact_session_transition-Sound}
use remote_davinci.Relay.Safety.Writes.{
  put_if_absent-SoundWrite, connection_delete-SoundWrite, connection_delete_existing-SoundWrite,
  endpoint_connect-SoundWrite, endpoint_disconnect-SoundWrite,
}
use remote_davinci.Relay.Safety.PairWrites.{pair_close_member-SoundWrite}
use remote_davinci.Relay.Safety.Calls.{
  SoundWrites, no_writes, more_writes, sound_rules, Sound-retrying, Sound, Sound-pure, Sound-fail,
  Sound-if, Sound-bind, Sound-get_item, Sound-transact_items, Sound-attempt,
}
use remote_davinci.Relay.Store.Connections.{
  same_connection, active_session, connect_writes, connect_commit, connect_endpoint, connect_rounds,
  connect, finish, pair_writes, disconnect_pairing, disconnect_session, disconnect_endpoint,
  disconnect_connection, disconnect_rounds, disconnect, unexpired, connection, has_side,
}

same_connection-Sound : (c : Connection) (e : Endpoint) → Sound (same_connection c e)
unfolding same_connection
same_connection-Sound c e =
    Sound-if _ _ _ (Sound-pure _)
      (Sound-bind _ _ (Sound-get_item connection_kind c.connection_id) λ x. Sound-pure _)

active_session-Sound : (e : Endpoint) → Sound (active_session e)
unfolding active_session
active_session-Sound e =
    Sound-if _ _ _ (Sound-pure _) (Sound-get_item session_kind e.active_session_id)

connect_writes-Sound :
    (same : Bool) (c : Connection) (hash : String) (e : Endpoint)
    → SoundWrites (connect_writes same c hash e)
unfolding connect_writes
connect_writes-Sound same c hash e =
    search
      (
        sound_rules,
        put_if_absent-SoundWrite connection_kind c.connection_id c tt,
        endpoint_connect-SoundWrite,
        connection_delete-SoundWrite,
      )
      depth 8

module _ (again : Prog (Option CloseSessionResult)) (again-Sound : Sound again) where
  connect_plain-Sound :
      (ws : List Write) (c : Connection) (e : Endpoint)
      → SoundWrites ws
      → Sound (connect_commit again ws c e none)
  unfolding connect_commit
  connect_plain-Sound ws c e h =
      Sound-bind _ _ (Sound-transact_items ws h)
        λ r. Sound-retrying _ _ r again-Sound (λ a. Sound-pure _)

  connect_commit-Sound :
      (ws : List Write) (c : Connection) (e : Endpoint) (s : Option Session)
      → SoundWrites ws
      → Sound (connect_commit again ws c e s)
  unfolding connect_commit
  connect_commit-Sound ws c e none h = connect_plain-Sound ws c e h
  connect_commit-Sound ws c e (some s) h =
      Sound-if (has_side s e.endpoint_id) _ _
        (Sound-bind _ _
          (Sound-attempt _ (transact_session_transition-Sound s c.connected_at ws _ none h))
          λ r. Sound-retrying _ _ r again-Sound (λ a. Sound-pure _))
        (connect_plain-Sound ws c e h)

  connect_endpoint-Sound :
      (c : Connection) (hash : String) (e : Option Endpoint)
      → Sound (connect_endpoint again c hash e)
  unfolding connect_endpoint
  connect_endpoint-Sound c hash none = Sound-fail _
  connect_endpoint-Sound c hash (some e) = Sound-if _ _ _ (Sound-fail _) (
      Sound-bind _ _ (same_connection-Sound c e) λ same.
        Sound-bind _ _ (active_session-Sound e) λ s.
          Sound-if _ _ _ (Sound-pure _)
            (connect_commit-Sound _ c e s (connect_writes-Sound same c hash e)))

connect_rounds-Sound : (n : ℕ) (c : Connection) (hash : String) → Sound (connect_rounds n c hash)
unfolding connect_rounds
connect_rounds-Sound zero c hash = Sound-fail _
connect_rounds-Sound (suc n) c hash =
    Sound-bind _ _ (Sound-get_item endpoint_kind c.endpoint_id)
      λ e. connect_endpoint-Sound _ (connect_rounds-Sound n c hash) c hash e

pub connect-Sound : (c : Connection) (hash : String) → Sound (connect c hash)
unfolding connect
connect-Sound c hash = Sound-if _ _ _ (Sound-fail _) (
    Sound-if _ _ _
      (Sound-bind _ _
        (Sound-transact_items _
          (more_writes (put_if_absent-SoundWrite connection_kind c.connection_id c tt) no_writes))
        λ r. search sound_rules)
      (connect_rounds-Sound max_attempts c hash))

pair_writes-Sound :
    (c : Connection) (id : String) (p : Option Pair) → SoundWrites (pair_writes c id p)
unfolding pair_writes
pair_writes-Sound c id none = no_writes
pair_writes-Sound c id (some p) = search (sound_rules, pair_close_member-SoundWrite)

module _ (again : Prog (Option DisconnectResult)) (again-Sound : Sound again) where
  finish-Sound : (c : Connection) (ws : List Write) → SoundWrites ws → Sound (finish again c ws)
  unfolding finish
  finish-Sound c ws h =
      Sound-bind _ _ (Sound-transact_items ws h)
        λ r. Sound-retrying _ _ r again-Sound (λ a. Sound-pure _)

  disconnect_pairing-Sound : (id : String) (c : Connection) → Sound (disconnect_pairing again id c)
  unfolding disconnect_pairing
  disconnect_pairing-Sound id c =
      Sound-bind _ _ (Sound-if _ _ _ (Sound-pure _) (Sound-get_item pair_kind c.pairing_id)) λ p.
        finish-Sound c _
          (more_writes (connection_delete_existing-SoundWrite id) (pair_writes-Sound c id p))

  disconnect_session-Sound :
      (id : String) (now : ℕ) (c : Connection) (ws : List Write) (s : Option Session)
      → SoundWrites ws
      → Sound (disconnect_session again id now c ws s)
  unfolding disconnect_session
  disconnect_session-Sound id now c ws none h = finish-Sound c ws h
  disconnect_session-Sound id now c ws (some s) h =
      Sound-if _ _ _
        (Sound-bind _ _ (Sound-attempt _ (transact_session_transition-Sound s now ws _ none h))
          λ r. Sound-retrying _ _ r again-Sound (λ a. Sound-pure _))
        (finish-Sound c ws h)

  disconnect_endpoint-Sound :
      (id : String) (now : ℕ) (c : Connection) (e : Option Endpoint)
      → Sound (disconnect_endpoint again id now c e)
  unfolding disconnect_endpoint
  disconnect_endpoint-Sound id now c none =
      search (sound_rules, finish-Sound, connection_delete_existing-SoundWrite)
  disconnect_endpoint-Sound id now c (some e) =
      search
        (
          sound_rules, finish-Sound, disconnect_session-Sound,
          connection_delete_existing-SoundWrite, endpoint_disconnect-SoundWrite,
        )
        depth 8

  disconnect_connection-Sound :
      (id : String) (now : ℕ) (c : Option Connection) → Sound (disconnect_connection again id now c)
  unfolding disconnect_connection
  disconnect_connection-Sound id now none = Sound-pure _
  disconnect_connection-Sound id now (some c) = Sound-if _ _ _ (disconnect_pairing-Sound id c) (
      Sound-bind _ _ (Sound-get_item endpoint_kind c.endpoint_id)
        λ e. disconnect_endpoint-Sound id now c e)

disconnect_rounds-Sound : (n : ℕ) (id : String) (now : ℕ) → Sound (disconnect_rounds n id now)
unfolding disconnect_rounds
disconnect_rounds-Sound zero id now = Sound-fail _
disconnect_rounds-Sound (suc n) id now =
    Sound-bind _ _ (Sound-get_item connection_kind id)
      λ c. disconnect_connection-Sound _ (disconnect_rounds-Sound n id now) id now c

pub disconnect-Sound : (id : String) (now : ℕ) → Sound (disconnect id now)
unfolding disconnect
disconnect-Sound = disconnect_rounds-Sound max_attempts

unexpired-Sound : (now : ℕ) (c : Option Connection) → Sound (unexpired now c)
unfolding unexpired
unexpired-Sound now none = Sound-fail _
unexpired-Sound now (some c) = Sound-if _ _ _ (Sound-fail _) (Sound-pure c)

pub connection-Sound : (id : String) (now : ℕ) → Sound (connection id now)
unfolding connection
connection-Sound id now = search (sound_rules, unexpired-Sound)
