-- ===== src/Relay/Store/Opening/Soundness.antt =====
-- Opening a session (services/rendezvous-relay/internal/relay/store.go), and the soundness of
-- the requests.
use remote_davinci.Base.{ℕ, zero, suc, String, refl, Option, none, some, List, [], ◌∷◌}
use remote_davinci.Relay.Model.{Endpoint, Link, Session}
use remote_davinci.Relay.Table.{endpoint_kind, link_kind, session_kind}
use remote_davinci.Relay.Effect.{Prog}
use remote_davinci.Relay.Store.Sessions.{max_attempts}
use remote_davinci.Relay.Store.Sessions.Soundness.{
  transact_session_transition-Sound, close_session-Sound,
}
use remote_davinci.Relay.Safety.Rows.{SessionOk}
use remote_davinci.Relay.Safety.Writes.{
  put_if_absent-SoundWrite, link_open-SoundWrite, endpoint_open-SoundWrite,
}
use remote_davinci.Relay.Safety.Calls.{
  SoundWrites, more_writes, sound_rules, Sound, Sound-pure, Sound-fail, Sound-if, Sound-bind,
  Sound-get_item,
}
use remote_davinci.Relay.Store.Opening.{
  open_unlocked, open_with_peer, open_commit, repair_read, repair_stale_session, repair_all,
  stale_locks, new_session, open_writes, open_between, open_endpoints, open_link,
  open_session_rounds, open_session,
}

repair_read-Sound :
    (id : String) (l : Link) (now : ℕ) (s : Option Session) → Sound (repair_read id l now s)
unfolding repair_read
repair_read-Sound id l now none =
    Sound-bind _ _ (search (sound_rules, transact_session_transition-Sound)) λ r. search sound_rules
repair_read-Sound id l now (some s) = search (sound_rules, close_session-Sound)

repair_stale_session-Sound :
    (id : String) (l : Link) (now : ℕ) → Sound (repair_stale_session id l now)
unfolding repair_stale_session
repair_stale_session-Sound id l now = search (sound_rules, repair_read-Sound)

repair_all-Sound : (ids : List String) (l : Link) (now : ℕ) → Sound (repair_all ids l now)
unfolding repair_all
repair_all-Sound [] l now = Sound-pure _
repair_all-Sound (id ∷ ids) l now = Sound-bind _ _ (repair_stale_session-Sound id l now) λ fixed.
    Sound-if fixed _ _ (Sound-bind _ _ (repair_all-Sound ids l now) λ rest. Sound-pure _)
      (Sound-fail _)

open_writes-Sound : (id : String) (s : Session) → SessionOk s → SoundWrites (open_writes id s)
unfolding open_writes
open_writes-Sound id s h =
    more_writes (put_if_absent-SoundWrite session_kind s.session_id s h)
      (search (sound_rules, link_open-SoundWrite, endpoint_open-SoundWrite))

new_session-SessionOk :
    (session_id link_id : String) (c d : Endpoint) (connection_id : String) (now : ℕ)
    → SessionOk (new_session session_id link_id c d connection_id now)
unfolding new_session
new_session-SessionOk session_id link_id c d connection_id now h = refl

module _ (again : Prog Session) (again-Sound : Sound again) where
  open_commit-Sound : (id : String) (s : Session) → SessionOk s → Sound (open_commit again id s)
  unfolding open_commit
  open_commit-Sound id s h =
      Sound-bind _ _ (search (sound_rules, open_writes-Sound id s h))
        (search (sound_rules, again-Sound))

  open_with_peer-Sound :
      (d : Endpoint) (id : String) (s : Session) → SessionOk s → Sound (open_with_peer again d id s)
  unfolding open_with_peer
  open_with_peer-Sound d id s h = Sound-if _ _ _ (Sound-fail _) (open_commit-Sound id s h)

  open_unlocked-Sound :
      (l : Link) (c d : Endpoint) (link_id connection_id session_id : String) (now : ℕ)
      → Sound (open_unlocked again l c d link_id connection_id session_id now)
  unfolding open_unlocked
  open_unlocked-Sound l c d link_id connection_id session_id now = Sound-if _ _ _ (Sound-fail _) (
      open_with_peer-Sound d link_id _
        (new_session-SessionOk session_id link_id c d connection_id now))

  open_between-Sound :
      (l : Link) (c d : Endpoint) (link_id connection_id session_id : String) (now : ℕ)
      → Sound (open_between again l c d link_id connection_id session_id now)
  unfolding open_between
  open_between-Sound l c d link_id connection_id session_id now =
      Sound-bind _ _ (repair_all-Sound (stale_locks l c d) l now) λ repaired.
        Sound-if repaired _ _ again-Sound
          (open_unlocked-Sound l c d link_id connection_id session_id now)

  open_endpoints-Sound :
      (l : Link) (c d : Option Endpoint) (link_id connection_id session_id : String) (now : ℕ)
      → Sound (open_endpoints again l c d link_id connection_id session_id now)
  unfolding open_endpoints
  open_endpoints-Sound l none d link_id connection_id session_id now = Sound-fail _
  open_endpoints-Sound l (some c) none link_id connection_id session_id now = Sound-fail _
  open_endpoints-Sound l (some c) (some d) link_id connection_id session_id now =
      open_between-Sound l c d link_id connection_id session_id now

  open_link-Sound :
      (l : Option Link) (link_id endpoint_id connection_id session_id : String) (now : ℕ)
      → Sound (open_link again l link_id endpoint_id connection_id session_id now)
  unfolding open_link
  open_link-Sound none link_id endpoint_id connection_id session_id now = Sound-fail _
  open_link-Sound (some l) link_id endpoint_id connection_id session_id now =
      Sound-if _ _ _ (Sound-fail _) (
        Sound-bind _ _ (Sound-get_item endpoint_kind l.controller_id) λ c.
          Sound-bind _ _ (Sound-get_item endpoint_kind l.companion_id)
            λ d. open_endpoints-Sound l c d link_id connection_id session_id now)

open_session_rounds-Sound :
    (n : ℕ) (link_id endpoint_id connection_id session_id : String) (now : ℕ)
    → Sound (open_session_rounds n link_id endpoint_id connection_id session_id now)
unfolding open_session_rounds
open_session_rounds-Sound zero link_id endpoint_id connection_id session_id now = Sound-fail _
open_session_rounds-Sound (suc n) link_id endpoint_id connection_id session_id now =
    Sound-bind _ _ (Sound-get_item link_kind link_id) λ l.
      open_link-Sound _
        (open_session_rounds-Sound n link_id endpoint_id connection_id session_id now) l link_id
        endpoint_id connection_id session_id now

pub open_session-Sound :
    (link_id endpoint_id connection_id session_id : String) (now : ℕ)
    → Sound (open_session link_id endpoint_id connection_id session_id now)
unfolding open_session
open_session-Sound = open_session_rounds-Sound max_attempts
