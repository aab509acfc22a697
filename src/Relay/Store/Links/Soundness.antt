-- ===== src/Relay/Store/Links/Soundness.antt =====
-- Revoking and rotating (services/rendezvous-relay/internal/relay/store.go), and the soundness
-- of the requests.
use remote_davinci.Base.{ℕ, zero, suc, String, Option, none, some, List}
use remote_davinci.Relay.Model.{Endpoint, Link, Session, RevokeLinkResult, RevokeEndpointResult}
use remote_davinci.Relay.Table.{Write, endpoint_kind, link_kind, session_kind}
use remote_davinci.Relay.Effect.{Prog}
use remote_davinci.Relay.Store.Sessions.{max_attempts, Fence}
use remote_davinci.Relay.Store.Sessions.Soundness.{
  transact_session_transition-Sound, current_endpoint-Sound, close_session-Sound,
}
use remote_davinci.Relay.Safety.Writes.{
  connection_delete-SoundWrite, endpoint_fence-SoundWrite, endpoint_rotate-SoundWrite,
  endpoint_revoke-SoundWrite, link_release-SoundWrite, link_revoke-SoundWrite,
}
use remote_davinci.Relay.Safety.Calls.{
  SoundWrites, sound_rules, Sound-retrying, Sound, Sound-pure, Sound-fail, Sound-if, Sound-bind,
  Sound-get_item, Sound-transact_items, Sound-update_item, Sound-attempt,
}
use remote_davinci.Relay.Store.Links.{
  get_endpoint, link, clear_link, revoke_again, revoke_idle, revoke_busy, revoke_active,
  revoke_read, revoke_link_rounds, revoke_link, rotate_endpoint, revoke_plainly,
  revoke_with_session, revoke_endpoint_writes, revoke_current, revoke_endpoint_rounds,
  revoke_endpoint,
}

pub get_endpoint-Sound : (id : String) → Sound (get_endpoint id)
unfolding get_endpoint
get_endpoint-Sound id = Sound-get_item endpoint_kind id

pub link-Sound : (id : String) → Sound (link id)
unfolding link
link-Sound id = Sound-get_item link_kind id

clear_link-Sound : (id session_id : String) → Sound (clear_link id session_id)
unfolding clear_link
clear_link-Sound id session_id =
    Sound-bind _ _ (Sound-update_item _ (link_release-SoundWrite id session_id))
      λ r. Sound-retrying _ _ r (Sound-pure tt) (λ a. Sound-pure a)

revoke_again-Sound :
    (l : Link) (link_id id connection_id : String) (now : ℕ)
    → Sound (revoke_again l link_id id connection_id now)
unfolding revoke_again
revoke_again-Sound l link_id id connection_id now = Sound-if _ _ _ (Sound-pure _) (
    Sound-bind _ _ (close_session-Sound l.active_session_id id connection_id now) λ closed.
      Sound-bind _ _ (Sound-attempt _ (clear_link-Sound link_id l.active_session_id))
        λ r. Sound-pure _)

module _ (again : Prog RevokeLinkResult) (again-Sound : Sound again) where
  revoke_idle-Sound :
      (l : Link) (link_id id connection_id : String) (now : ℕ)
      → Sound (revoke_idle again l link_id id connection_id now)
  unfolding revoke_idle
  revoke_idle-Sound l link_id id connection_id now =
      Sound-bind _ _ (search (sound_rules, link_revoke-SoundWrite, endpoint_fence-SoundWrite))
        (search (sound_rules, again-Sound))

  revoke_busy-Sound :
      (l : Link) (s : Session) (link_id : String) (fence : Fence) (now : ℕ)
      → Sound (revoke_busy again l s link_id fence now)
  unfolding revoke_busy
  revoke_busy-Sound l s link_id fence now =
      Sound-bind _ _
        (search (sound_rules, transact_session_transition-Sound, link_revoke-SoundWrite))
        (search (sound_rules, again-Sound))

  revoke_active-Sound :
      (l : Link) (link_id id connection_id : String) (now : ℕ)
      → Sound (revoke_active again l link_id id connection_id now)
  unfolding revoke_active
  revoke_active-Sound l link_id id connection_id now =
      Sound-if _ _ _ (revoke_idle-Sound l link_id id connection_id now) (
        Sound-bind _ _ (Sound-get_item session_kind l.active_session_id)
          λ s. revoke_busy-Sound l _ link_id _ now)

  revoke_read-Sound :
      (l : Option Link) (link_id id connection_id : String) (now : ℕ)
      → Sound (revoke_read again l link_id id connection_id now)
  unfolding revoke_read
  revoke_read-Sound none link_id id connection_id now = Sound-fail _
  revoke_read-Sound (some l) link_id id connection_id now = Sound-if _ _ _ (Sound-fail _) (
      Sound-if _ _ _ (revoke_again-Sound l link_id id connection_id now)
        (revoke_active-Sound l link_id id connection_id now))

revoke_link_rounds-Sound :
    (n : ℕ) (link_id id connection_id : String) (now : ℕ)
    → Sound (revoke_link_rounds n link_id id connection_id now)
unfolding revoke_link_rounds
revoke_link_rounds-Sound zero link_id id connection_id now = Sound-fail _
revoke_link_rounds-Sound (suc n) link_id id connection_id now =
    Sound-bind _ _ (current_endpoint-Sound id connection_id) λ e.
      Sound-bind _ _ (link-Sound link_id) λ l.
        revoke_read-Sound _ (revoke_link_rounds-Sound n link_id id connection_id now) l link_id id
          connection_id now

pub revoke_link-Sound :
    (link_id id connection_id : String) (now : ℕ) → Sound (revoke_link link_id id connection_id now)
unfolding revoke_link
revoke_link-Sound = revoke_link_rounds-Sound max_attempts

pub rotate_endpoint-Sound :
    (id connection_id hash : String) (now : ℕ) → Sound (rotate_endpoint id connection_id hash now)
unfolding rotate_endpoint
rotate_endpoint-Sound id connection_id hash now =
    Sound-bind _ _ (Sound-update_item _ (endpoint_rotate-SoundWrite id connection_id hash now))
      λ r. Sound-retrying _ _ r (Sound-fail _) (λ a. Sound-pure a)

revoke_endpoint_writes-Sound :
    (e : Endpoint) (id connection_id : String) (now : ℕ)
    → SoundWrites (revoke_endpoint_writes e id connection_id now)
unfolding revoke_endpoint_writes
revoke_endpoint_writes-Sound e id connection_id now =
    search (sound_rules, endpoint_revoke-SoundWrite, connection_delete-SoundWrite)

module _ (again : Prog RevokeEndpointResult) (again-Sound : Sound again) where
  revoke_plainly-Sound :
      (e : Endpoint) (ws : List Write) (now : ℕ)
      → SoundWrites ws
      → Sound (revoke_plainly again e ws now)
  unfolding revoke_plainly
  revoke_plainly-Sound e ws now h =
      Sound-bind _ _ (Sound-transact_items ws h)
        λ r. Sound-retrying _ _ r again-Sound (λ a. Sound-pure _)

  revoke_with_session-Sound :
      (e : Endpoint) (ws : List Write) (id : String) (now : ℕ) (s : Option Session)
      → SoundWrites ws
      → Sound (revoke_with_session again e ws id now s)
  unfolding revoke_with_session
  revoke_with_session-Sound e ws id now none h = revoke_plainly-Sound e ws now h
  revoke_with_session-Sound e ws id now (some s) h =
      Sound-if _ _ _ (revoke_plainly-Sound e ws now h) (
        Sound-bind _ _ (Sound-attempt _ (transact_session_transition-Sound s now ws _ none h))
          λ r. Sound-retrying _ _ r again-Sound (λ a. Sound-pure _))

  revoke_current-Sound :
      (e : Endpoint) (id connection_id : String) (now : ℕ)
      → Sound (revoke_current again e id connection_id now)
  unfolding revoke_current
  revoke_current-Sound e id connection_id now =
      let h = revoke_endpoint_writes-Sound e id connection_id now in
      Sound-if _ _ _ (revoke_plainly-Sound e _ now h) (
        Sound-bind _ _ (Sound-get_item session_kind e.active_session_id)
          λ s. revoke_with_session-Sound e _ id now s h)

revoke_endpoint_rounds-Sound :
    (n : ℕ) (id connection_id : String) (now : ℕ)
    → Sound (revoke_endpoint_rounds n id connection_id now)
unfolding revoke_endpoint_rounds
revoke_endpoint_rounds-Sound zero id connection_id now = Sound-fail _
revoke_endpoint_rounds-Sound (suc n) id connection_id now =
    Sound-bind _ _ (current_endpoint-Sound id connection_id) λ e.
      revoke_current-Sound _ (revoke_endpoint_rounds-Sound n id connection_id now) e id
        connection_id now

pub revoke_endpoint-Sound :
    (id connection_id : String) (now : ℕ) → Sound (revoke_endpoint id connection_id now)
unfolding revoke_endpoint
revoke_endpoint-Sound = revoke_endpoint_rounds-Sound max_attempts
