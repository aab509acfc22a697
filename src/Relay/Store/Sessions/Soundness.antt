-- ===== src/Relay/Store/Sessions/Soundness.antt =====
-- Closing and reading sessions (services/rendezvous-relay/internal/relay/store.go), and the
-- soundness of the requests.
use remote_davinci.Base.{
  ℕ, zero, suc, String, Bool, false, Option, none, some, List, [], ◌∷◌, is_empty, ◌||◌,
}
use remote_davinci.Relay.Model.{Session, Link, Endpoint, CloseSessionResult}
use remote_davinci.Relay.Table.{Write, link_kind, endpoint_kind, session_kind}
use remote_davinci.Relay.Effect.{Prog}
use remote_davinci.Relay.Safety.Writes.{
  endpoint_fence-SoundWrite, endpoint_release-SoundWrite, link_release-SoundWrite,
  session_close-SoundWrite,
}
use remote_davinci.Relay.Safety.Calls.{
  SoundWrites, no_writes, SoundWrites-append, Yields, Yields-bind, Yields-then, Yields-pure,
  Yields-if, Sound, Sound-pure, Sound-if, Sound-bind, Sound-fail, Sound-get_item, sound_rules,
}
use remote_davinci.Relay.Store.Sessions.{
  Omit, Fence, omits_link, omits_endpoint, release_link_writes, release_link,
  release_endpoint_writes, release_endpoint, fence_writes, close_writes, commit_transition,
  transact_session_transition, check_endpoint, current_endpoint, authorize_close, close_read,
  close_session_rounds, close_session, found_session, session, max_attempts,
}

release_link_writes-Sound : (s : Session) (l : Option Link) → SoundWrites (release_link_writes s l)
unfolding release_link_writes
release_link_writes-Sound s none = no_writes
release_link_writes-Sound s (some l) = search (sound_rules, link_release-SoundWrite)

release_link-Sound : (s : Session) (omit : Omit) → Yields SoundWrites (release_link s omit)
unfolding release_link
release_link-Sound s omit = Yields-if (omits_link omit s.link_id) _ _ (Yields-pure [] no_writes) (
    Yields-then _ _ (Sound-get_item link_kind s.link_id)
      λ l. Yields-pure _ (release_link_writes-Sound s l))

release_endpoint_writes-Sound :
    (s : Session) (fences : Option Fence) (id : String) (e : Option Endpoint)
    → SoundWrites (release_endpoint_writes s fences id e).0
unfolding release_endpoint_writes
release_endpoint_writes-Sound s fences id none = no_writes
release_endpoint_writes-Sound s fences id (some e) =
    search (sound_rules, endpoint_release-SoundWrite)

abbrev SoundRelease : List Write × Bool → Type 0
SoundRelease r = SoundWrites r.0

release_endpoint-Sound :
    (s : Session) (omit : Omit) (fences : Option Fence) (id : String)
    → Yields SoundRelease (release_endpoint s omit fences id)
unfolding release_endpoint
release_endpoint-Sound s omit fences id =
    Yields-if (is_empty id || omits_endpoint omit id) _ _ (Yields-pure ([], false) no_writes) (
      Yields-then _ _ (Sound-get_item endpoint_kind id)
        λ e. Yields-pure _ (release_endpoint_writes-Sound s fences id e))

fence_writes-Sound :
    (omit : Omit) (fences : Option Fence) (fenced : Bool)
    → SoundWrites (fence_writes omit fences fenced)
unfolding fence_writes
fence_writes-Sound omit none fenced = no_writes
fence_writes-Sound omit (some f) fenced = search (sound_rules, endpoint_fence-SoundWrite)

close_writes-Sound : (s : Session) (now : ℕ) → SoundWrites (close_writes s now)
unfolding close_writes
close_writes-Sound s now = search (sound_rules, session_close-SoundWrite)

commit_transition-Sound :
    (closing : Bool) (ws : List Write) → SoundWrites ws → Sound (commit_transition closing ws)
unfolding commit_transition
commit_transition-Sound closing [] h = Sound-pure false
commit_transition-Sound closing (w ∷ ws) h = search sound_rules

-- A transition adds sound writes to those that it is given.
pub transact_session_transition-Sound :
    (s : Session) (now : ℕ) (prefix : List Write) (omit : Omit) (fences : Option Fence)
    → SoundWrites prefix
    → Sound (transact_session_transition s now prefix omit fences)
unfolding transact_session_transition
transact_session_transition-Sound s now prefix omit fences h =
    Yields-bind _ _ (release_link-Sound s omit) λ link hl.
      Yields-bind _ _ (release_endpoint-Sound s omit fences s.controller_id) λ c hc.
        Yields-bind _ _ (release_endpoint-Sound s omit fences s.companion_id) λ d hd.
          commit_transition-Sound _ _ (
            search (h, hl, hc, hd, SoundWrites-append, close_writes-Sound, fence_writes-Sound) depth
              8)

check_endpoint-Sound : (e : Option Endpoint) (id : String) → Sound (check_endpoint e id)
unfolding check_endpoint
check_endpoint-Sound none id = Sound-fail _
check_endpoint-Sound (some e) id = search sound_rules

pub current_endpoint-Sound : (id connection_id : String) → Sound (current_endpoint id connection_id)
unfolding current_endpoint
current_endpoint-Sound id connection_id = search (sound_rules, check_endpoint-Sound)

authorize_close-Sound : (id connection_id : String) → Sound (authorize_close id connection_id)
unfolding authorize_close
authorize_close-Sound id connection_id = search (sound_rules, current_endpoint-Sound)

close_read-Sound :
    (again : Prog (Option CloseSessionResult)) (id connection_id : String) (now : ℕ)
    (s : Option Session)
    → Sound again
    → Sound (close_read again id connection_id now s)
unfolding close_read
close_read-Sound again id connection_id now none h = Sound-pure none
close_read-Sound again id connection_id now (some s) h = Sound-if _ _ _ (Sound-fail _) (
    Sound-bind _ _ (search (sound_rules, transact_session_transition-Sound))
      (search (sound_rules, h)))

close_session_rounds-Sound :
    (n : ℕ) (session_id id connection_id : String) (now : ℕ)
    → Sound (close_session_rounds n session_id id connection_id now)
unfolding close_session_rounds
close_session_rounds-Sound zero session_id id connection_id now = Sound-fail _
close_session_rounds-Sound (suc n) session_id id connection_id now =
    Sound-bind _ _ (authorize_close-Sound id connection_id) λ _.
      Sound-bind _ _ (Sound-get_item session_kind session_id) λ s.
        close_read-Sound _ id connection_id now s
          (close_session_rounds-Sound n session_id id connection_id now)

pub close_session-Sound :
    (session_id id connection_id : String) (now : ℕ)
    → Sound (close_session session_id id connection_id now)
unfolding close_session
close_session-Sound = close_session_rounds-Sound max_attempts

found_session-Sound :
    (session_id : String) (now : ℕ) (s : Option Session) → Sound (found_session session_id now s)
unfolding found_session
found_session-Sound session_id now none = Sound-fail _
found_session-Sound session_id now (some s) = search (sound_rules, close_session-Sound)

pub session-Sound : (session_id : String) (now : ℕ) → Sound (session session_id now)
unfolding session
session-Sound session_id now = search (sound_rules, found_session-Sound)
