-- ===== src/Relay/Handler/Requests/Soundness.antt =====
-- `dispatch` of services/rendezvous-relay/internal/relay/handler.go, and the soundness of the
-- requests.
use remote_davinci.Base.{ℕ, String, Option, none, some}
use remote_davinci.Relay.Model.{Connection, Session, CloseSessionResult, Link}
use remote_davinci.Relay.Failure.{Result, ok, err}
use remote_davinci.Relay.Message.{Reply}
use remote_davinci.Relay.Effect.{Prog}
use remote_davinci.Relay.Store.Opening.Soundness.{open_session-Sound}
use remote_davinci.Relay.Store.Links.Soundness.{
  get_endpoint-Sound, link-Sound, revoke_link-Sound, rotate_endpoint-Sound, revoke_endpoint-Sound,
}
use remote_davinci.Relay.Safety.Calls.{
  Sound, Sound-pure, Sound-fail, Sound-bind, Sound-if, Sound-attempt, Sound-time, Sound-new_id,
}
use remote_davinci.Relay.Handler.Event.{
  Request, system_hello, system_ping, pair_create, pair_join, pair_commit, pair_cancel, pair_frame,
  link_get, link_revoke, endpoint_rotate, endpoint_revoke, session_open, session_close,
  session_frame, Wire,
}
use remote_davinci.Relay.Handler.Notify.Soundness.{
  notify-Sound, notify_closed_session-Sound, notify_endpoint-Sound, notify_opened_session-Sound,
  close_and_notify-Sound, join_errors-Sound,
}
use remote_davinci.Relay.Handler.Dispatch.Soundness.{
  create_request-Sound, join_request-Sound, commit_request-Sound, cancel_request-Sound,
}
use remote_davinci.Relay.Handler.Requests.{
  with_endpoint, found_link, get_request, revoke_link_request, rotate_request, announce_revoked,
  after_revocation, revoke_endpoint_request, after_opening, open_request, close_request, serve,
  dispatch,
}

with_endpoint-Sound : (c : Connection) (m : Prog Reply) → Sound m → Sound (with_endpoint c m)
unfolding with_endpoint
with_endpoint-Sound c m h = Sound-if _ _ _ (Sound-fail _) h

found_link-Sound : (l : Option Link) (id : String) → Sound (found_link l id)
unfolding found_link
found_link-Sound none id = Sound-fail _
found_link-Sound (some l) id =
    Sound-if _ _ _ (Sound-fail _) (Sound-bind _ _ (get_endpoint-Sound _) λ e. Sound-pure _)

get_request-Sound : (id : String) (c : Connection) → Sound (get_request id c)
unfolding get_request
get_request-Sound id c = Sound-bind _ _ (link-Sound id) λ l. found_link-Sound l _

revoke_link_request-Sound :
    (fuel : ℕ) (id : String) (c : Connection) (t : ℕ) → Sound (revoke_link_request fuel id c t)
unfolding revoke_link_request
revoke_link_request-Sound fuel id c t = Sound-bind _ _ (revoke_link-Sound id _ _ t) λ r.
    Sound-bind _ _ (notify_closed_session-Sound fuel r.session _ _) λ a.
      Sound-bind _ _ Sound-new_id
        λ fresh. Sound-bind _ _ (notify_endpoint-Sound fuel _ _) λ b. Sound-pure _

rotate_request-Sound : (hash : String) (c : Connection) (t : ℕ) → Sound (rotate_request hash c t)
unfolding rotate_request
rotate_request-Sound hash c t = Sound-bind _ _ (rotate_endpoint-Sound _ _ hash t) λ a. Sound-pure _

announce_revoked-Sound : (fuel : ℕ) (s : Session) (id : String) → Sound (announce_revoked fuel s id)
unfolding announce_revoked
announce_revoked-Sound fuel s id =
    Sound-bind _ _ Sound-new_id λ fresh. Sound-bind _ _ (notify-Sound fuel _ _) λ a. Sound-pure _

after_revocation-Sound :
    (fuel : ℕ) (r : Option CloseSessionResult) (id : String) → Sound (after_revocation fuel r id)
unfolding after_revocation
after_revocation-Sound fuel none id = Sound-pure _
after_revocation-Sound fuel (some r) id =
    Sound-if _ _ _ (announce_revoked-Sound fuel r.session id) (Sound-pure _)

revoke_endpoint_request-Sound :
    (fuel : ℕ) (c : Connection) (t : ℕ) → Sound (revoke_endpoint_request fuel c t)
unfolding revoke_endpoint_request
revoke_endpoint_request-Sound fuel c t = Sound-bind _ _ (revoke_endpoint-Sound _ _ t) λ r.
    Sound-bind _ _ (notify_closed_session-Sound fuel r.session _ _)
      λ a. Sound-bind _ _ (after_revocation-Sound fuel r.session _) λ b. Sound-pure _

after_opening-Sound :
    (fuel : ℕ) (s : Session) (r : Result (Unit {0})) → Sound (after_opening fuel s r)
unfolding after_opening
after_opening-Sound fuel s (ok a) = Sound-pure _
after_opening-Sound fuel s (err e) =
    Sound-bind _ _ (Sound-attempt _ (close_and_notify-Sound fuel _ _ _ _ _))
      λ c. Sound-bind _ _ (join_errors-Sound _ _) λ a. Sound-fail e

open_request-Sound :
    (fuel : ℕ) (id : String) (c : Connection) (t : ℕ) → Sound (open_request fuel id c t)
unfolding open_request
open_request-Sound fuel id c t = Sound-bind _ _ Sound-new_id λ fresh.
    Sound-bind _ _ (open_session-Sound id _ _ fresh t) λ s.
      Sound-bind _ _ (Sound-attempt _ (notify_opened_session-Sound fuel s))
        λ r. after_opening-Sound fuel s r

close_request-Sound : (fuel : ℕ) (id : String) (c : Connection) → Sound (close_request fuel id c)
unfolding close_request
close_request-Sound fuel id c =
    Sound-bind _ _ (close_and_notify-Sound fuel id _ _ _ _) λ a. Sound-pure _

serve-Sound :
    (fuel : ℕ) (wire : Wire) (limit : ℕ) (r : Request) (c : Connection) (t : ℕ)
    → Sound (serve fuel wire limit r c t)
unfolding serve
serve-Sound fuel wire limit system_hello c t = Sound-pure _
serve-Sound fuel wire limit system_ping c t = Sound-pure _
serve-Sound fuel wire limit (pair_create h) c t = create_request-Sound h c t
serve-Sound fuel wire limit (pair_join l k) c t = join_request-Sound fuel wire l k c t
serve-Sound fuel wire limit (pair_commit p s l i r h j q) c t =
    commit_request-Sound fuel limit p _ c t
serve-Sound fuel wire limit (pair_cancel p) c t = cancel_request-Sound fuel p c t
serve-Sound fuel wire limit (pair_frame p raw) c t = Sound-fail _
serve-Sound fuel wire limit (link_get l) c t = get_request-Sound l c
serve-Sound fuel wire limit (link_revoke l) c t =
    with_endpoint-Sound c _ (revoke_link_request-Sound fuel l c t)
serve-Sound fuel wire limit (endpoint_rotate h) c t =
    with_endpoint-Sound c _ (rotate_request-Sound h c t)
serve-Sound fuel wire limit endpoint_revoke c t =
    with_endpoint-Sound c _ (revoke_endpoint_request-Sound fuel c t)
serve-Sound fuel wire limit (session_open l) c t =
    with_endpoint-Sound c _ (open_request-Sound fuel l c t)
serve-Sound fuel wire limit (session_close s) c t =
    with_endpoint-Sound c _ (close_request-Sound fuel s c)
serve-Sound fuel wire limit (session_frame s raw) c t = Sound-fail _

pub dispatch-Sound :
    (fuel : ℕ) (wire : Wire) (limit : ℕ) (r : Request) (c : Connection)
    → Sound (dispatch fuel wire limit r c)
unfolding dispatch
dispatch-Sound fuel wire limit r c =
    Sound-bind _ _ Sound-time λ t. Sound-if _ _ _ (serve-Sound fuel wire limit r c t) (Sound-fail _)
