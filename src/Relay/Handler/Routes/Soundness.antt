-- ===== src/Relay/Handler/Routes/Soundness.antt =====
-- Every route of services/rendezvous-relay/internal/relay/handler.go, and the soundness of the
-- requests.
use remote_davinci.Base.{ℕ, String}
use remote_davinci.Relay.Model.{AuthMode, pairing, endpoint, other_mode, Connection, Pair}
use remote_davinci.Relay.Failure.{Failure, Result, ok, err}
use remote_davinci.Relay.Message.{Reply}
use remote_davinci.Relay.Store.Rates.Soundness.{rate_limit-Sound}
use remote_davinci.Relay.Store.Sessions.Soundness.{session-Sound}
use remote_davinci.Relay.Store.Connections.Soundness.{connection-Sound}
use remote_davinci.Relay.Store.Pairs.Soundness.{pair_by_id-Sound}
use remote_davinci.Relay.Safety.Calls.{
  Sound, Sound-pure, Sound-fail, Sound-bind, Sound-if, Sound-attempt, Sound-settle, Sound-time,
  Sound-new_id,
}
use remote_davinci.Relay.Handler.Event.{
  Request, system_hello, system_ping, pair_create, pair_join, pair_commit, pair_cancel, pair_frame,
  link_get, link_revoke, endpoint_rotate, endpoint_revoke, session_open, session_close,
  session_frame, ClientEnvelope, WebSocketEvent, Wire,
}
use remote_davinci.Relay.Handler.Notify.Soundness.{
  notify-Sound, cleanup-Sound, reject_and_drop-Sound,
}
use remote_davinci.Relay.Handler.Dispatch.Soundness.{delivered_or_offline-Sound}
use remote_davinci.Relay.Handler.Requests.Soundness.{dispatch-Sound}
use remote_davinci.Relay.Handler.Connect.Soundness.{handle_connect-Sound}
use remote_davinci.Relay.Handler.Routes.{
  forward, forward_in_pair, relay_pair_frame, forward_in_session, relay_session_frame, request_id,
  relay_frame, reject_frame, after_frame, frame_parsed, handle_frame, message_limit, answer_default,
  reject_default, after_default, default_parsed, handle_default, handle,
}

forward-Sound :
    (fuel : ℕ) (message_type raw : String) (peer : Result String)
    → Sound (forward fuel message_type raw peer)
unfolding forward
forward-Sound fuel message_type raw peer = Sound-bind _ _ (Sound-settle peer) λ id.
    Sound-bind _ _ Sound-new_id
      λ fresh. Sound-bind _ _ (notify-Sound fuel id _) λ b. delivered_or_offline-Sound b

forward_in_pair-Sound :
    (fuel : ℕ) (p : Pair) (id raw : String) → Sound (forward_in_pair fuel p id raw)
unfolding forward_in_pair
forward_in_pair-Sound fuel p id raw = Sound-if _ _ _ (Sound-fail _) (forward-Sound fuel _ raw _)

relay_pair_frame-Sound :
    (fuel : ℕ) (wire : Wire) (id raw : String) (event : WebSocketEvent)
    → Sound (relay_pair_frame fuel wire id raw event)
unfolding relay_pair_frame
relay_pair_frame-Sound fuel wire id raw event = Sound-bind _ _ Sound-time λ t.
    Sound-bind _ _ (rate_limit-Sound _ _ _ t) λ a.
      Sound-bind _ _ Sound-time
        λ u. Sound-bind _ _ (pair_by_id-Sound id u) λ p. forward_in_pair-Sound fuel p _ raw

forward_in_session-Sound :
    (fuel : ℕ) (c : Connection) (session_id id raw : String) (t : ℕ)
    → Sound (forward_in_session fuel c session_id id raw t)
unfolding forward_in_session
forward_in_session-Sound fuel c session_id id raw t = Sound-if _ _ _ (Sound-fail _) (
    Sound-bind _ _ (rate_limit-Sound _ _ _ t)
      λ a. Sound-bind _ _ (session-Sound session_id t) λ s. forward-Sound fuel _ raw _)

relay_session_frame-Sound :
    (fuel : ℕ) (session_id raw : String) (event : WebSocketEvent)
    → Sound (relay_session_frame fuel session_id raw event)
unfolding relay_session_frame
relay_session_frame-Sound fuel session_id raw event = Sound-bind _ _ Sound-time λ t.
    Sound-bind _ _ (connection-Sound _ t) λ c. forward_in_session-Sound fuel c session_id _ raw t

request_id-Sound : (wire : Wire) (body : String) → Sound (request_id wire body)
unfolding request_id
request_id-Sound wire body = Sound-bind _ _ Sound-new_id λ id. Sound-pure _

relay_frame-Sound :
    (fuel : ℕ) (wire : Wire) (r : Request) (event : WebSocketEvent)
    → Sound (relay_frame fuel wire r event)
unfolding relay_frame
relay_frame-Sound fuel wire system_hello event = Sound-fail _
relay_frame-Sound fuel wire system_ping event = Sound-fail _
relay_frame-Sound fuel wire (pair_create h) event = Sound-fail _
relay_frame-Sound fuel wire (pair_join l k) event = Sound-fail _
relay_frame-Sound fuel wire (pair_commit p s l i r h j q) event = Sound-fail _
relay_frame-Sound fuel wire (pair_cancel p) event = Sound-fail _
relay_frame-Sound fuel wire (pair_frame id raw) event =
    relay_pair_frame-Sound fuel wire id raw event
relay_frame-Sound fuel wire (link_get l) event = Sound-fail _
relay_frame-Sound fuel wire (link_revoke l) event = Sound-fail _
relay_frame-Sound fuel wire (endpoint_rotate h) event = Sound-fail _
relay_frame-Sound fuel wire endpoint_revoke event = Sound-fail _
relay_frame-Sound fuel wire (session_open l) event = Sound-fail _
relay_frame-Sound fuel wire (session_close s) event = Sound-fail _
relay_frame-Sound fuel wire (session_frame id raw) event =
    relay_session_frame-Sound fuel id raw event

reject_frame-Sound :
    (fuel : ℕ) (event : WebSocketEvent) (id : String) (e : Failure)
    → Sound (reject_frame fuel event id e)
unfolding reject_frame
reject_frame-Sound fuel event id e =
    Sound-if _ _ _ (Sound-bind _ _ (reject_and_drop-Sound fuel id e _) λ a. Sound-pure _) (
      Sound-bind _ _ Sound-new_id λ fresh. Sound-bind _ _ (notify-Sound fuel _ _) λ b. Sound-pure _)

after_frame-Sound :
    (fuel : ℕ) (event : WebSocketEvent) (id : String) (r : Result (Unit {0}))
    → Sound (after_frame fuel event id r)
unfolding after_frame
after_frame-Sound fuel event id (ok a) = Sound-pure _
after_frame-Sound fuel event id (err e) = reject_frame-Sound fuel event id e

frame_parsed-Sound :
    (fuel : ℕ) (wire : Wire) (event : WebSocketEvent) (r : Result ClientEnvelope)
    → Sound (frame_parsed fuel wire event r)
unfolding frame_parsed
frame_parsed-Sound fuel wire event (err e) =
    Sound-bind _ _ (request_id-Sound wire _) λ id. reject_frame-Sound fuel event id e
frame_parsed-Sound fuel wire event (ok m) =
    Sound-bind _ _
      (Sound-attempt _
        (Sound-if _ _ _ (Sound-fail _) (relay_frame-Sound fuel wire m.request event)))
      λ r. after_frame-Sound fuel event m.id r

handle_frame-Sound :
    (fuel : ℕ) (wire : Wire) (event : WebSocketEvent) → Sound (handle_frame fuel wire event)
unfolding handle_frame
handle_frame-Sound fuel wire event = frame_parsed-Sound fuel wire event _

message_limit-Sound : (mode : AuthMode) (c : Connection) → Sound (message_limit mode c)
unfolding message_limit
message_limit-Sound pairing c = Sound-bind _ _ Sound-time λ t. rate_limit-Sound _ _ _ t
message_limit-Sound endpoint c =
    Sound-if _ _ _ (Sound-fail _) (Sound-bind _ _ Sound-time λ t. rate_limit-Sound _ _ _ t)
message_limit-Sound (other_mode s) c = Sound-fail _

answer_default-Sound :
    (fuel : ℕ) (wire : Wire) (limit : ℕ) (m : ClientEnvelope) (event : WebSocketEvent)
    → Sound (answer_default fuel wire limit m event)
unfolding answer_default
answer_default-Sound fuel wire limit m event = Sound-bind _ _ Sound-time λ t.
    Sound-bind _ _ (connection-Sound _ t)
      λ c. Sound-bind _ _ (message_limit-Sound _ c) λ a. dispatch-Sound fuel wire limit m.request c

reject_default-Sound :
    (fuel : ℕ) (event : WebSocketEvent) (id : String) (e : Failure)
    → Sound (reject_default fuel event id e)
unfolding reject_default
reject_default-Sound fuel event id e =
    Sound-if _ _ _ (Sound-bind _ _ (reject_and_drop-Sound fuel id e _) λ a. Sound-pure _)
      (Sound-bind _ _ Sound-new_id λ fresh. Sound-pure _)

after_default-Sound :
    (fuel : ℕ) (event : WebSocketEvent) (m : ClientEnvelope) (r : Result Reply)
    → Sound (after_default fuel event m r)
unfolding after_default
after_default-Sound fuel event m (err e) = reject_default-Sound fuel event m.id e
after_default-Sound fuel event m (ok a) = Sound-bind _ _ Sound-new_id λ id. Sound-pure _

default_parsed-Sound :
    (fuel : ℕ) (wire : Wire) (limit : ℕ) (event : WebSocketEvent) (r : Result ClientEnvelope)
    → Sound (default_parsed fuel wire limit event r)
unfolding default_parsed
default_parsed-Sound fuel wire limit event (err e) =
    Sound-bind _ _ (request_id-Sound wire _) λ id. reject_default-Sound fuel event id e
default_parsed-Sound fuel wire limit event (ok m) =
    Sound-bind _ _ (Sound-attempt _ (answer_default-Sound fuel wire limit m event))
      λ r. after_default-Sound fuel event m r

handle_default-Sound :
    (fuel : ℕ) (wire : Wire) (limit : ℕ) (event : WebSocketEvent)
    → Sound (handle_default fuel wire limit event)
unfolding handle_default
handle_default-Sound fuel wire limit event = default_parsed-Sound fuel wire limit event _

-- Every request that an invocation sends to the database has sound writes only.
pub handle-Sound :
    (fuel : ℕ) (wire : Wire) (limit : ℕ) (event : WebSocketEvent)
    → Sound (handle fuel wire limit event)
unfolding handle
handle-Sound fuel wire limit event = Sound-if _ _ _ (handle_connect-Sound fuel wire event) (
    Sound-if _ _ _ (Sound-bind _ _ (cleanup-Sound fuel _ _) λ a. Sound-pure _) (
      Sound-if _ _ _ (handle_frame-Sound fuel wire event)
        (Sound-if _ _ _ (handle_default-Sound fuel wire limit event) (Sound-pure _))))
