-- ===== src/Relay/Handler/Connect/Soundness.antt =====
-- `handleConnect` of services/rendezvous-relay/internal/relay/handler.go, and the soundness of
-- the requests.
use remote_davinci.Base.{ℕ, String, Option, none, some}
use remote_davinci.Relay.Model.{Endpoint, CloseSessionResult}
use remote_davinci.Relay.Failure.{Result, ok, err}
use remote_davinci.Relay.Store.Rates.Soundness.{rate_limit-Sound}
use remote_davinci.Relay.Store.Connections.Soundness.{connect-Sound}
use remote_davinci.Relay.Store.Links.Soundness.{get_endpoint-Sound}
use remote_davinci.Relay.Safety.Calls.{
  Sound, Sound-pure, Sound-bind, Sound-if, Sound-attempt, Sound-time,
}
use remote_davinci.Relay.Handler.Event.{Authorization, pairing_scheme, bearer, WebSocketEvent, Wire}
use remote_davinci.Relay.Handler.Notify.Soundness.{notify_closed_session-Sound}
use remote_davinci.Relay.Handler.Connect.{
  announce_replaced, after_connect, connect_pairing, connect_bearer, connect_authorized,
  handle_connect,
}

announce_replaced-Sound :
    (fuel : ℕ) (r : Option CloseSessionResult) (id : String) → Sound (announce_replaced fuel r id)
unfolding announce_replaced
announce_replaced-Sound fuel none id = Sound-pure _
announce_replaced-Sound fuel (some r) id =
    Sound-bind _ _ (Sound-attempt _ (notify_closed_session-Sound fuel _ _ _)) λ a. Sound-pure _

after_connect-Sound :
    (fuel : ℕ) (id : String) (r : Result (Option CloseSessionResult))
    → Sound (after_connect fuel id r)
unfolding after_connect
after_connect-Sound fuel id (err e) = Sound-pure _
after_connect-Sound fuel id (ok r) =
    Sound-bind _ _ (announce_replaced-Sound fuel r id) λ a. Sound-pure _

connect_pairing-Sound :
    (fuel : ℕ) (wire : Wire) (event : WebSocketEvent) → Sound (connect_pairing fuel wire event)
unfolding connect_pairing
connect_pairing-Sound fuel wire event = Sound-bind _ _ Sound-time λ t.
    Sound-bind _ _
      (Sound-attempt _ (Sound-bind _ _ (rate_limit-Sound _ _ _ t) λ a. connect-Sound _ _))
      λ r. after_connect-Sound fuel _ r

connect_bearer-Sound :
    (fuel : ℕ) (wire : Wire) (event : WebSocketEvent) (id hash : String) (e : Option Endpoint)
    → Sound (connect_bearer fuel wire event id hash e)
unfolding connect_bearer
connect_bearer-Sound fuel wire event id hash none = Sound-pure _
connect_bearer-Sound fuel wire event id hash (some e) = Sound-if _ _ _ (Sound-pure _) (
    Sound-bind _ _ Sound-time λ t.
      Sound-bind _ _ (Sound-attempt _ (connect-Sound _ hash)) λ r. after_connect-Sound fuel id r)

connect_authorized-Sound :
    (fuel : ℕ) (wire : Wire) (event : WebSocketEvent) (a : Option Authorization)
    → Sound (connect_authorized fuel wire event a)
unfolding connect_authorized
connect_authorized-Sound fuel wire event none = Sound-pure _
connect_authorized-Sound fuel wire event (some pairing_scheme) =
    connect_pairing-Sound fuel wire event
connect_authorized-Sound fuel wire event (some (bearer id secret)) =
    Sound-bind _ _ (get_endpoint-Sound id) λ e. connect_bearer-Sound fuel wire event id _ e

pub handle_connect-Sound :
    (fuel : ℕ) (wire : Wire) (event : WebSocketEvent) → Sound (handle_connect fuel wire event)
unfolding handle_connect
handle_connect-Sound fuel wire event = connect_authorized-Sound fuel wire event _
