-- ===== src/Relay/Handler/Notify/Soundness.antt =====
-- The messages and the cleanup of services/rendezvous-relay/internal/relay/handler.go, and the
-- soundness of the requests.
use remote_davinci.Base.{ℕ, zero, suc, String, Bool, Option, none, some}
use remote_davinci.Relay.Model.{
  Connection, Endpoint, Pair, Session, CloseSessionResult, DisconnectResult,
}
use remote_davinci.Relay.Failure.{Failure, Result, ok, err}
use remote_davinci.Relay.Message.{Message}
use remote_davinci.Relay.Store.Connections.Soundness.{disconnect-Sound}
use remote_davinci.Relay.Store.Pairs.Soundness.{cancel_pair-Sound}
use remote_davinci.Relay.Store.Sessions.Soundness.{close_session-Sound}
use remote_davinci.Relay.Store.Links.Soundness.{get_endpoint-Sound}
use remote_davinci.Relay.Safety.Calls.{
  Sound, Sound-pure, Sound-fail, Sound-bind, Sound-if, Sound-attempt, Sound-settle, Sound-time,
  Sound-new_id,
}
use remote_davinci.Relay.Handler.Notify.{
  Cleaner, Notifier, post_message, drop_connection, posted, notify_by, notify_unless,
  closed_session_messages, notify_closed_by, pair_closed_message, announce_pair, after_cancel,
  clean_pair, after_disconnect, cleanup, notify_with_pair_event, notify, notify_closed_session,
  notify_found, notify_endpoint, notify_opened, notify_opened_session, close_and_notify,
  join_errors, drop_and_cleanup, reject_and_drop,
}

pub post_message-Sound : (id : String) (m : Message) → Sound (post_message id m)
unfolding post_message
post_message-Sound id m = record { at = λ r. tt }

drop_connection-Sound : (id : String) → Sound (drop_connection id)
unfolding drop_connection
drop_connection-Sound id = record { at = λ r. tt }

posted-Sound :
    (clean : Cleaner) (id : String) (send : Bool) (r : Result (Unit {0}))
    → Sound (clean id send)
    → Sound (posted clean id send r)
unfolding posted
posted-Sound clean id send (ok a) h = Sound-pure _
posted-Sound clean id send (err e) h =
    Sound-if _ _ _ (Sound-fail e) (Sound-bind _ _ h λ a. Sound-pure _)

notify_by-Sound :
    (clean : Cleaner)
    → ((id : String) (send : Bool) → Sound (clean id send))
    → (id : String) (m : Message) (send : Bool) → Sound (notify_by clean id m send)
unfolding notify_by
notify_by-Sound clean h id m send =
    Sound-if _ _ _ (Sound-pure _)
      (Sound-bind _ _ (post_message-Sound id m) λ r. posted-Sound clean id send r (h id send))

module _ (notify : Notifier)
    (ns : (id : String) (m : Message) (send : Bool) → Sound (notify id m send)) where
  notify_unless-Sound : (skip id : String) (m : Message) → Sound (notify_unless notify skip id m)
  unfolding notify_unless
  notify_unless-Sound skip id m =
      Sound-if _ _ _ (Sound-pure _) (Sound-bind _ _ (ns id m _) λ a. Sound-pure _)

  closed_session_messages-Sound :
      (s : Session) (reason skip : String) → Sound (closed_session_messages notify s reason skip)
  unfolding closed_session_messages
  closed_session_messages-Sound s reason skip =
      Sound-bind _ _ Sound-new_id
        λ id. Sound-bind _ _ (notify_unless-Sound skip _ _) λ a. notify_unless-Sound skip _ _

  notify_closed_by-Sound :
      (r : Option CloseSessionResult) (reason skip : String)
      → Sound (notify_closed_by notify r reason skip)
  unfolding notify_closed_by
  notify_closed_by-Sound none reason skip = Sound-pure _
  notify_closed_by-Sound (some r) reason skip =
      Sound-if _ _ _ (Sound-pure _) (closed_session_messages-Sound r.session reason skip)

  pub pair_closed_message-Sound :
      (p : Pair) (id reason : String) → Sound (pair_closed_message notify p id reason)
  unfolding pair_closed_message
  pair_closed_message-Sound p id reason =
      Sound-bind _ _ (Sound-settle _)
        λ peer. Sound-bind _ _ Sound-new_id λ fresh. Sound-bind _ _ (ns _ _ _) λ a. Sound-pure _

  announce_pair-Sound :
      (send : Bool) (id : String) (p : Option Pair) → Sound (announce_pair notify send id p)
  unfolding announce_pair
  announce_pair-Sound send id none = Sound-pure _
  announce_pair-Sound send id (some p) =
      Sound-if _ _ _ (pair_closed_message-Sound p id _) (Sound-pure _)

  after_cancel-Sound :
      (send : Bool) (id : String) (r : Result (Option Pair)) → Sound (after_cancel notify send id r)
  unfolding after_cancel
  after_cancel-Sound send id (ok p) = announce_pair-Sound send id p
  after_cancel-Sound send id (err e) = Sound-if _ _ _ (Sound-pure _) (Sound-fail e)

  clean_pair-Sound :
      (send : Bool) (c : Connection) (id : String) → Sound (clean_pair notify send c id)
  unfolding clean_pair
  clean_pair-Sound send c id = Sound-if _ _ _ (Sound-pure _) (
      Sound-bind _ _ Sound-time λ t.
        Sound-bind _ _ (Sound-attempt _ (cancel_pair-Sound c.pairing_id id t))
          λ r. after_cancel-Sound send id r)

  after_disconnect-Sound :
      (id : String) (send : Bool) (r : Option DisconnectResult)
      → Sound (after_disconnect notify id send r)
  unfolding after_disconnect
  after_disconnect-Sound id send none = Sound-pure _
  after_disconnect-Sound id send (some r) =
      Sound-bind _ _ (clean_pair-Sound send r.connection id)
        λ a. notify_closed_by-Sound r.session _ id

pub cleanup-Sound : (fuel : ℕ) (id : String) (send : Bool) → Sound (cleanup fuel id send)
unfolding cleanup
cleanup-Sound zero id send = Sound-fail _
cleanup-Sound (suc fuel) id send = Sound-bind _ _ Sound-time λ t.
    Sound-bind _ _ (disconnect-Sound id t) λ r.
      after_disconnect-Sound (notify_by (cleanup fuel))
        (notify_by-Sound (cleanup fuel) (cleanup-Sound fuel)) id send r

pub notify_with_pair_event-Sound :
    (fuel : ℕ) (id : String) (m : Message) (send : Bool)
    → Sound (notify_with_pair_event fuel id m send)
unfolding notify_with_pair_event
notify_with_pair_event-Sound fuel = notify_by-Sound (cleanup fuel) (cleanup-Sound fuel)

pub notify-Sound : (fuel : ℕ) (id : String) (m : Message) → Sound (notify fuel id m)
unfolding notify
notify-Sound fuel id m = notify_with_pair_event-Sound fuel id m _

pub notify_closed_session-Sound :
    (fuel : ℕ) (r : Option CloseSessionResult) (reason skip : String)
    → Sound (notify_closed_session fuel r reason skip)
unfolding notify_closed_session
notify_closed_session-Sound fuel =
    notify_closed_by-Sound (notify_with_pair_event fuel) (notify_with_pair_event-Sound fuel)

notify_found-Sound : (fuel : ℕ) (m : Message) (e : Option Endpoint) → Sound (notify_found fuel m e)
unfolding notify_found
notify_found-Sound fuel m none = Sound-pure _
notify_found-Sound fuel m (some e) =
    Sound-if _ _ _ (Sound-bind _ _ (notify-Sound fuel _ m) λ a. Sound-pure _) (Sound-pure _)

pub notify_endpoint-Sound :
    (fuel : ℕ) (id : String) (m : Message) → Sound (notify_endpoint fuel id m)
unfolding notify_endpoint
notify_endpoint-Sound fuel id m =
    Sound-bind _ _ (get_endpoint-Sound id) λ e. notify_found-Sound fuel m e

notify_opened-Sound :
    (fuel : ℕ) (s : Session) (id peer : String) → Sound (notify_opened fuel s id peer)
unfolding notify_opened
notify_opened-Sound fuel s id peer = Sound-bind _ _ Sound-new_id λ fresh.
    Sound-bind _ _ (notify-Sound fuel id _) λ a. Sound-if a _ _ (Sound-pure _) (Sound-fail _)

pub notify_opened_session-Sound : (fuel : ℕ) (s : Session) → Sound (notify_opened_session fuel s)
unfolding notify_opened_session
notify_opened_session-Sound fuel s =
    Sound-bind _ _ (notify_opened-Sound fuel s _ _) λ a. notify_opened-Sound fuel s _ _

pub close_and_notify-Sound :
    (fuel : ℕ) (session_id endpoint_id id reason skip : String)
    → Sound (close_and_notify fuel session_id endpoint_id id reason skip)
unfolding close_and_notify
close_and_notify-Sound fuel session_id endpoint_id id reason skip = Sound-bind _ _ Sound-time λ t.
    Sound-bind _ _ (close_session-Sound session_id endpoint_id id t)
      λ r. Sound-bind _ _ (notify_closed_session-Sound fuel r reason skip) λ a. Sound-pure r

pub join_errors-Sound : (a b : Result (Unit {0})) → Sound (join_errors a b)
unfolding join_errors
join_errors-Sound (ok a) r = Sound-settle r
join_errors-Sound (err e) (ok b) = Sound-fail e
join_errors-Sound (err e) (err f) = Sound-fail _

drop_and_cleanup-Sound : (fuel : ℕ) (id : String) → Sound (drop_and_cleanup fuel id)
unfolding drop_and_cleanup
drop_and_cleanup-Sound fuel id =
    Sound-bind _ _ (drop_connection-Sound id)
      λ d. Sound-bind _ _ (Sound-attempt _ (cleanup-Sound fuel id _)) λ c. join_errors-Sound _ c

pub reject_and_drop-Sound :
    (fuel : ℕ) (request : String) (e : Failure) (id : String)
    → Sound (reject_and_drop fuel request e id)
unfolding reject_and_drop
reject_and_drop-Sound fuel request e id = Sound-bind _ _ Sound-new_id λ fresh.
    Sound-bind _ _ (Sound-attempt _ (notify-Sound fuel id _)) λ n.
      Sound-bind _ _ (Sound-attempt _ (drop_and_cleanup-Sound fuel id)) λ d. join_errors-Sound _ d
