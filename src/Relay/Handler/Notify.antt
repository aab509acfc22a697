-- ===== src/Relay/Handler/Notify.antt =====
-- services/rendezvous-relay/internal/relay/handler.go: messages to connections, and the cleanup of a
-- connection that is gone. A message to a peer may find the peer gone too, so `notify` and
-- `cleanup` call one another; here the depth of these calls is bounded by `fuel`, and a call at the
-- bound fails with the error `Failure.other`.
pub mod Soundness
use remote_davinci.Base.{
  ℕ, zero, suc, String, Bool, true, false, not, ◌&&◌, Option, none, some, str_eq, is_empty, holds,
  ◌==◌, if◌then◌else◌,
}
use remote_davinci.Protocol.{ErrorCode, conflict, peer_offline}
use remote_davinci.Relay.Model.{
  Connection, Endpoint, Pair, Session, CloseSessionResult, DisconnectResult, pair_closed,
}
use remote_davinci.Relay.Failure.{
  Failure, Result, ok, err, joined, retryable_error, as_service, is_gone,
}
use remote_davinci.Relay.Message.{
  Message, response, session_closed_body, session_opened_body, pair_closed_body,
}
use remote_davinci.Relay.Effect.{
  Prog, pure, fail, post, drop, ◌>>=◌, ◌>>◌, attempt, settle, time, new_id,
}
use remote_davinci.Relay.Store.Writes.{status_eq}
use remote_davinci.Relay.Store.Connections.{disconnect}
use remote_davinci.Relay.Store.Pairs.{cancel_pair}
use remote_davinci.Relay.Store.Sessions.{close_session}
use remote_davinci.Relay.Store.Links.{get_endpoint}
use remote_davinci.Relay.Handler.Event.{failure, peer_connection}

-- `h.post` and `h.drop`
unfoldable pub post_message : String → Message → Prog (Result (Unit {0}))
post_message connection_id m = post connection_id m pure

unfoldable pub drop_connection : String → Prog (Result (Unit {0}))
drop_connection connection_id = drop connection_id pure

-- The type of `notifyWithPairEvent`, and of `cleanup` with the reason "peer-disconnected".
abbrev pub Notifier : Type 0
Notifier = String → Message → Bool → Prog Bool

abbrev pub Cleaner : Type 0
Cleaner = String → Bool → Prog (Unit {0})

unfoldable pub posted : Cleaner → String → Bool → Result (Unit {0}) → Prog Bool
posted clean connection_id send_pair_event (ok done) = pure true
posted clean connection_id send_pair_event (err e) =
    if not (is_gone e) then fail e else (do clean connection_id send_pair_event; pure false)

unfoldable pub notify_by : Cleaner → Notifier
notify_by clean connection_id m send_pair_event =
    if is_empty connection_id
    then pure false
    else do answer ← post_message connection_id m; posted clean connection_id send_pair_event answer

-- The session's other connections, all but `skip`.
unfoldable pub notify_unless : Notifier → String → String → Message → Prog (Unit {0})
notify_unless notify skip connection_id m =
    if str_eq connection_id skip
    then pure tt
    else (do delivered ← notify connection_id m false; pure tt)

unfoldable pub closed_session_messages : Notifier → Session → String → String → Prog (Unit {0})
closed_session_messages notify s reason skip = do
  id ← new_id
  let m = response "session.closed" (session_closed_body s.session_id reason) id ""
  notify_unless notify skip s.controller_connection_id m
  notify_unless notify skip s.companion_connection_id m

-- `notifyClosedSession`
unfoldable pub notify_closed_by :
    Notifier → Option CloseSessionResult → String → String → Prog (Unit {0})
notify_closed_by notify none reason skip = pure tt
notify_closed_by notify (some r) reason skip =
    if not r.closed_now then pure tt else closed_session_messages notify r.session reason skip

abbrev pub is_conflict : ErrorCode → Bool
is_conflict conflict = true
is_conflict _ = false

-- `pair.closed` for the peer of a cancelled pair.
unfoldable pub pair_closed_message : Notifier → Pair → String → String → Prog (Unit {0})
pair_closed_message notify p connection_id reason = do
  peer ← settle (peer_connection p connection_id)
  id ← new_id
  delivered ← notify peer (response "pair.closed" (pair_closed_body p.pair_id reason) id "") false
  pure tt

unfoldable pub announce_pair : Notifier → Bool → String → Option Pair → Prog (Unit {0})
announce_pair notify send connection_id none = pure tt
announce_pair notify send connection_id (some p) =
    if send && status_eq p.status pair_closed
    then pair_closed_message notify p connection_id "peer-disconnected"
    else pure tt

-- A conflict of `CancelPair` is passed over.
unfoldable pub after_cancel : Notifier → Bool → String → Result (Option Pair) → Prog (Unit {0})
after_cancel notify send connection_id (ok p) = announce_pair notify send connection_id p
after_cancel notify send connection_id (err e) =
    if holds (λ s. is_conflict s.code) (as_service e) then pure tt else fail e

unfoldable pub clean_pair : Notifier → Bool → Connection → String → Prog (Unit {0})
clean_pair notify send c connection_id = if is_empty c.pairing_id then pure tt else do
  timestamp ← time
  answer ← attempt (cancel_pair c.pairing_id connection_id timestamp)
  after_cancel notify send connection_id answer

unfoldable pub after_disconnect :
    Notifier → String → Bool → Option DisconnectResult → Prog (Unit {0})
after_disconnect notify connection_id send none = pure tt
after_disconnect notify connection_id send (some r) = do
  clean_pair notify send r.connection connection_id
  notify_closed_by notify r.session "peer-disconnected" connection_id

-- `cleanup`; it sends with the notifier of the next lower depth.
unfoldable pub cleanup : ℕ → Cleaner
cleanup zero connection_id send_pair_event = fail Failure.other
cleanup (suc fuel) connection_id send_pair_event = do
  timestamp ← time
  result ← disconnect connection_id timestamp
  after_disconnect (notify_by (cleanup fuel)) connection_id send_pair_event result

-- `notifyWithPairEvent`
unfoldable pub notify_with_pair_event : ℕ → Notifier
notify_with_pair_event fuel = notify_by (cleanup fuel)

-- `notify`
unfoldable pub notify : ℕ → String → Message → Prog Bool
notify fuel connection_id m = notify_with_pair_event fuel connection_id m false

-- `notifyClosedSession`
unfoldable pub notify_closed_session :
    ℕ → Option CloseSessionResult → String → String → Prog (Unit {0})
notify_closed_session fuel = notify_closed_by (notify_with_pair_event fuel)

-- `notifyEndpoint`
unfoldable pub notify_found : ℕ → Message → Option Endpoint → Prog (Unit {0})
notify_found fuel m none = pure tt
notify_found fuel m (some e) =
    if not (is_empty e.connection_id) && e.revoked_at == 0
    then (do delivered ← notify fuel e.connection_id m; pure tt)
    else pure tt

unfoldable pub notify_endpoint : ℕ → String → Message → Prog (Unit {0})
notify_endpoint fuel endpoint_id m = do
  endpoint ← get_endpoint endpoint_id
  notify_found fuel m endpoint

unfoldable pub notify_opened : ℕ → Session → String → String → Prog (Unit {0})
notify_opened fuel s connection_id peer_endpoint_id = do
  id ← new_id
  delivered ← notify fuel connection_id (
      response "session.opened" (session_opened_body s.session_id s.link_id peer_endpoint_id) id "")
  if delivered then pure tt else fail (retryable_error peer_offline)

-- `notifyOpenedSession`: the companion first.
unfoldable pub notify_opened_session : ℕ → Session → Prog (Unit {0})
notify_opened_session fuel s = do
  notify_opened fuel s s.companion_connection_id s.controller_id
  notify_opened fuel s s.controller_connection_id s.companion_id

-- `closeAndNotify`
unfoldable pub close_and_notify :
    ℕ → String → String → String → String → String → Prog (Option CloseSessionResult)
close_and_notify fuel session_id endpoint_id connection_id reason skip = do
  timestamp ← time
  result ← close_session session_id endpoint_id connection_id timestamp
  notify_closed_session fuel result reason skip
  pure result

-- `errors.Join`: an error if there is one, both joined if there are two.
unfoldable pub join_errors : Result (Unit {0}) → Result (Unit {0}) → Prog (Unit {0})
join_errors (ok a) r = settle r
join_errors (err e) (ok b) = fail e
join_errors (err e) (err f) = fail (joined e f)

abbrev pub forgive_gone : Result (Unit {0}) → Result (Unit {0})
forgive_gone (ok a) = ok a
forgive_gone (err e) = if is_gone e then ok tt else err e

-- `dropAndCleanup`
unfoldable pub drop_and_cleanup : ℕ → String → Prog (Unit {0})
drop_and_cleanup fuel connection_id = do
  dropped ← drop_connection connection_id
  cleaned ← attempt (cleanup fuel connection_id true)
  join_errors (forgive_gone dropped) cleaned

abbrev pub without_value : Result Bool → Result (Unit {0})
without_value (ok b) = ok tt
without_value (err e) = err e

-- `rejectAndDrop`
unfoldable pub reject_and_drop : ℕ → String → Failure → String → Prog (Unit {0})
reject_and_drop fuel request_id rejection connection_id = do
  id ← new_id
  notified ← attempt (notify fuel connection_id (failure request_id rejection id))
  dropped ← attempt (drop_and_cleanup fuel connection_id)
  join_errors (without_value notified) dropped
