-- ===== src/Relay/Handler/Dispatch.antt =====
-- services/rendezvous-relay/internal/relay/handler.go: `dispatch`, the requests of the default route,
-- with a function for each branch. Decoding a body never fails here: a request carries its body.
pub mod Soundness
use remote_davinci.Base.{
  ℕ, zero, suc, ◌+◌, String, Bool, true, false, not, ◌||◌, Option, none, some, is_empty, ◌==◌,
  holds, if◌then◌else◌,
}
use remote_davinci.Protocol.{conflict, peer_offline, pairing_ttl_seconds}
use remote_davinci.Relay.Model.{opened, Connection, PairSide, PairCommit, Pair, pair_closed, Link}
use remote_davinci.Relay.Failure.{Result, ok, err, retryable_error, as_service}
use remote_davinci.Relay.Message.{
  Reply, created_reply, joined_reply, pending_reply, active_reply, cancelled_reply, Message,
  response, pair_ready_body, pair_completed_body,
}
use remote_davinci.Relay.Effect.{
  Prog, pure, fail, ◌>>=◌, ◌>>◌, attempt, settle, new_id, new_locator,
}
use remote_davinci.Relay.Store.Writes.{status_eq}
use remote_davinci.Relay.Store.Rates.{rate_limit}
use remote_davinci.Relay.Store.Commits.{commit_pair}
use remote_davinci.Relay.Store.Pairs.{create_pair, join_pair, cancel_pair}
use remote_davinci.Relay.Handler.Event.{
  Request, system_hello, system_ping, pair_create, pair_join, pair_commit, pair_cancel, link_get,
  link_revoke, endpoint_rotate, endpoint_revoke, session_open, session_close, Wire,
}
use remote_davinci.Relay.Handler.Notify.{
  is_conflict, notify, notify_with_pair_event, pair_closed_message,
}

-- `pairingActions`
unfoldable pub pairing_action : Request → Bool
pairing_action system_hello = true
pairing_action system_ping = true
pairing_action (pair_create h) = true
pairing_action (pair_join l t) = true
pairing_action (pair_commit p s l i r h j q) = true
pairing_action (pair_cancel p) = true
pairing_action _ = false

-- `endpointActions`
unfoldable pub endpoint_action : Request → Bool
endpoint_action system_hello = true
endpoint_action system_ping = true
endpoint_action (link_get l) = true
endpoint_action (link_revoke l) = true
endpoint_action (endpoint_rotate h) = true
endpoint_action endpoint_revoke = true
endpoint_action (session_open l) = true
endpoint_action (session_close s) = true
endpoint_action _ = false

abbrev pub presence : String → Option String
presence s = if is_empty s then none else some s

-- `CreatePair` failed: again on a conflict, unless this was the last attempt.
unfoldable pub after_create : Bool → Prog Reply → Reply → Result (Unit {0}) → Prog Reply
after_create last again reply (ok done) = pure reply
after_create last again reply (err e) =
    if not (holds (λ s. is_conflict s.code) (as_service e)) || last then fail e else again

unfoldable pub fresh_locator_unless : String → Prog String
fresh_locator_unless join_token_hash = if is_empty join_token_hash then new_locator else pure ""

-- The pair that `pair.create` makes.
abbrev pub new_pair : String → String → String → PairSide → ℕ → Pair
new_pair pair_id locator join_token_hash side timestamp = record {
  pair_id = pair_id;
  locator = locator;
  join_token_hash = join_token_hash;
  status = opened;
  side_a = side;
  side_b = none;
  commit_a = none;
  commit_b = none;
  expires_at = timestamp + pairing_ttl_seconds;
}

-- The loop of `pair.create`, with the number of attempts left.
unfoldable pub create_rounds : ℕ → String → String → ℕ → Prog Reply
create_rounds zero join_token_hash connection_id timestamp = fail (retryable_error conflict)
create_rounds (suc n) join_token_hash connection_id timestamp = do
  pair_id ← new_id
  side_id ← new_id
  locator ← fresh_locator_unless join_token_hash
  answer ← attempt (
      create_pair (
        new_pair pair_id locator join_token_hash
          (record { connection_id = connection_id; side_id = side_id }) timestamp))
  after_create (n == 0) (create_rounds n join_token_hash connection_id timestamp)
      (created_reply pair_id side_id (timestamp + pairing_ttl_seconds) (presence locator)) answer

unfoldable pub create_request : String → Connection → ℕ → Prog Reply
create_request join_token_hash c timestamp = do
  rate_limit c.source_key "pair.create" 5 timestamp
  create_rounds 5 join_token_hash c.connection_id timestamp

abbrev pub pair_ready : Pair → String → String → Message
pair_ready p peer_side_id id =
    response "pair.ready" (pair_ready_body p.pair_id peer_side_id p.expires_at) id ""

unfoldable pub delivered_or_offline : Bool → Prog (Unit {0})
delivered_or_offline delivered = if delivered then pure tt else fail (retryable_error peer_offline)

-- `pair.ready` to the creator and to the joiner.
unfoldable pub announce_ready : ℕ → Pair → PairSide → Prog Reply
announce_ready fuel p side = do
  id_a ← new_id
  id_b ← new_id
  delivered_a ← notify fuel p.side_a.connection_id (pair_ready p side.side_id id_a)
  delivered_or_offline delivered_a
  delivered_b ←
      notify_with_pair_event fuel side.connection_id (pair_ready p p.side_a.side_id id_b) true
  delivered_or_offline delivered_b
  pure (joined_reply p.pair_id side.side_id p.expires_at)

unfoldable pub token_hash : Wire → String → Result String
token_hash wire join_token = if is_empty join_token then ok "" else wire.join_token_hash join_token

unfoldable pub join_request : ℕ → Wire → String → String → Connection → ℕ → Prog Reply
join_request fuel wire locator join_token c timestamp = do
  rate_limit c.source_key "pair.join" 20 timestamp
  hash ← settle (token_hash wire join_token)
  side_id ← new_id
  p ←
      join_pair locator hash (record { connection_id = c.connection_id; side_id = side_id })
        timestamp
  announce_ready fuel p (record { connection_id = c.connection_id; side_id = side_id })

unfoldable pub announce_completed : ℕ → Pair → Link → Option PairCommit → Prog (Unit {0})
announce_completed fuel p l none = pure tt
announce_completed fuel p l (some c) = do
  id ← new_id
  delivered ← notify fuel c.connection_id (
      response "pair.completed"
        (pair_completed_body p.pair_id l.link_id c.peer.endpoint_id c.peer.role) id "")
  pure tt

unfoldable pub committed : ℕ → Pair → Option Link → Prog Reply
committed fuel p none = pure pending_reply
committed fuel p (some l) = do
  announce_completed fuel p l p.commit_a
  announce_completed fuel p l p.commit_b
  pure (active_reply l.link_id)

unfoldable pub commit_request : ℕ → ℕ → String → PairCommit → Connection → ℕ → Prog Reply
commit_request fuel limit pair_id commit c timestamp = do
  result ← commit_pair limit pair_id commit c.source_key timestamp
  committed fuel result.pair result.link

unfoldable pub announce_cancelled : ℕ → String → Option Pair → Prog (Unit {0})
announce_cancelled fuel connection_id none = pure tt
announce_cancelled fuel connection_id (some p) =
    if status_eq p.status pair_closed
    then pair_closed_message (notify_with_pair_event fuel) p connection_id "cancelled"
    else pure tt

unfoldable pub cancel_request : ℕ → String → Connection → ℕ → Prog Reply
cancel_request fuel pair_id c timestamp = do
  p ← cancel_pair pair_id c.connection_id timestamp
  announce_cancelled fuel c.connection_id p
  pure cancelled_reply
