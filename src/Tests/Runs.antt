-- ===== src/Tests/Runs.antt =====
-- The theorems on what runs of services/rendezvous-relay/internal/relay return and have done then, at
-- concrete answers.
use remote_davinci.Base.{String, ◌≡◌, refl, none, some, List, [], ◌∷◌}
use remote_davinci.Relay.Model.{Pair, Connection, endpoint, Session, session_active, opened, ready}
use remote_davinci.Relay.Failure.{ok}
use remote_davinci.Relay.Table.{
  connection_kind, endpoint_kind, pair_kind, locator_kind, join_kind, link_kind, session_kind,
  rate_kind, PairPointer, Write, Tables,
}
use remote_davinci.Relay.Effect.{get_item, transact_items, update_item, time, new_id, ◌>>=◌}
use remote_davinci.Relay.Store.Writes.{by_locator, pair_join, connection_set_pairing}
use remote_davinci.Relay.Store.Rates.{rate_limit, rate_limit_in, rate_limit_answer}
use remote_davinci.Relay.Store.Connections.{unexpired, connection}
use remote_davinci.Relay.Store.Sessions.{retrying, found_session, session}
use remote_davinci.Relay.Store.Pairs.{
  unexpired_pair, pair_by_id, pair_by_pointer, get_pointer, pair_by_admission, join_pair,
  join_writes,
}
use remote_davinci.Relay.Handler.Event.{
  WebSocketEvent, peer_connection, peer_of_joiner, session_peer,
}
use remote_davinci.Relay.Handler.Notify.{
  post_message, posted, notify_by, notify_with_pair_event, notify,
}
use remote_davinci.Relay.Handler.Dispatch.{delivered_or_offline}
use remote_davinci.Relay.Handler.Routes.{
  forward, forward_in_pair, relay_pair_frame, forward_in_session, relay_session_frame,
}
use remote_davinci.Relay.Rules.Runs.{Answers, Runs}
use remote_davinci.Relay.Rules.Admissions.{Found, pair_by_admission-Admitted}
use remote_davinci.Relay.Rules.Joining.{Joined, join_pair-Joined}
use remote_davinci.Relay.Rules.Forwarding.{
  SessionForwarded, relay_session_frame-SessionForwarded, PairForwarded,
  relay_pair_frame-PairForwarded,
}
use remote_davinci.Tests.Stage.{
  wire, guest, busy_phone, active_pair, side_b, pointer, dead_link, dead_session, three,
}

abbrev open_pair : Pair
open_pair = record active_pair { status = opened; side_b = none; commit_a = none; commit_b = none }

abbrev joined_pair : Pair
joined_pair = record open_pair { status = ready; side_b = some side_b }

abbrev member : Connection
member = record guest { auth_mode = endpoint; endpoint_id = "e1" }

abbrev live_session : Session
live_session = record dead_session { status = session_active; closed_at = 0 }

-- Every id has these items.
abbrev items : Pair → Tables
items p connection_kind id = some member
items p endpoint_kind id = some busy_phone
items p pair_kind id = some p
items p locator_kind id = some pointer
items p join_kind id = some pointer
items p link_kind id = some dead_link
items p session_kind id = some live_session
items p rate_kind id = some three

-- At the time 300, with these items: requests to the database are `ws`, messages go to `receiver`.
abbrev world : Pair → (List Write → Type 0) → String → Answers
world p requests receiver = record {
  clock = λ t. t ≡ 300;
  reads = λ k id o. items p k id ≡ o;
  carried_out = requests;
  took = λ id m. id ≡ receiver;
}

-- No request is carried out.
abbrev NoneCarriedOut : List Write → Type 0
NoneCarriedOut ws = ⊥

abbrev Joins : List Write → Type 0
Joins ws =
    ws ≡ pair_join "p1" side_b (by_locator "123456") 300 ∷ connection_set_pairing "c2" "p1" ∷ []

-- One write is carried out.
abbrev Counts : List Write → Type 0
Counts [] = ⊥
Counts (w ∷ ws) = ws ≡ []

finds :
    Runs
      (world active_pair NoneCarriedOut "")
      (pair_by_admission (by_locator "123456") 300)
      active_pair
unfolding pair_by_admission get_pointer pair_by_pointer pair_by_id unexpired_pair get_item ◌>>=◌
finds = (ok (some pointer), refl, (ok (some active_pair), refl, refl))

pair_by_admission-Admitted_example :
    (q : PairPointer) × Found
      (world active_pair NoneCarriedOut "")
      (by_locator "123456")
      300
      active_pair
      q
pair_by_admission-Admitted_example =
    pair_by_admission-Admitted (world active_pair NoneCarriedOut "") (by_locator "123456") 300
      active_pair finds

joined : Runs (world open_pair Joins "") (join_pair "123456" "" side_b 300) joined_pair
unfolding join_pair pair_by_admission get_pointer pair_by_pointer pair_by_id unexpired_pair get_item
    transact_items retrying join_writes ◌>>=◌
joined = (ok (some pointer), refl, (ok (some open_pair), refl, (ok tt, refl, refl)))

join_pair-Joined_example :
    (p : Pair) × Joined (world open_pair Joins "") (by_locator "123456") side_b 300 joined_pair p
join_pair-Joined_example =
    join_pair-Joined (world open_pair Joins "") "123456" "" side_b 300 joined_pair joined

abbrev from : String → WebSocketEvent
from connection_id = record {
  connection_id = connection_id;
  route_key = "frame";
  source_ip = "10.0.0.1";
  authorization = "";
  body = "";
}

session_sent : Runs (world active_pair Counts "c6") (relay_session_frame 2 "s1" "{}" (from "c5")) tt
unfolding relay_session_frame forward_in_session forward time connection unexpired session
    found_session rate_limit rate_limit_in rate_limit_answer update_item get_item session_peer
    new_id notify notify_with_pair_event notify_by post_message posted delivered_or_offline ◌>>=◌
session_sent = (
  300,
  refl,
  (
    ok (some member),
    refl,
    (ok tt, refl, (ok (some live_session), refl, ("m1", (ok tt, refl, refl)))),
  ),
)

relay_session_frame-SessionForwarded_example :
    SessionForwarded (world active_pair Counts "c6") "s1" "{}" "c5"
relay_session_frame-SessionForwarded_example =
    relay_session_frame-SessionForwarded (world active_pair Counts "c6") 2 "s1" "{}" (from "c5")
      session_sent

pair_sent : Runs (world joined_pair Counts "c1") (relay_pair_frame 2 wire "p1" "{}" (from "c2")) tt
unfolding relay_pair_frame forward_in_pair forward time rate_limit rate_limit_in rate_limit_answer
    update_item pair_by_id unexpired_pair get_item peer_connection peer_of_joiner new_id notify
    notify_with_pair_event notify_by post_message posted delivered_or_offline ◌>>=◌
pair_sent = (
  300,
  refl,
  (ok tt, refl, (300, refl, (ok (some joined_pair), refl, ("m1", (ok tt, refl, refl))))),
)

relay_pair_frame-PairForwarded_example :
    PairForwarded (world joined_pair Counts "c1") "p1" "{}" "c2"
relay_pair_frame-PairForwarded_example =
    relay_pair_frame-PairForwarded (world joined_pair Counts "c1") 2 wire "p1" "{}" (from "c2")
      pair_sent
