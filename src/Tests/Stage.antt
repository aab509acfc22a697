-- ===== src/Tests/Stage.antt =====
-- A table with an item of each kind, and the request that a connect of a pairing makes to it by
-- services/rendezvous-relay/internal/relay/handler.go.
use remote_davinci.Base.{
  refl, sym, subst, inl, inr, Bool-cases, String, none, some, List, [], ◌∷◌, str_eq, eq_iff,
  if◌then◌else◌, Memᴰ, arith,
}
use remote_davinci.Protocol.{invalid_message, controller, companion}
use remote_davinci.Relay.Model.{
  pairing, Connection, Endpoint, PairSide, PairCommit, Pair, activated, Link, link_revoked, Session,
  session_closed,
}
use remote_davinci.Relay.Failure.{err, service_error}
use remote_davinci.Relay.Table.{
  Kind, connection_kind, endpoint_kind, pair_kind, locator_kind, join_kind, link_kind, session_kind,
  rate_kind, PairPointer, Rate, Write, Tables, RowChange, same, written, Database,
}
use remote_davinci.Relay.Effect.{time, update_item, attempt, ◌>>=◌}
use remote_davinci.Relay.Store.Writes.{rate_hit}
use remote_davinci.Relay.Store.Rates.{
  rate_limit_update, rate_limit, rate_limit_in, rate_key, decimal, decimal_from, digit,
}
use remote_davinci.Relay.Handler.Event.{Wire, WebSocketEvent, pairing_scheme}
use remote_davinci.Relay.Handler.Connect.{handle_connect, connect_authorized, connect_pairing}
use remote_davinci.Relay.Handler.Routes.{handle}
use remote_davinci.Relay.Safety.Rows.{EndpointOk}
use remote_davinci.Relay.Safety.Requests.{Sends, sends_update, after_now}
use remote_davinci.Relay.Safety.History.{Change, change, History, start, extend, WellFormed}

-- A database that carries out every request that it may.
abbrev pub replica : Database
replica = record {
  Commits = λ t ws t'. (k : Kind) (id : String) → RowChange ws k id (t k id) (t' k id);
  conditional = λ t t' ws h. h;
}

abbrev pub wire : Wire
wire = record {
  parse_client = λ body. err (service_error invalid_message);
  request_id_from_body = λ body. none;
  parse_authorization = λ header. some pairing_scheme;
  source_key = λ ip. ip;
  credential_digest = λ secret. secret;
  join_token_hash = λ token. err (service_error invalid_message);
}

abbrev pub connect_event : WebSocketEvent
connect_event = record {
  connection_id = "c9";
  route_key = "$connect";
  source_ip = "10.0.0.1";
  authorization = "Pairing";
  body = "";
}

abbrev pub guest : Connection
guest = record {
  connection_id = "c1";
  auth_mode = pairing;
  endpoint_id = "";
  source_key = "10.0.0.1";
  pairing_id = "p1";
  connected_at = 100;
  expires_at = 7600;
}

abbrev pub revoked_phone : Endpoint
revoked_phone = record {
  endpoint_id = "e1";
  credential_hash = "";
  role = controller;
  connection_id = "";
  active_session_id = "";
  revoked_at = 90;
  created_at = 10;
  updated_at = 90;
}

abbrev pub busy_phone : Endpoint
busy_phone = record {
  endpoint_id = "e1";
  credential_hash = "h1";
  role = controller;
  connection_id = "c5";
  active_session_id = "s5";
  revoked_at = 0;
  created_at = 10;
  updated_at = 20;
}

abbrev pub side_a : PairSide
side_a = record { connection_id = "c1"; side_id = "x1" }

abbrev pub side_b : PairSide
side_b = record { connection_id = "c2"; side_id = "x2" }

abbrev pub commit_a : PairCommit
commit_a = record {
  connection_id = "c1";
  side_id = "x1";
  link_id = "l1";
  self = record { endpoint_id = "e1"; role = controller; credential_hash = "h1" };
  peer = record { endpoint_id = "e2"; role = companion };
}

abbrev pub commit_b : PairCommit
commit_b = record {
  connection_id = "c2";
  side_id = "x2";
  link_id = "l1";
  self = record { endpoint_id = "e2"; role = companion; credential_hash = "h2" };
  peer = record { endpoint_id = "e1"; role = controller };
}

abbrev pub active_pair : Pair
active_pair = record {
  pair_id = "p1";
  locator = "123456";
  join_token_hash = "";
  status = activated;
  side_a = side_a;
  side_b = some side_b;
  commit_a = some commit_a;
  commit_b = some commit_b;
  expires_at = 400;
}

abbrev pub pointer : PairPointer
pointer = record { pair_id = "p1"; locator = "123456"; join_token_hash = ""; expires_at = 400 }

abbrev pub dead_link : Link
dead_link = record {
  link_id = "l1";
  controller_id = "e1";
  companion_id = "e2";
  status = link_revoked;
  active_session_id = "";
  created_at = 50;
  revoked_at = 80;
}

abbrev pub dead_session : Session
dead_session = record {
  session_id = "s1";
  link_id = "l1";
  controller_id = "e1";
  companion_id = "e2";
  controller_connection_id = "c5";
  companion_connection_id = "c6";
  status = session_closed;
  created_at = 60;
  expires_at = 7260;
  closed_at = 70;
}

abbrev pub three : Rate
three = record { count = 3; expires_at = 240 }

abbrev pub four : Rate
four = record { count = 4; expires_at = 240 }

abbrev pub key : String
key = "10.0.0.1#pairing.connect#2"

-- Every id has these items.
abbrev pub before : Endpoint → Tables
before e connection_kind id = some guest
before e endpoint_kind id = some e
before e pair_kind id = some active_pair
before e locator_kind id = some pointer
before e join_kind id = some pointer
before e link_kind id = some dead_link
before e session_kind id = some dead_session
before e rate_kind id = some three

abbrev pub after : Endpoint → Tables
after e rate_kind id = some (if str_eq id key then four else three)
after e connection_kind id = some guest
after e endpoint_kind id = some e
after e pair_kind id = some active_pair
after e locator_kind id = some pointer
after e join_kind id = some pointer
after e link_kind id = some dead_link
after e session_kind id = some dead_session

pub revoked_phone-EndpointOk : EndpointOk revoked_phone
revoked_phone-EndpointOk = record {
  connected = λ h. absurd (cc h);
  detached = λ h. refl;
  idle = λ h. refl;
  disarmed = λ h. refl;
}

pub busy_phone-EndpointOk : EndpointOk busy_phone
busy_phone-EndpointOk = record {
  connected = λ h. refl;
  detached = λ h. absurd (omega (arith, h));
  idle = λ h. absurd (omega (arith, h));
  disarmed = λ h. absurd (omega (arith, h));
}

pub before-WellFormed : (e : Endpoint) → EndpointOk e → WellFormed (before e)
before-WellFormed e h connection_kind id = tt
before-WellFormed e h endpoint_kind id = h
before-WellFormed e h pair_kind id = refl
before-WellFormed e h locator_kind id = tt
before-WellFormed e h join_kind id = tt
before-WellFormed e h link_kind id = record { unlocked = λ k. refl; unrevoked = λ k. absurd (cc k) }
before-WellFormed e h session_kind id = λ k. absurd (cc k)
before-WellFormed e h rate_kind id = tt

abbrev hits : List Write
hits = rate_limit_update "10.0.0.1" "pairing.connect" 30 60 120 ∷ []

hit : (e : Endpoint) → RowChange hits rate_kind key (before e rate_kind key) (after e rate_kind key)
unfolding rate_limit_update rate_hit rate_key decimal decimal_from digit
hit e = written _ _ (Memᴰ.head refl) refl refl

hit_at :
    (e : Endpoint) (id : String)
    → RowChange hits rate_kind id (before e rate_kind id) (after e rate_kind id)
hit_at e id = elim (Bool-cases (str_eq id key)) [
  | inl y ↦
      subst (λ x. RowChange hits rate_kind x (before e rate_kind x) (after e rate_kind x))
        (sym ((eq_iff id key).0 y)) (hit e)
  | inr n ↦ same (rw n refl)
]

commits :
    (e : Endpoint) (k : Kind) (id : String) → RowChange hits k id (before e k id) (after e k id)
commits e connection_kind id = same refl
commits e endpoint_kind id = same refl
commits e pair_kind id = same refl
commits e locator_kind id = same refl
commits e join_kind id = same refl
commits e link_kind id = same refl
commits e session_kind id = same refl
commits e rate_kind id = hit_at e id

sends : Sends (handle 2 wire 10 connect_event) hits
unfolding handle handle_connect connect_authorized connect_pairing rate_limit rate_limit_in time
    update_item attempt ◌>>=◌
sends = after_now _ 120 _ (sends_update _ _)

pub connects : (e : Endpoint) → Change replica (before e) (after e)
connects e = change 2 wire 10 connect_event hits sends (commits e)

pub past : (e : Endpoint) → History replica (before e) (after e)
past e = extend (before e) (before e) (after e) (start (before e)) (connects e)
