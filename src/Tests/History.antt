-- ===== src/Tests/History.antt =====
-- The theorems on the table's history at a connect of a pairing, which counts one up in its rate
-- limit.
use remote_davinci.Base.{◌≡◌, ◌⊎◌, refl, none, some, true, is_empty, arith}
use remote_davinci.Relay.Model.{
  Connection, Endpoint, PairSide, PairCommit, Pair, activated, Link, link_revoked, Session,
  session_closed,
}
use remote_davinci.Relay.Table.{connection_kind, endpoint_kind, pair_kind, link_kind, session_kind}
use remote_davinci.Relay.Safety.Rows.{RowOk, Kept, Advances, ConnectionStep}
use remote_davinci.Relay.Safety.History.{well_formed}
use remote_davinci.Relay.Safety.Lifetimes.{
  revoked_endpoint-final, endpoint-identity, revoked_link-final, link-parties, closed_session-final,
  session-parties, connection-identity,
}
use remote_davinci.Relay.Safety.PairLifetimes.{
  pair-Advances, activated_pair-final, pointers-final, pointer_at,
}
use remote_davinci.Relay.Store.Writes.{by_locator}
use remote_davinci.Tests.Stage.{
  replica, before, after, guest, revoked_phone, busy_phone, active_pair, side_b, commit_a, commit_b,
  pointer, dead_link, dead_session, revoked_phone-EndpointOk, busy_phone-EndpointOk,
  before-WellFormed, connects, past,
}

well_formed_example : RowOk endpoint_kind (after busy_phone endpoint_kind "e1")
well_formed_example =
    well_formed replica (before busy_phone) (after busy_phone)
      (before-WellFormed busy_phone busy_phone-EndpointOk) (past busy_phone) endpoint_kind "e1"

revoked_endpoint-final_example :
    (f : Endpoint) × (after revoked_phone endpoint_kind "e1" ≡ some f)
    × (f.revoked_at ≡ 90)
    × (is_empty f.connection_id ≡ true)
    × (is_empty f.active_session_id ≡ true)
    × (is_empty f.credential_hash ≡ true)
revoked_endpoint-final_example =
    revoked_endpoint-final replica (before revoked_phone) (after revoked_phone)
      (before-WellFormed revoked_phone revoked_phone-EndpointOk) (past revoked_phone) "e1"
      revoked_phone refl (omega arith)

endpoint-identity_example :
    (f : Endpoint) × (after busy_phone endpoint_kind "e1" ≡ some f)
    × (f.endpoint_id ≡ "e1")
    × (f.role ≡ busy_phone.role)
    × (f.created_at ≡ 10)
endpoint-identity_example =
    endpoint-identity replica (before busy_phone) (after busy_phone)
      (before-WellFormed busy_phone busy_phone-EndpointOk) (past busy_phone) "e1" busy_phone refl

pair-Advances_example :
    (q : Pair) × (after busy_phone pair_kind "p1" ≡ some q)
    × (q.locator ≡ "123456")
    × (q.join_token_hash ≡ "")
    × (q.side_a ≡ active_pair.side_a)
    × (q.expires_at ≡ 400)
    × Kept (some side_b) q.side_b
    × Kept (some commit_a) q.commit_a
    × Kept (some commit_b) q.commit_b
    × Advances activated q.status
pair-Advances_example =
    pair-Advances replica (before busy_phone) (after busy_phone)
      (before-WellFormed busy_phone busy_phone-EndpointOk) (past busy_phone) "p1" active_pair refl

activated_pair-final_example :
    (q : Pair) × (after busy_phone pair_kind "p1" ≡ some q)
    × (q.status ≡ activated)
    × ((s : PairSide) × (some side_b ≡ some s) × (q.side_b ≡ some s))
    × ((a : PairCommit) × (some commit_a ≡ some a) × (q.commit_a ≡ some a))
    × ((b : PairCommit) × (some commit_b ≡ some b) × (q.commit_b ≡ some b))
activated_pair-final_example =
    activated_pair-final replica (before busy_phone) (after busy_phone)
      (before-WellFormed busy_phone busy_phone-EndpointOk) (past busy_phone) "p1" active_pair refl
      refl

revoked_link-final_example :
    (m : Link) × (after busy_phone link_kind "l1" ≡ some m)
    × (m.status ≡ link_revoked)
    × (m.revoked_at ≡ 80)
    × (is_empty m.active_session_id ≡ true)
revoked_link-final_example =
    revoked_link-final replica (before busy_phone) (after busy_phone)
      (before-WellFormed busy_phone busy_phone-EndpointOk) (past busy_phone) "l1" dead_link refl
      refl

link-parties_example :
    (m : Link) × (after busy_phone link_kind "l1" ≡ some m)
    × (m.controller_id ≡ "e1")
    × (m.companion_id ≡ "e2")
    × (m.created_at ≡ 50)
link-parties_example =
    link-parties replica (before busy_phone) (after busy_phone)
      (before-WellFormed busy_phone busy_phone-EndpointOk) (past busy_phone) "l1" dead_link refl

closed_session-final_example :
    (u : Session) × (after busy_phone session_kind "s1" ≡ some u)
    × (u.status ≡ session_closed)
    × (u.closed_at ≡ 70)
closed_session-final_example =
    closed_session-final replica (before busy_phone) (after busy_phone)
      (before-WellFormed busy_phone busy_phone-EndpointOk) (past busy_phone) "s1" dead_session refl
      refl

session-parties_example :
    (u : Session) × (after busy_phone session_kind "s1" ≡ some u)
    × (u.link_id ≡ "l1")
    × (u.controller_connection_id ≡ "c5")
    × (u.companion_connection_id ≡ "c6")
    × (u.expires_at ≡ 7260)
session-parties_example =
    session-parties replica (before busy_phone) (after busy_phone)
      (before-WellFormed busy_phone busy_phone-EndpointOk) (past busy_phone) "s1" dead_session refl

pointers-final_example : pointer_at (after busy_phone) (by_locator "123456") ≡ some pointer
pointers-final_example =
    pointers-final replica (before busy_phone) (after busy_phone)
      (before-WellFormed busy_phone busy_phone-EndpointOk) (past busy_phone) (by_locator "123456")
      pointer refl

connection-identity_example :
    (after busy_phone connection_kind "c1" ≡ none)
    ⊎ ((d : Connection) × (after busy_phone connection_kind "c1" ≡ some d) × ConnectionStep guest d)
connection-identity_example =
    connection-identity replica (before busy_phone) (after busy_phone)
      (before-WellFormed busy_phone busy_phone-EndpointOk) (connects busy_phone) "c1" guest refl
