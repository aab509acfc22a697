-- ===== src/Relay/Safety/Lifetimes.antt =====
-- What the items of services/rendezvous-relay/internal/relay/store.go keep over a history of the
-- table, in terms of their attributes.
use remote_davinci.Base.{
  ◌≤◌, ◌<◌, ◌≡◌, refl, sym, true, String, Option, none, some, ◌⊎◌, inl, inr, is_empty,
}
use remote_davinci.Relay.Model.{Connection, Endpoint, Link, link_revoked, Session, session_closed}
use remote_davinci.Relay.Table.{
  Kind, connection_kind, endpoint_kind, link_kind, session_kind, rate_kind, Row, Rate, Tables,
  Database,
}
use remote_davinci.Relay.Safety.Rows.{RowOk, RowStep, ConnectionStep}
use remote_davinci.Relay.Safety.Steps.{lasting, RowStep-stays}
use remote_davinci.Relay.Safety.History.{
  Change, History, WellFormed, Change-SoundAt, well_formed, History-RowStep,
}

-- The item is still there, well-formed, and at a step from what it was.
abbrev pub Stays : (k : Kind) → Row k → Option (Row k) → Type 0
Stays k x o = (y : Row k) × (o ≡ some y) × RowStep k (some x) (some y) × RowOk k (some y)

Stays-by :
    (k : Kind) (x : Row k) (o : Option (Row k))
    → RowOk k o
    → ((y : Row k) × (o ≡ some y) × RowStep k (some x) (some y))
    → Stays k x o
Stays-by k x o h (y, e, s) = (y, e, s, rw (sym e) h)

pub stays :
    (db : Database) (t t' : Tables)
    → WellFormed t
    → History db t t'
    → (k : Kind) → lasting k ≡ true
    → (id : String) (x : Row k) → t k id ≡ some x
    → Stays k x (t' k id)
stays db t t' h past k l id x e =
    Stays-by k x _ (well_formed db t t' h past k id)
      (RowStep-stays k l x _ (rw (sym e) (History-RowStep db t t' h past k l id)))

-- An endpoint that is revoked stays so, with the time of its revocation, and from then on it has no
-- connection, no session and no credential, whatever the calls that run meanwhile.
pub revoked_endpoint-final :
    (db : Database) (t t' : Tables)
    → WellFormed t
    → History db t t'
    → (id : String) (e : Endpoint) → t endpoint_kind id ≡ some e
    → 0 < e.revoked_at
    → (f : Endpoint) × (t' endpoint_kind id ≡ some f)
      × (f.revoked_at ≡ e.revoked_at)
      × (is_empty f.connection_id ≡ true)
      × (is_empty f.active_session_id ≡ true)
      × (is_empty f.credential_hash ≡ true)
revoked_endpoint-final db t t' h past id e at r =
    let (f, here, step, fine) = stays db t t' h past endpoint_kind refl id e at in
    let same = step.stays_revoked r in
    let after : 0 < f.revoked_at = rw same r in
    (f, here, same, fine.detached after, fine.idle after, fine.disarmed after)

-- An endpoint is never removed, and its id, its role and the time of its creation never change.
pub endpoint-identity :
    (db : Database) (t t' : Tables)
    → WellFormed t
    → History db t t'
    → (id : String) (e : Endpoint) → t endpoint_kind id ≡ some e
    → (f : Endpoint) × (t' endpoint_kind id ≡ some f)
      × (f.endpoint_id ≡ e.endpoint_id)
      × (f.role ≡ e.role)
      × (f.created_at ≡ e.created_at)
endpoint-identity db t t' h past id e at =
    let (f, here, step, fine) = stays db t t' h past endpoint_kind refl id e at in
    (f, here, step.same_id, step.same_role, step.same_creation)

-- A link that is revoked stays so, with the time of its revocation, and has no session any more.
pub revoked_link-final :
    (db : Database) (t t' : Tables)
    → WellFormed t
    → History db t t'
    → (id : String) (l : Link) → t link_kind id ≡ some l
    → l.status ≡ link_revoked
    → (m : Link) × (t' link_kind id ≡ some m)
      × (m.status ≡ link_revoked)
      × (m.revoked_at ≡ l.revoked_at)
      × (is_empty m.active_session_id ≡ true)
revoked_link-final db t t' h past id l at r =
    let (m, here, step, fine) = stays db t t' h past link_kind refl id l at in
    (m, here, step.stays_revoked r, step.same_revocation r, fine.unlocked (step.stays_revoked r))

-- A link is never removed, and the two endpoints that it links never change.
pub link-parties :
    (db : Database) (t t' : Tables)
    → WellFormed t
    → History db t t'
    → (id : String) (l : Link) → t link_kind id ≡ some l
    → (m : Link) × (t' link_kind id ≡ some m)
      × (m.controller_id ≡ l.controller_id)
      × (m.companion_id ≡ l.companion_id)
      × (m.created_at ≡ l.created_at)
link-parties db t t' h past id l at =
    let (m, here, step, fine) = stays db t t' h past link_kind refl id l at in
    (m, here, step.same_controller, step.same_companion, step.same_creation)

-- A session that is closed stays so, with the time of its closing.
pub closed_session-final :
    (db : Database) (t t' : Tables)
    → WellFormed t
    → History db t t'
    → (id : String) (s : Session) → t session_kind id ≡ some s
    → s.status ≡ session_closed
    → (u : Session) × (t' session_kind id ≡ some u)
      × (u.status ≡ session_closed)
      × (u.closed_at ≡ s.closed_at)
closed_session-final db t t' h past id s at c =
    let (u, here, step, fine) = stays db t t' h past session_kind refl id s at in
    (u, here, step.stays_closed c, step.same_closing c)

-- A session is never removed, and its link, its two connections and its expiry never change: frames
-- of a session go to the same two connections as long as it lives.
pub session-parties :
    (db : Database) (t t' : Tables)
    → WellFormed t
    → History db t t'
    → (id : String) (s : Session) → t session_kind id ≡ some s
    → (u : Session) × (t' session_kind id ≡ some u)
      × (u.link_id ≡ s.link_id)
      × (u.controller_connection_id ≡ s.controller_connection_id)
      × (u.companion_connection_id ≡ s.companion_connection_id)
      × (u.expires_at ≡ s.expires_at)
session-parties db t t' h past id s at =
    let (u, here, step, fine) = stays db t t' h past session_kind refl id s at in
    (
      u, here, step.same_link, step.same_controller_connection, step.same_companion_connection,
      step.same_expiry,
    )

-- The counter of a rate limit is never reset or counted down.
pub rate-grows :
    (db : Database) (t t' : Tables)
    → WellFormed t
    → History db t t'
    → (id : String) (r : Rate) → t rate_kind id ≡ some r
    → (s : Rate) × (t' rate_kind id ≡ some s) × (r.count ≤ s.count)
rate-grows db t t' h past id r at =
    let (s, here, step, fine) = stays db t t' h past rate_kind refl id r at in (s, here, step)

connection_kept :
    (c : Connection) (o : Option Connection)
    → RowStep connection_kind (some c) o
    → (o ≡ none) ⊎ ((d : Connection) × (o ≡ some d) × ConnectionStep c d)
connection_kept c none h = inl refl
connection_kept c (some d) h = inr (d, refl, h)

-- A request of any call removes a connection or leaves it with the endpoint, the mode and the source
-- that it was made with.
pub connection-identity :
    (db : Database) (t t' : Tables)
    → WellFormed t
    → Change db t t'
    → (id : String) (c : Connection) → t connection_kind id ≡ some c
    → (t' connection_kind id ≡ none)
      ⊎ ((d : Connection) × (t' connection_kind id ≡ some d) × ConnectionStep c d)
connection-identity db t t' h r id c at =
    connection_kept c _
      (rw (sym at) (Change-SoundAt db t t' connection_kind id (h connection_kind id) r).1)
