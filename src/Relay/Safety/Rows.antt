-- ===== src/Relay/Safety/Rows.antt =====
-- Of the items that services/rendezvous-relay/internal/relay/store.go keeps: what holds of each at
-- all times (`RowOk`), and how one may change (`RowStep`).
use remote_davinci.Base.{
  ℕ, ◌≤◌, ◌<◌, ◌≡◌, refl, ◌∙◌, ◌⊎◌, inl, Bool, true, false, not, ◌&&◌, Option, none, some, is_empty,
  is_none, arith,
}
use remote_davinci.Relay.Model.{
  Connection, Endpoint, PairStatus, opened, ready, half_committed, activated, pair_closed, Pair,
  link_active, link_revoked, Link, session_active, session_closed, Session,
}
use remote_davinci.Relay.Table.{
  Kind, connection_kind, endpoint_kind, pair_kind, locator_kind, join_kind, link_kind, session_kind,
  rate_kind, Row,
}

-- An endpoint with a session has a connection, and a revoked one has no connection, no session and
-- no credential.
pub record EndpointOk (e : Endpoint) : Type 0 where
  pub connected : is_empty e.active_session_id ≡ false → is_empty e.connection_id ≡ false
  pub detached : 0 < e.revoked_at → is_empty e.connection_id ≡ true
  pub idle : 0 < e.revoked_at → is_empty e.active_session_id ≡ true
  pub disarmed : 0 < e.revoked_at → is_empty e.credential_hash ≡ true

-- Which of the second side and the two commits are there, by status.
abbrev pub has_shape : PairStatus → Bool → Bool → Bool → Bool
has_shape opened side a b = not side && not a && not b
has_shape ready side a b = side && not a && not b
has_shape half_committed side true b = side && not b
has_shape half_committed side false b = side && b
has_shape activated side a b = side && a && b
has_shape pair_closed side a b = true

abbrev pub PairOk : Pair → Type 0
PairOk p =
    has_shape p.status (not (is_none p.side_b)) (not (is_none p.commit_a))
      (not (is_none p.commit_b))
    ≡ true

-- A revoked link has no session, and an active one no time of revocation.
pub record LinkOk (l : Link) : Type 0 where
  pub unlocked : l.status ≡ link_revoked → is_empty l.active_session_id ≡ true
  pub unrevoked : l.status ≡ link_active → l.revoked_at ≡ 0

abbrev pub SessionOk : Session → Type 0
SessionOk s = s.status ≡ session_active → s.closed_at ≡ 0

abbrev pub RowOk : (k : Kind) → Option (Row k) → Type 0
RowOk endpoint_kind (some e) = EndpointOk e
RowOk pair_kind (some p) = PairOk p
RowOk link_kind (some l) = LinkOk l
RowOk session_kind (some s) = SessionOk s
RowOk _ _ = Unit

-- Who a connection belongs to never changes, and it takes part in one pairing at most.
pub record ConnectionStep (c d : Connection) : Type 0 where
  pub same_id : d.connection_id ≡ c.connection_id
  pub same_mode : d.auth_mode ≡ c.auth_mode
  pub same_endpoint : d.endpoint_id ≡ c.endpoint_id
  pub same_source : d.source_key ≡ c.source_key
  pub same_pairing : is_empty c.pairing_id ≡ false → d.pairing_id ≡ c.pairing_id

pub record EndpointStep (e f : Endpoint) : Type 0 where
  pub same_id : f.endpoint_id ≡ e.endpoint_id
  pub same_role : f.role ≡ e.role
  pub same_creation : f.created_at ≡ e.created_at
  pub stays_revoked : 0 < e.revoked_at → f.revoked_at ≡ e.revoked_at

abbrev pub rank : PairStatus → ℕ
rank opened = 0
rank ready = 1
rank half_committed = 2
rank activated = 3
rank pair_closed = 3

-- The status stays or goes forward; `activated` and `pair_closed` are final.
abbrev pub Advances : PairStatus → PairStatus → Type 0
Advances s t = (t ≡ s) ⊎ (rank s < rank t)

-- What is set stays as it is.
abbrev pub Kept {ℓ} : {A : Type ℓ} → Option A → Option A → Type ℓ
Kept none y = Unit
Kept (some a) y = y ≡ some a

pub record PairStep (p q : Pair) : Type 0 where
  pub same_id : q.pair_id ≡ p.pair_id
  pub same_locator : q.locator ≡ p.locator
  pub same_token : q.join_token_hash ≡ p.join_token_hash
  pub same_creator : q.side_a ≡ p.side_a
  pub same_expiry : q.expires_at ≡ p.expires_at
  pub joiner_kept : Kept p.side_b q.side_b
  pub commit_a_kept : Kept p.commit_a q.commit_a
  pub commit_b_kept : Kept p.commit_b q.commit_b
  pub advances : Advances p.status q.status

pub record LinkStep (l m : Link) : Type 0 where
  pub same_id : m.link_id ≡ l.link_id
  pub same_controller : m.controller_id ≡ l.controller_id
  pub same_companion : m.companion_id ≡ l.companion_id
  pub same_creation : m.created_at ≡ l.created_at
  pub stays_revoked : l.status ≡ link_revoked → m.status ≡ link_revoked
  pub same_revocation : l.status ≡ link_revoked → m.revoked_at ≡ l.revoked_at

pub record SessionStep (s t : Session) : Type 0 where
  pub same_id : t.session_id ≡ s.session_id
  pub same_link : t.link_id ≡ s.link_id
  pub same_controller : t.controller_id ≡ s.controller_id
  pub same_companion : t.companion_id ≡ s.companion_id
  pub same_controller_connection : t.controller_connection_id ≡ s.controller_connection_id
  pub same_companion_connection : t.companion_connection_id ≡ s.companion_connection_id
  pub same_creation : t.created_at ≡ s.created_at
  pub same_expiry : t.expires_at ≡ s.expires_at
  pub stays_closed : s.status ≡ session_closed → t.status ≡ session_closed
  pub same_closing : s.status ≡ session_closed → t.closed_at ≡ s.closed_at

-- Only connections are deleted, and the pointers to pairs are never changed.
abbrev pub RowStep : (k : Kind) → Option (Row k) → Option (Row k) → Type 0
RowStep k none y = Unit
RowStep connection_kind (some c) none = Unit
RowStep connection_kind (some c) (some d) = ConnectionStep c d
RowStep endpoint_kind (some e) (some f) = EndpointStep e f
RowStep pair_kind (some p) (some q) = PairStep p q
RowStep locator_kind (some p) (some q) = q ≡ p
RowStep join_kind (some p) (some q) = q ≡ p
RowStep link_kind (some l) (some m) = LinkStep l m
RowStep session_kind (some s) (some t) = SessionStep s t
RowStep rate_kind (some r) (some s) = r.count ≤ s.count
RowStep k (some x) none = ⊥

pub Kept-refl {ℓ} : {A : Type ℓ} (o : Option A) → Kept o o
Kept-refl none = tt
Kept-refl (some a) = refl

pub Kept-trans {ℓ} : {A : Type ℓ} (x y z : Option A) → Kept x y → Kept y z → Kept x z
Kept-trans none y z h k = tt
Kept-trans (some a) none z h k = cc h
Kept-trans (some a) (some b) z h k = k ∙ h

pub PairStep-refl : (p : Pair) → PairStep p p
PairStep-refl p = record {
  same_id = refl;
  same_locator = refl;
  same_token = refl;
  same_creator = refl;
  same_expiry = refl;
  joiner_kept = Kept-refl p.side_b;
  commit_a_kept = Kept-refl p.commit_a;
  commit_b_kept = Kept-refl p.commit_b;
  advances = inl refl;
}

pub RowStep-refl : (k : Kind) (o : Option (Row k)) → RowStep k o o
RowStep-refl connection_kind none = tt
RowStep-refl endpoint_kind none = tt
RowStep-refl pair_kind none = tt
RowStep-refl locator_kind none = tt
RowStep-refl join_kind none = tt
RowStep-refl link_kind none = tt
RowStep-refl session_kind none = tt
RowStep-refl rate_kind none = tt
RowStep-refl connection_kind (some c) = ground arith
RowStep-refl endpoint_kind (some e) = ground arith
RowStep-refl pair_kind (some p) = PairStep-refl p
RowStep-refl locator_kind (some p) = refl
RowStep-refl join_kind (some p) = refl
RowStep-refl link_kind (some l) = ground arith
RowStep-refl session_kind (some s) = ground arith
RowStep-refl rate_kind (some r) = omega arith
