-- ===== src/Relay/Safety/Steps.antt =====
-- Steps of items of services/rendezvous-relay/internal/relay/store.go one after the other.
use remote_davinci.Base.{
  ◌≡◌, ◌∙◌, inl, inr, refl, sym, Bool, true, false, Option, none, some, arith,
}
use remote_davinci.Relay.Model.{PairStatus, Endpoint, Pair, Link, Session}
use remote_davinci.Relay.Table.{
  Kind, connection_kind, endpoint_kind, pair_kind, locator_kind, join_kind, link_kind, session_kind,
  rate_kind, Row,
}
use remote_davinci.Relay.Safety.Rows.{
  RowStep, EndpointStep, PairStep, LinkStep, SessionStep, Advances, Kept-trans,
}

pub Advances-trans : (r s t : PairStatus) → Advances r s → Advances s t → Advances r t
Advances-trans r s t (inl e) k = rw (sym e) k
Advances-trans r s t (inr h) (inl e) = inr (rw e h)
Advances-trans r s t (inr h) (inr k) = inr (omega (arith, h, k))

EndpointStep-trans : (e f g : Endpoint) → EndpointStep e f → EndpointStep f g → EndpointStep e g
EndpointStep-trans e f g h k = record {
  same_id = k.same_id ∙ h.same_id;
  same_role = k.same_role ∙ h.same_role;
  same_creation = k.same_creation ∙ h.same_creation;
  stays_revoked = λ r. let s = h.stays_revoked r in k.stays_revoked (omega (arith, s, r)) ∙ s;
}

PairStep-trans : (p q r : Pair) → PairStep p q → PairStep q r → PairStep p r
PairStep-trans p q r h k = record {
  same_id = k.same_id ∙ h.same_id;
  same_locator = k.same_locator ∙ h.same_locator;
  same_token = k.same_token ∙ h.same_token;
  same_creator = k.same_creator ∙ h.same_creator;
  same_expiry = k.same_expiry ∙ h.same_expiry;
  joiner_kept = Kept-trans _ _ _ h.joiner_kept k.joiner_kept;
  commit_a_kept = Kept-trans _ _ _ h.commit_a_kept k.commit_a_kept;
  commit_b_kept = Kept-trans _ _ _ h.commit_b_kept k.commit_b_kept;
  advances = Advances-trans _ _ _ h.advances k.advances;
}

LinkStep-trans : (l m n : Link) → LinkStep l m → LinkStep m n → LinkStep l n
LinkStep-trans l m n h k = record {
  same_id = k.same_id ∙ h.same_id;
  same_controller = k.same_controller ∙ h.same_controller;
  same_companion = k.same_companion ∙ h.same_companion;
  same_creation = k.same_creation ∙ h.same_creation;
  stays_revoked = λ r. k.stays_revoked (h.stays_revoked r);
  same_revocation = λ r. k.same_revocation (h.stays_revoked r) ∙ h.same_revocation r;
}

SessionStep-trans : (s t u : Session) → SessionStep s t → SessionStep t u → SessionStep s u
SessionStep-trans s t u h k = record {
  same_id = k.same_id ∙ h.same_id;
  same_link = k.same_link ∙ h.same_link;
  same_controller = k.same_controller ∙ h.same_controller;
  same_companion = k.same_companion ∙ h.same_companion;
  same_controller_connection = k.same_controller_connection ∙ h.same_controller_connection;
  same_companion_connection = k.same_companion_connection ∙ h.same_companion_connection;
  same_creation = k.same_creation ∙ h.same_creation;
  same_expiry = k.same_expiry ∙ h.same_expiry;
  stays_closed = λ r. k.stays_closed (h.stays_closed r);
  same_closing = λ r. k.same_closing (h.stays_closed r) ∙ h.same_closing r;
}

-- The kinds whose items are never deleted.
abbrev pub lasting : Kind → Bool
lasting connection_kind = false
lasting _ = true

RowStep-some :
    (k : Kind)
    → lasting k ≡ true
    → (x y z : Row k) → RowStep k (some x) (some y)
    → RowStep k (some y) (some z)
    → RowStep k (some x) (some z)
RowStep-some connection_kind l x y z h i = absurd (cc l)
RowStep-some endpoint_kind l x y z h i = EndpointStep-trans x y z h i
RowStep-some pair_kind l x y z h i = PairStep-trans x y z h i
RowStep-some locator_kind l x y z h i = i ∙ h
RowStep-some join_kind l x y z h i = i ∙ h
RowStep-some link_kind l x y z h i = LinkStep-trans x y z h i
RowStep-some session_kind l x y z h i = SessionStep-trans x y z h i
RowStep-some rate_kind l x y z h i = omega arith

-- An item of a lasting kind is still there after a step.
RowStep-none : (k : Kind) → lasting k ≡ true → (x : Row k) → RowStep k (some x) none → ⊥
RowStep-none connection_kind l x h = cc l
RowStep-none endpoint_kind l x h = h
RowStep-none pair_kind l x h = h
RowStep-none locator_kind l x h = h
RowStep-none join_kind l x h = h
RowStep-none link_kind l x h = h
RowStep-none session_kind l x h = h
RowStep-none rate_kind l x h = h

RowStep-from_none : (k : Kind) (o : Option (Row k)) → RowStep k none o
RowStep-from_none k o = tt

pub RowStep-trans :
    (k : Kind)
    → lasting k ≡ true
    → (o p q : Option (Row k)) → RowStep k o p
    → RowStep k p q
    → RowStep k o q
RowStep-trans k l none p q h i = RowStep-from_none k q
RowStep-trans k l (some x) none q h i = absurd (RowStep-none k l x h)
RowStep-trans k l (some x) (some y) none h i = absurd (RowStep-none k l y i)
RowStep-trans k l (some x) (some y) (some z) h i = RowStep-some k l x y z h i

-- What an item that is there steps to is there.
pub RowStep-stays :
    (k : Kind)
    → lasting k ≡ true
    → (x : Row k) (o : Option (Row k)) → RowStep k (some x) o
    → (y : Row k) × (o ≡ some y) × RowStep k (some x) (some y)
RowStep-stays k l x none h = absurd (RowStep-none k l x h)
RowStep-stays k l x (some y) h = (y, refl, h)
