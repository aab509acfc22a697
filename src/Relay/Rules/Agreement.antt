-- ===== src/Relay/Rules/Agreement.antt =====
-- The link that two commits agree on: `linkFromCommits` of
-- services/rendezvous-relay/internal/relay/model.go.
use remote_davinci.Base.{
  ℕ, ◌≡◌, refl, sym, ◌∙◌, ◌⊎◌, inl, inr, true, false, Bool-cases, some, String, str_eq, eq_iff,
  arith, subst,
}
use remote_davinci.Protocol.{DeviceRole, controller, companion, role_eq}
use remote_davinci.Relay.Model.{
  PairCommit, Link, link_active, reciprocal_commits, link_from_commits,
}

-- What two reciprocal commits say of each other.
record Agreed (a b : PairCommit) : Type 0 where
  pub one_link : a.link_id ≡ b.link_id
  pub a_is_peer : a.self.endpoint_id ≡ b.peer.endpoint_id
  pub b_is_peer : a.peer.endpoint_id ≡ b.self.endpoint_id
  pub distinct : str_eq a.self.endpoint_id a.peer.endpoint_id ≡ false
  pub a_role : role_eq a.self.role b.peer.role ≡ true
  pub b_role : role_eq a.peer.role b.self.role ≡ true
  pub roles : role_eq a.self.role a.peer.role ≡ false

agreed : (a b : PairCommit) → reciprocal_commits a b ≡ true → Agreed a b
unfolding reciprocal_commits
agreed a b h = record {
  one_link = (eq_iff a.link_id b.link_id).0 (ground (arith, h));
  a_is_peer = (eq_iff a.self.endpoint_id b.peer.endpoint_id).0 (ground (arith, h));
  b_is_peer = (eq_iff a.peer.endpoint_id b.self.endpoint_id).0 (ground (arith, h));
  distinct = ground (arith, h);
  a_role = ground (arith, h);
  b_role = ground (arith, h);
  roles = ground (arith, h);
}

abbrev pub link_between : PairCommit → PairCommit → String → ℕ → Link
link_between first second link_id now = record {
  link_id = link_id;
  controller_id = first.self.endpoint_id;
  companion_id = second.self.endpoint_id;
  status = link_active;
  active_session_id = "";
  created_at = now;
  revoked_at = 0;
}

-- `linkFromCommits` on commits of two roles, by the role of the second one.
made : DeviceRole → PairCommit → PairCommit → ℕ → Link
made r a b now = elim r [
  | controller ↦ link_between b a a.link_id now
  | companion ↦ link_between a b a.link_id now
]

link_by_role :
    (a b : PairCommit) (r : DeviceRole) (now : ℕ)
    → reciprocal_commits a b ≡ true
    → b.self.role ≡ r
    → link_from_commits a b now ≡ some (made r a b now)
unfolding made link_from_commits
link_by_role a b controller now h e = rw (h, e) refl
link_by_role a b companion now h e = rw (h, e) refl

link-reciprocal :
    (a b : PairCommit) (now : ℕ) (l : Link)
    → link_from_commits a b now ≡ some l
    → reciprocal_commits a b ≡ true
unfolding link_from_commits
link-reciprocal a b now l h = elim (Bool-cases (reciprocal_commits a b)) [
  | inl e ↦ e
  | inr e ↦ absurd (ground (arith, e, h))
]

role_path : (r s : DeviceRole) → role_eq r s ≡ true → r ≡ s
role_path controller controller h = refl
role_path companion companion h = refl
role_path controller companion h = absurd (cc h)
role_path companion controller h = absurd (cc h)

abbrev other_role : DeviceRole → DeviceRole
other_role controller = companion
other_role companion = controller

role_other : (r s : DeviceRole) → role_eq r s ≡ false → r ≡ other_role s
role_other controller controller h = absurd (cc h)
role_other controller companion h = refl
role_other companion controller h = refl
role_other companion companion h = absurd (cc h)

roles_differ : (a b : PairCommit) → Agreed a b → a.self.role ≡ other_role b.self.role
roles_differ a b h = role_other a.self.role b.self.role (
    subst (λ r. role_eq a.self.role r ≡ false) (role_path a.peer.role b.self.role h.b_role) h.roles)

-- The two roles are one each, and the link is from the controller's endpoint to the companion's.
abbrev pub FromController : PairCommit → PairCommit → Link → ℕ → Type 0
FromController a b l now =
    (a.self.role ≡ companion) × (b.self.role ≡ controller) × (l ≡ link_between b a a.link_id now)
    ⊎ (a.self.role ≡ controller) × (b.self.role ≡ companion) × (l ≡ link_between a b a.link_id now)

by_role :
    (a b : PairCommit) (r : DeviceRole) (now : ℕ) (l : Link)
    → b.self.role ≡ r
    → a.self.role ≡ other_role r
    → l ≡ made r a b now
    → FromController a b l now
unfolding made
by_role a b controller now l e f g = inl (f, e, g)
by_role a b companion now l e f g = inr (f, e, g)

some_eq : {A : Type 0} {x y : A} → some x ≡ some y → x ≡ y
some_eq h = cc h

-- A link comes of two commits only if they name the same link and each other's endpoints, which
-- differ, and one has the role of a controller and the other that of a companion. It is then active,
-- without a session, from the endpoint of the first to that of the second.
pub link_from_commits-agreement :
    (a b : PairCommit) (now : ℕ) (l : Link)
    → link_from_commits a b now ≡ some l
    → (a.link_id ≡ b.link_id)
      × (a.self.endpoint_id ≡ b.peer.endpoint_id)
      × (a.peer.endpoint_id ≡ b.self.endpoint_id)
      × (str_eq a.self.endpoint_id b.self.endpoint_id ≡ false)
      × FromController a b l now
link_from_commits-agreement a b now l h =
    let r = link-reciprocal a b now l h in
    let g = agreed a b r in
    (
      g.one_link,
      g.a_is_peer,
      g.b_is_peer,
      subst (λ x. str_eq a.self.endpoint_id x ≡ false) g.b_is_peer g.distinct,
      by_role a b b.self.role now l refl (roles_differ a b g)
          (some_eq (sym h ∙ link_by_role a b b.self.role now r refl)),
    )

str_eq_comm : (s t : String) → str_eq s t ≡ false → str_eq t s ≡ false
str_eq_comm s t h = elim (Bool-cases (str_eq t s)) [
  | inl e ↦ cc (h, (eq_iff s t).1 (sym ((eq_iff t s).0 e)))
  | inr e ↦ e
]

role_eq_comm : (r s : DeviceRole) → role_eq r s ≡ role_eq s r
role_eq_comm controller controller = refl
role_eq_comm controller companion = refl
role_eq_comm companion controller = refl
role_eq_comm companion companion = refl

reciprocal_commits_comm :
    (a b : PairCommit) → reciprocal_commits a b ≡ true → reciprocal_commits b a ≡ true
unfolding reciprocal_commits
reciprocal_commits_comm a b h =
    let g = agreed a b h in
    let one = (eq_iff b.link_id a.link_id).1 (sym g.one_link) in
    let i = (eq_iff b.self.endpoint_id a.peer.endpoint_id).1 (sym g.b_is_peer) in
    let j = (eq_iff b.peer.endpoint_id a.self.endpoint_id).1 (sym g.a_is_peer) in
    let d : str_eq b.self.endpoint_id b.peer.endpoint_id ≡ false =
      subst (λ x. str_eq b.self.endpoint_id x ≡ false) g.a_is_peer
        (str_eq_comm _ _
          (subst (λ x. str_eq a.self.endpoint_id x ≡ false) g.b_is_peer g.distinct)) in
    let p : role_eq b.self.role a.peer.role ≡ true =
      role_eq_comm b.self.role a.peer.role ∙ g.b_role in
    let q : role_eq b.peer.role a.self.role ≡ true =
      role_eq_comm b.peer.role a.self.role ∙ g.a_role in
    let r : role_eq b.self.role b.peer.role ≡ false =
      subst (λ x. role_eq b.self.role x ≡ false) (role_path a.self.role b.peer.role g.a_role)
        (role_eq_comm b.self.role a.self.role
          ∙ subst (λ x. role_eq a.self.role x ≡ false) (role_path a.peer.role b.self.role g.b_role)
              g.roles) in
    rw (one, d, i, j, p, q, r) refl

-- The same parties of two links.
abbrev pub SameParties : Link → Link → Type 0
SameParties l m =
    (m.link_id ≡ l.link_id)
    × (m.controller_id ≡ l.controller_id)
    × (m.companion_id ≡ l.companion_id)

same_parties :
    (a b : PairCommit) (r : DeviceRole) (now : ℕ)
    → a.link_id ≡ b.link_id
    → SameParties (made r a b now) (made (other_role r) b a now)
unfolding made
same_parties a b controller now h = (sym h, refl, refl)
same_parties a b companion now h = (sym h, refl, refl)

-- It does not matter which of two commits is taken as the first: if they make a link, they do so in
-- the other order too, and the two links have one id and the same controller and companion.
pub link_from_commits_comm :
    (a b : PairCommit) (now : ℕ) (l : Link)
    → link_from_commits a b now ≡ some l
    → (m : Link) × (link_from_commits b a now ≡ some m) × SameParties l m
link_from_commits_comm a b now l h =
    let r = link-reciprocal a b now l h in
    let g = agreed a b r in
    let e : made b.self.role a b now ≡ l =
      some_eq (sym (link_by_role a b b.self.role now r refl) ∙ h) in
    (
      made (other_role b.self.role) b a now,
      link_by_role b a (other_role b.self.role) now (reciprocal_commits_comm a b r)
          (roles_differ a b g),
      subst (λ x. SameParties x (made (other_role b.self.role) b a now)) e
          (same_parties a b b.self.role now g.one_link),
    )
