-- ===== src/Relay/Safety/PairLifetimes.antt =====
-- What pairs and the pointers to them keep over a history of the table of
-- services/rendezvous-relay/internal/relay/store.go.
use remote_davinci.Base.{
  subst, ◌<◌, ◌≡◌, ◌∙◌, ap, refl, false, String, Option, none, some, inl, inr, is_none, arith,
}
use remote_davinci.Relay.Model.{
  PairSide, PairCommit, Pair, PairStatus, opened, ready, half_committed, activated, pair_closed,
}
use remote_davinci.Relay.Table.{pair_kind, locator_kind, join_kind, PairPointer, Tables, Database}
use remote_davinci.Relay.Safety.Rows.{RowOk, PairOk, PairStep, Kept, Advances, rank}
use remote_davinci.Relay.Store.Writes.{Admission, by_locator, by_token}
use remote_davinci.Relay.Safety.History.{History, WellFormed}
use remote_davinci.Relay.Safety.Lifetimes.{stays}

-- A pair is never removed. Its locator, its token, its first side and its expiry never change, its
-- second side and its commits stay as they are once they are there, and its status stays or goes
-- forward, from opened over ready and half committed to one of the two final ones.
pub pair-Advances :
    (db : Database) (t t' : Tables)
    → WellFormed t
    → History db t t'
    → (id : String) (p : Pair) → t pair_kind id ≡ some p
    → (q : Pair) × (t' pair_kind id ≡ some q)
      × (q.locator ≡ p.locator)
      × (q.join_token_hash ≡ p.join_token_hash)
      × (q.side_a ≡ p.side_a)
      × (q.expires_at ≡ p.expires_at)
      × Kept p.side_b q.side_b
      × Kept p.commit_a q.commit_a
      × Kept p.commit_b q.commit_b
      × Advances p.status q.status
pair-Advances db t t' h past id p at =
    let (q, here, step, fine) = stays db t t' h past pair_kind refl id p at in
    (
      q, here, step.same_locator, step.same_token, step.same_creator, step.same_expiry,
      step.joiner_kept, step.commit_a_kept, step.commit_b_kept, step.advances,
    )

Kept-there :
    {A : Type 0} (x y : Option A)
    → is_none x ≡ false
    → Kept x y
    → (a : A) × (x ≡ some a) × (y ≡ some a)
Kept-there none y h k = absurd (cc h)
Kept-there (some a) y h k = (a, refl, k)

activated-there :
    (p : Pair)
    → p.status ≡ activated
    → PairOk p
    → (is_none p.side_b ≡ false) × (is_none p.commit_a ≡ false) × (is_none p.commit_b ≡ false)
activated-there p s h = ground (arith, s, h)

none_above : (s t : PairStatus) → s ≡ activated → rank s < rank t → ⊥
none_above s opened e h = ground (arith, e, h)
none_above s ready e h = ground (arith, e, h)
none_above s half_committed e h = ground (arith, e, h)
none_above s activated e h = ground (arith, e, h)
none_above s pair_closed e h = ground (arith, e, h)

stays_activated : (p q : Pair) → p.status ≡ activated → PairStep p q → q.status ≡ activated
stays_activated p q s step = elim step.advances [
  | inl e ↦ e ∙ s
  | inr h ↦ absurd (none_above p.status q.status s h)
]

-- A pair that is activated stays so for good, with both sides and the commits of both, and none of
-- these changes.
pub activated_pair-final :
    (db : Database) (t t' : Tables)
    → WellFormed t
    → History db t t'
    → (id : String) (p : Pair) → t pair_kind id ≡ some p
    → p.status ≡ activated
    → (q : Pair) × (t' pair_kind id ≡ some q)
      × (q.status ≡ activated)
      × ((s : PairSide) × (p.side_b ≡ some s) × (q.side_b ≡ some s))
      × ((a : PairCommit) × (p.commit_a ≡ some a) × (q.commit_a ≡ some a))
      × ((b : PairCommit) × (p.commit_b ≡ some b) × (q.commit_b ≡ some b))
activated_pair-final db t t' h past id p at s =
    let (q, here, step, fine) = stays db t t' h past pair_kind refl id p at in
    let before : PairOk p = subst (RowOk pair_kind) at (h pair_kind id) in
    let there = activated-there p s before in
    (
      q,
      here,
      stays_activated p q s step,
      Kept-there _ _ there.0 step.joiner_kept,
      Kept-there _ _ there.1 step.commit_a_kept,
      Kept-there _ _ there.2 step.commit_b_kept,
    )

-- The pointer of an admission: a locator and the hash of a join token have a kind of item each.
abbrev pub pointer_at : Tables → Admission → Option PairPointer
pointer_at t (by_locator v) = t locator_kind v
pointer_at t (by_token v) = t join_kind v

-- A pointer from a locator or from the hash of a join token to a pair stays as it is, whatever ran since,
-- so the admission never leads to another pair.
pub pointers-final :
    (db : Database) (t t' : Tables)
    → WellFormed t
    → History db t t'
    → (a : Admission) (p : PairPointer) → pointer_at t a ≡ some p
    → pointer_at t' a ≡ some p
pointers-final db t t' h past (by_locator v) p at =
    let (x, here, step, fine) = stays db t t' h past locator_kind refl v p at in here ∙ ap some step
pointers-final db t t' h past (by_token v) p at =
    let (x, here, step, fine) = stays db t t' h past join_kind refl v p at in here ∙ ap some step
