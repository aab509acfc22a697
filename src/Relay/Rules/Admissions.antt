-- ===== src/Relay/Rules/Admissions.antt =====
-- The pairs that services/rendezvous-relay/internal/relay/store.go finds by a locator or by the hash of a
-- join token.
use remote_davinci.Base.{
  eq_iff, subst, ℕ, String, ◌≡◌, refl, ◌<◌, leb, true, not, Option, none, some, str_eq, is_empty,
  arith,
}
use remote_davinci.Relay.Model.{Pair}
use remote_davinci.Relay.Table.{join_kind, locator_kind, PairPointer, pair_kind}
use remote_davinci.Relay.Effect.{get_item}
use remote_davinci.Relay.Store.Writes.{by_locator, by_token, Admission}
use remote_davinci.Relay.Store.Pairs.{
  unexpired_pair, pair_by_id, carries, pair_by_pointer, get_pointer, pair_by_admission,
}
use remote_davinci.Relay.Rules.Runs.{Answers, Runs, Runs-bind, Runs-if, Runs-get_item}

-- The pair and the pointer to it have the admission `a`, and none of the other kind.
abbrev pub Admitted : Admission → PairPointer → Pair → Type 0
Admitted (by_locator v) q p =
    (q.locator ≡ v)
    × (p.locator ≡ v)
    × (is_empty q.join_token_hash ≡ true)
    × (is_empty p.join_token_hash ≡ true)
Admitted (by_token v) q p =
    (q.join_token_hash ≡ v)
    × (p.join_token_hash ≡ v)
    × (is_empty q.locator ≡ true)
    × (is_empty p.locator ≡ true)

carries-Admitted :
    (a : Admission) (q : PairPointer) (p : Pair) → carries a q p ≡ true → Admitted a q p
carries-Admitted (by_locator v) q p h = (
  (eq_iff q.locator v).0 (ground (arith, h)),
  (eq_iff p.locator v).0 (ground (arith, h)),
  ground (arith, h),
  ground (arith, h),
)
carries-Admitted (by_token v) q p h = (
  (eq_iff q.join_token_hash v).0 (ground (arith, h)),
  (eq_iff p.join_token_hash v).0 (ground (arith, h)),
  ground (arith, h),
  ground (arith, h),
)

-- The item of the pointer for an admission was read, with this result.
abbrev pub ReadsPointer : Answers → Admission → Option PairPointer → Type 0
ReadsPointer world (by_locator v) o = world.reads locator_kind v o
ReadsPointer world (by_token v) o = world.reads join_kind v o

module _ (world : Answers) where
  unexpired_pair-Read :
      (id : String) (now : ℕ) (o : Option Pair) (p : Pair)
      → Runs world (unexpired_pair id now o) p
      → (o ≡ some p) × (str_eq p.pair_id id ≡ true) × (now < p.expires_at)
  unfolding unexpired_pair
  unexpired_pair-Read id now none p h = absurd h
  unexpired_pair-Read id now (some q) p h =
      Runs-if world (leb q.expires_at now) _ _ p (λ e k. absurd k)
        (λ e.
          Runs-if world (not (str_eq q.pair_id id)) _ _ p (λ f k. absurd k)
            (λ f k.
              subst
                (λ (x : Pair).
                  (some q ≡ some x) × (str_eq x.pair_id id ≡ true) × (now < x.expires_at))
                k (refl, ground (arith, f), ground (arith, e))))
        h

  pub pair_by_id-Read :
      (id : String) (now : ℕ) (p : Pair)
      → Runs world (pair_by_id id now) p
      → world.reads pair_kind id (some p) × (str_eq p.pair_id id ≡ true) × (now < p.expires_at)
  unfolding pair_by_id
  pair_by_id-Read id now p h =
      let (o, x, y) = Runs-bind world (unexpired_pair id now) p (get_item pair_kind id) h in
      let (e, i, l) = unexpired_pair-Read id now o p y in
      (subst (world.reads pair_kind id) e (Runs-get_item world pair_kind id o x), i, l)

  get_pointer-Read :
      (a : Admission) (o : Option PairPointer)
      → Runs world (get_pointer a) o
      → ReadsPointer world a o
  unfolding get_pointer
  get_pointer-Read (by_locator v) o h = Runs-get_item world locator_kind v o h
  get_pointer-Read (by_token v) o h = Runs-get_item world join_kind v o h

  -- The pointer `q` was read for the admission, and the pair `p` through it, both alive at `now`.
  abbrev pub Found : Admission → ℕ → Pair → PairPointer → Type 0
  Found a now p q =
      ReadsPointer world a (some q)
      × (now < q.expires_at)
      × world.reads pair_kind q.pair_id (some p)
      × (str_eq p.pair_id q.pair_id ≡ true)
      × (now < p.expires_at)
      × Admitted a q p

  pair_by_pointer-Found :
      (a : Admission) (now : ℕ) (o : Option PairPointer) (p : Pair)
      → ReadsPointer world a o
      → Runs world (pair_by_pointer a now o) p
      → (q : PairPointer) × Found a now p q
  unfolding pair_by_pointer
  pair_by_pointer-Found a now none p read h = absurd h
  pair_by_pointer-Found a now (some q) p read h =
      Runs-if world (leb q.expires_at now) _ _ p (λ e k. absurd k)
        (λ e k.
          let (x, y, z) = Runs-bind world _ p (pair_by_id q.pair_id now) k in
          let (r, i, l) = pair_by_id-Read q.pair_id now x y in
          Runs-if world (carries a q x) _ _ p
            (λ f m.
              subst (λ (x : Pair). (q : PairPointer) × Found a now x q) m
                (q, (read, ground (arith, e), r, i, l, carries-Admitted a q x f)))
            (λ f m. absurd m) z)
        h

  -- A pair is found by a locator or by the hash of a join token only if the item of that locator or
  -- hash was read as a pointer that is not expired, and the pair was read at the id that this
  -- pointer names and is not expired. Both have the locator or the hash that was asked for, and
  -- neither has an admission of the other kind.
  pub pair_by_admission-Admitted :
      (a : Admission) (now : ℕ) (p : Pair)
      → Runs world (pair_by_admission a now) p
      → (q : PairPointer) × Found a now p q
  unfolding pair_by_admission
  pair_by_admission-Admitted a now p h =
      let (o, x, y) = Runs-bind world (pair_by_pointer a now) p (get_pointer a) h in
      pair_by_pointer-Found a now o p (get_pointer-Read a o x) y
