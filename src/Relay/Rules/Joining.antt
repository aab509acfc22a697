-- ===== src/Relay/Rules/Joining.antt =====
-- `JoinPair` of services/rendezvous-relay/internal/relay/store.go: what it returns, and what it has done
-- then.
use remote_davinci.Base.{
  List, ℕ, String, ◌≡◌, refl, ◌||◌, not, some, none, true, [], ◌∷◌, is_empty, is_none,
  if◌then◌else◌, arith, Option,
}
use remote_davinci.Relay.Model.{
  Pair, PairSide, PairStatus, opened, ready, half_committed, activated, pair_closed,
}
use remote_davinci.Protocol.{pair_full}
use remote_davinci.Relay.Failure.{Failure, ok, err, conditional_failure, service_error}
use remote_davinci.Relay.Table.{PairPointer, Write}
use remote_davinci.Relay.Effect.{pure, fail, transact_items, ◌>>=◌}
use remote_davinci.Relay.Store.Writes.{
  Admission, by_locator, by_token, status_eq, pair_join, connection_set_pairing,
}
use remote_davinci.Relay.Store.Sessions.{retrying}
use remote_davinci.Relay.Store.Pairs.{same_presence, pair_by_admission, join_writes, join_pair}
use remote_davinci.Relay.Rules.Runs.{Answers, Runs, Runs-bind, Runs-if}
use remote_davinci.Relay.Rules.Admissions.{Found, pair_by_admission-Admitted}

-- How the joiner is admitted: by the token if there is one.
abbrev pub admission : String → String → Admission
admission locator hash = if is_empty hash then by_locator locator else by_token hash

status_eq-opened : (s : PairStatus) → status_eq s opened ≡ true → s ≡ opened
status_eq-opened opened h = refl
status_eq-opened ready h = absurd (cc h)
status_eq-opened half_committed h = absurd (cc h)
status_eq-opened activated h = absurd (cc h)
status_eq-opened pair_closed h = absurd (cc h)

none_of : (o : Option PairSide) → is_none o ≡ true → o ≡ none
none_of none h = refl
none_of (some s) h = absurd (cc h)

module _ (world : Answers) where
  -- A transaction whose errors all end the call was carried out if the call returns.
  transacted :
      {B : Type 0} (ws : List Write) (e : Failure) (b c : B)
      → Runs world (transact_items ws >>= retrying (fail e) (λ done. pure b)) c
      → world.carried_out ws × (b ≡ c)
  unfolding transact_items retrying ◌>>=◌
  transacted ws e b c (ok done, said, h) = (said, h)
  transacted ws e b c (err f, said, h) =
      Runs-if world (conditional_failure f) _ _ c (λ x k. absurd k) (λ x k. absurd k) h

  -- The pair `p` was found for the admission while it was open, and `side` was put into it and onto its
  -- connection in one request; `q` is the pair afterwards.
  abbrev pub Joined : Admission → PairSide → ℕ → Pair → Pair → Type 0
  Joined a side now q p =
      ((pointer : PairPointer) × Found world a now p pointer)
      × (p.status ≡ opened)
      × (p.side_b ≡ none)
      × world.carried_out (
          pair_join p.pair_id side a now ∷ connection_set_pairing side.connection_id p.pair_id ∷ [])
      × (record p { side_b = some side; status = ready } ≡ q)

  join_found :
      (a : Admission) (side : PairSide) (now : ℕ) (p q : Pair)
      → Runs world (pair_by_admission a now) p
      → Runs world
          (if not (status_eq p.status opened) || not (is_none p.side_b)
            then fail (service_error pair_full)
            else do
              answer ← transact_items (join_writes p side a now)
              retrying
                  (fail (service_error pair_full))
                  (λ done. pure (record p { side_b = some side; status = ready }))
                  answer)
          q
      → (p : Pair) × Joined a side now q p
  unfolding join_writes
  join_found a side now p q h k =
      Runs-if world (not (status_eq p.status opened) || not (is_none p.side_b)) _ _ q
        (λ x y. absurd y)
        (λ x y.
          let (done, e) = transacted (join_writes p side a now) _ _ q y in
          (
            p,
            (
              pair_by_admission-Admitted world a now p h,
              status_eq-opened p.status (ground (arith, x)),
              none_of p.side_b (ground (arith, x)),
              done,
              e,
            ),
          ))
        k

  -- `JoinPair` returns only after it has read, through a live pointer of the locator or token that was
  -- given, a live pair that was open and without a second side, and after the database has carried
  -- out the one request that puts the joiner into this pair, under the condition of `pair_join`, and
  -- the pair onto the joiner's connection. What it returns is the pair that it read, with the joiner
  -- as its second side and ready.
  pub join_pair-Joined :
      (locator hash : String) (side : PairSide) (now : ℕ) (q : Pair)
      → Runs world (join_pair locator hash side now) q
      → (p : Pair) × Joined (admission locator hash) side now q p
  unfolding join_pair
  join_pair-Joined locator hash side now q h =
      Runs-if world (same_presence locator hash) _ _ q (λ x k. absurd k)
        (λ x k.
          let (p, y, z) = Runs-bind world _ q (pair_by_admission (admission locator hash) now) k in
          join_found (admission locator hash) side now p q y z)
        h
