-- ===== src/Relay/Store/Pairs.antt =====
-- services/rendezvous-relay/internal/relay/store.go: pairs, but for `CommitPair`.
pub mod Soundness
use remote_davinci.Base.{
  ℕ, String, Bool, true, false, not, ◌&&◌, ◌||◌, Option, none, some, List, [], ◌∷◌, str_eq,
  is_empty, is_none, holds, leb, if◌then◌else◌,
}
use remote_davinci.Protocol.{
  ErrorCode, invalid_message, forbidden, pair_unavailable, pair_full, pair_expired, rate_limited,
  conflict,
}
use remote_davinci.Relay.Model.{
  Endpoint, PairSide, PairCommit, opened, ready, half_committed, activated, pair_closed, Pair, Link,
  CommitPairResult, same_commit, link_from_commits,
}
use remote_davinci.Relay.Failure.{
  Failure, Result, ok, err, service, as_service, service_error, retryable_error,
  conditional_failure, transaction_conditional_failure_at,
}
use remote_davinci.Relay.Table.{Write, PairPointer, pair_kind, locator_kind, join_kind, link_kind}
use remote_davinci.Relay.Effect.{
  Prog, pure, fail, attempt, ◌>>=◌, get_item, update_item, transact_items,
}
use remote_davinci.Relay.Store.Writes.{
  status_eq, is_member, put_if_absent, connection_set_pairing, endpoint_write, Admission,
  by_locator, by_token, Slot, slot_a, slot_b, own_commit, other_commit, with_commit, pair_join,
  pair_commit, pair_cancel,
}
use remote_davinci.Relay.Store.Sessions.{retrying}
use remote_davinci.Relay.Store.Rates.{
  hourly_rate_window_seconds, daily_rate_window_seconds, pair_activations_per_day,
  rate_limit_update, retry_after,
}

abbrev pub pointer_of : Pair → PairPointer
pointer_of p = record {
  pair_id = p.pair_id;
  locator = p.locator;
  join_token_hash = p.join_token_hash;
  expires_at = p.expires_at;
}

unfoldable pub pointer_write : Pair → Write
pointer_write p =
    if is_empty p.join_token_hash
    then put_if_absent locator_kind p.locator (pointer_of p)
    else put_if_absent join_kind p.join_token_hash (pointer_of p)

unfoldable pub create_writes : Pair → List Write
create_writes p =
    put_if_absent pair_kind p.pair_id p
    ∷ pointer_write p
    ∷ connection_set_pairing p.side_a.connection_id p.pair_id
    ∷ []

-- Both admissions are given, or neither.
abbrev pub same_presence : String → String → Bool
same_presence a b = if is_empty a then is_empty b else not (is_empty b)

-- `CreatePair`
unfoldable pub create_pair : Pair → Prog (Unit {0})
create_pair p =
    if same_presence p.locator p.join_token_hash then fail (service_error invalid_message) else do
      answer ← transact_items (create_writes p)
      retrying (fail (retryable_error conflict)) (λ done. pure tt) answer

unfoldable pub unexpired_pair : String → ℕ → Option Pair → Prog Pair
unexpired_pair pair_id now none = fail (service_error pair_expired)
unexpired_pair pair_id now (some p) =
    if leb p.expires_at now
    then fail (service_error pair_expired)
    else if not (str_eq p.pair_id pair_id)
    then fail (service_error pair_unavailable)
    else pure p

-- `PairByID`
unfoldable pub pair_by_id : String → ℕ → Prog Pair
pair_by_id pair_id now = do found ← get_item pair_kind pair_id; unexpired_pair pair_id now found

-- The pointer and the pair both carry the admission that was asked for, and no other.
abbrev pub carries : Admission → PairPointer → Pair → Bool
carries (by_locator v) q p =
    str_eq q.locator v
    && str_eq p.locator v
    && is_empty q.join_token_hash
    && is_empty p.join_token_hash
carries (by_token v) q p =
    str_eq q.join_token_hash v
    && str_eq p.join_token_hash v
    && is_empty q.locator
    && is_empty p.locator

unfoldable pub pair_by_pointer : Admission → ℕ → Option PairPointer → Prog Pair
pair_by_pointer admission now none = fail (service_error pair_expired)
pair_by_pointer admission now (some q) =
    if leb q.expires_at now then fail (service_error pair_expired) else do
      p ← pair_by_id q.pair_id now
      if carries admission q p then pure p else fail (service_error pair_unavailable)

unfoldable pub get_pointer : Admission → Prog (Option PairPointer)
get_pointer (by_locator v) = get_item locator_kind v
get_pointer (by_token v) = get_item join_kind v

-- `pairByAdmission`, and with it `PairByLocator` and `pairByJoinTokenHash`
unfoldable pub pair_by_admission : Admission → ℕ → Prog Pair
pair_by_admission admission now = do
  pointer ← get_pointer admission
  pair_by_pointer admission now pointer

unfoldable pub join_writes : Pair → PairSide → Admission → ℕ → List Write
join_writes p side admission now =
    pair_join p.pair_id side admission now
    ∷ connection_set_pairing side.connection_id p.pair_id
    ∷ []

-- `JoinPair`
unfoldable pub join_pair : String → String → PairSide → ℕ → Prog Pair
join_pair locator join_token_hash side now =
    if same_presence locator join_token_hash then fail (service_error invalid_message) else do
      let admission =
          if is_empty join_token_hash then by_locator locator else by_token join_token_hash
      p ← pair_by_admission admission now
      if not (status_eq p.status opened) || not (is_none p.side_b)
          then fail (service_error pair_full)
          else (do
            answer ← transact_items (join_writes p side admission now)
            retrying (fail (service_error pair_full))
                (λ done. pure (record p { side_b = some side; status = ready })) answer)

abbrev pub is_pair_expired : ErrorCode → Bool
is_pair_expired pair_expired = true
is_pair_expired _ = false

-- The pair is read again after a failed condition.
unfoldable pub cancel_lost : Result Pair → Prog (Option Pair)
cancel_lost (err e) = fail (service_error conflict)
cancel_lost (ok p) =
    if status_eq p.status pair_closed then pure (some p) else fail (service_error conflict)

unfoldable pub cancel_open : String → Pair → ℕ → Prog (Option Pair)
cancel_open pair_id p now = do
  answer ← update_item (pair_cancel p.pair_id)
  retrying (do current ← attempt (pair_by_id pair_id now); cancel_lost current)
      (λ done. pure (some (record p { status = pair_closed }))) answer

unfoldable pub cancel_found : String → String → ℕ → Result Pair → Prog (Option Pair)
cancel_found pair_id connection_id now (err e) =
    if holds (λ s. is_pair_expired s.code) (as_service e) then pure none else fail e
cancel_found pair_id connection_id now (ok p) =
    if not (is_member p connection_id)
    then fail (service_error forbidden)
    else if status_eq p.status activated
    then fail (service_error conflict)
    else if status_eq p.status pair_closed
    then pure (some p)
    else cancel_open pair_id p now

-- `CancelPair`
unfoldable pub cancel_pair : String → String → ℕ → Prog (Option Pair)
cancel_pair pair_id connection_id now = do
  found ← attempt (pair_by_id pair_id now)
  cancel_found pair_id connection_id now found
