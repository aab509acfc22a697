-- ===== src/Relay/Store/Commits.antt =====
-- services/rendezvous-relay/internal/relay/store.go: `CommitPair`.
pub mod Soundness
use remote_davinci.Base.{
  ℕ, String, Bool, true, false, not, ◌&&◌, ◌||◌, Option, none, some, List, [], ◌∷◌, str_eq,
  is_empty, is_none, holds, leb, if◌then◌else◌,
}
use remote_davinci.Protocol.{
  ErrorCode, invalid_message, forbidden, pair_unavailable, pair_full, pair_expired, rate_limited,
  conflict,
}
use remote_davinci.Relay.Model.{
  Endpoint, PairSide, PairCommit, opened, ready, half_committed, activated, pair_closed, Pair, Link,
  CommitPairResult, same_commit, link_from_commits,
}
use remote_davinci.Relay.Failure.{
  Failure, Result, ok, err, service, as_service, service_error, retryable_error,
  conditional_failure, transaction_conditional_failure_at,
}
use remote_davinci.Relay.Table.{Write, PairPointer, pair_kind, locator_kind, join_kind, link_kind}
use remote_davinci.Relay.Effect.{
  Prog, pure, fail, attempt, ◌>>=◌, get_item, update_item, transact_items,
}
use remote_davinci.Relay.Store.Writes.{
  status_eq, is_member, put_if_absent, connection_set_pairing, endpoint_write, Admission,
  by_locator, by_token, Slot, slot_a, slot_b, own_commit, other_commit, with_commit, pair_join,
  pair_commit, pair_cancel,
}
use remote_davinci.Relay.Store.Sessions.{retrying}
use remote_davinci.Relay.Store.Rates.{
  hourly_rate_window_seconds, daily_rate_window_seconds, pair_activations_per_day,
  rate_limit_update, retry_after,
}
use remote_davinci.Relay.Store.Pairs.{pair_by_id}

-- The side of the pair that the commit comes from.
unfoldable pub slot_of : Pair → PairCommit → Option Slot
slot_of p c =
    if str_eq p.side_a.side_id c.side_id && str_eq p.side_a.connection_id c.connection_id
    then some slot_a
    else if holds
        (λ (s : PairSide). str_eq s.side_id c.side_id && str_eq s.connection_id c.connection_id)
        p.side_b
    then some slot_b
    else none

abbrev pub result_of : Pair → Option Link → Bool → CommitPairResult
result_of p link activated_now = record { pair = p; link = link; activated_now = activated_now }

-- The slot is taken: the same commit again, or another.
unfoldable pub commit_again : Pair → PairCommit → PairCommit → Prog CommitPairResult
commit_again p own c =
    if not (same_commit own c)
    then fail (service_error conflict)
    else if status_eq p.status activated
    then (do link ← get_item link_kind c.link_id; pure (result_of p link false))
    else pure (result_of p none false)

-- The first commit of the two.
unfoldable pub commit_half : Pair → Slot → PairCommit → ℕ → Prog CommitPairResult
commit_half p slot c now = do
  answer ← update_item (pair_commit p.pair_id slot c ready half_committed now)
  retrying (fail (retryable_error conflict))
      (λ done.
        pure (result_of (record (with_commit slot c p) { status = half_committed }) none false))
      answer

abbrev pub endpoint_from : PairCommit → ℕ → Endpoint
endpoint_from c now = record {
  endpoint_id = c.self.endpoint_id;
  credential_hash = c.self.credential_hash;
  role = c.self.role;
  connection_id = "";
  active_session_id = "";
  revoked_at = 0;
  created_at = now;
  updated_at = now;
}

unfoldable pub activation_writes :
    ℕ → Pair → Slot → PairCommit → PairCommit → PairCommit → Link → String → ℕ → List Write
activation_writes limit p slot c first second link source_key now =
    pair_commit p.pair_id slot c half_committed activated now
    ∷ put_if_absent link_kind link.link_id link
    ∷ endpoint_write (endpoint_from first now)
    ∷ endpoint_write (endpoint_from second now)
    ∷ rate_limit_update source_key "pair.activate" limit hourly_rate_window_seconds now
    ∷ rate_limit_update "global" "pair.activate" pair_activations_per_day daily_rate_window_seconds
        now
    ∷ []

unfoldable pub quota_error : ℕ → Failure
quota_error after =
    service (record { code = rate_limited; retryable = false; retry_after_ms = some after })

-- The rate updates are the writes 4 and 5 of the transaction.
unfoldable pub activation_answer :
    Pair → Slot → PairCommit → Link → ℕ → Result (Unit {0}) → Prog CommitPairResult
activation_answer p slot c link now (ok done) =
    pure (result_of (record (with_commit slot c p) { status = activated }) (some link) true)
activation_answer p slot c link now (err e) =
    if transaction_conditional_failure_at e 4
    then fail (quota_error (retry_after hourly_rate_window_seconds now))
    else if transaction_conditional_failure_at e 5
    then fail (quota_error (retry_after daily_rate_window_seconds now))
    else if conditional_failure e
    then fail (retryable_error conflict)
    else fail e

unfoldable pub activate :
    ℕ
    → Pair
    → Slot
    → PairCommit
    → PairCommit
    → PairCommit
    → Option Link
    → String
    → ℕ
    → Prog CommitPairResult
activate limit p slot c first second none source_key now = fail (service_error conflict)
activate limit p slot c first second (some link) source_key now =
    if is_empty source_key then fail Failure.other else do
      answer ← transact_items (activation_writes limit p slot c first second link source_key now)
      activation_answer p slot c link now answer

-- The second commit: side A's comes first.
unfoldable pub commit_second :
    ℕ → Pair → Slot → PairCommit → PairCommit → String → ℕ → Prog CommitPairResult
commit_second limit p slot_a c other source_key now =
    activate limit p slot_a c c other (link_from_commits c other now) source_key now
commit_second limit p slot_b c other source_key now =
    activate limit p slot_b c other c (link_from_commits other c now) source_key now

unfoldable pub commit_other :
    ℕ → Pair → Slot → PairCommit → Option PairCommit → String → ℕ → Prog CommitPairResult
commit_other limit p slot c none source_key now = commit_half p slot c now
commit_other limit p slot c (some other) source_key now =
    commit_second limit p slot c other source_key now

unfoldable pub commit_own :
    ℕ → Pair → Slot → PairCommit → Option PairCommit → String → ℕ → Prog CommitPairResult
commit_own limit p slot c (some own) source_key now = commit_again p own c
commit_own limit p slot c none source_key now =
    if not (status_eq p.status ready) && not (status_eq p.status half_committed)
    then fail (service_error pair_unavailable)
    else commit_other limit p slot c (other_commit slot p) source_key now

unfoldable pub commit_slot :
    ℕ → Pair → Option Slot → PairCommit → String → ℕ → Prog CommitPairResult
commit_slot limit p none c source_key now = fail (service_error forbidden)
commit_slot limit p (some slot) c source_key now =
    commit_own limit p slot c (own_commit slot p) source_key now

-- `CommitPair` of a store with the limit `pairActivationsPerSourceHour`
unfoldable pub commit_pair : ℕ → String → PairCommit → String → ℕ → Prog CommitPairResult
commit_pair limit pair_id c source_key now = do
  p ← pair_by_id pair_id now
  commit_slot limit p (slot_of p c) c source_key now
