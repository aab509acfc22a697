-- ===== src/Tests/Rules.antt =====
-- The theorems on single operations of services/rendezvous-relay/internal/relay at concrete inputs.
use remote_davinci.Base.{
  ◌≡◌, ◌<◌, ◌≤◌, ◌+◌, ◌*◌, ◌/◌, refl, true, false, some, str_eq, is_empty, [], ◌∷◌,
}
use remote_davinci.Relay.Model.{
  Link, Session, session_active, reciprocal_commits, link_from_commits,
}
use remote_davinci.Relay.Failure.{
  Failure, ok, transaction_canceled, no_reason, condition_reason, conditional_failure,
  transaction_conditional_failure_at,
}
use remote_davinci.Relay.Effect.{get_item, ◌>>=◌}
use remote_davinci.Relay.Store.Writes.{is_active_session}
use remote_davinci.Relay.Store.Sessions.{check_endpoint, current_endpoint, found_session, session}
use remote_davinci.Relay.Store.Rates.{retry_after}
use remote_davinci.Relay.Rules.Returns.{Returns}
use remote_davinci.Relay.Rules.Reads.{current_endpoint-current, session-alive}
use remote_davinci.Relay.Rules.Agreement.{
  link_from_commits-agreement, link_from_commits_comm, FromController, SameParties, link_between,
}
use remote_davinci.Relay.Rules.Limits.{retry_after-minute}
use remote_davinci.Relay.Rules.Cancellation.{transaction_conditional_failure_at-conditional_failure}
use remote_davinci.Tests.Stage.{busy_phone, commit_a, commit_b, dead_session}

Returns-endpoint : Returns (current_endpoint "e1" "c5") busy_phone
unfolding current_endpoint check_endpoint get_item ◌>>=◌
Returns-endpoint = (ok (some busy_phone), refl)

current_endpoint-current_example :
    (busy_phone.revoked_at ≡ 0)
    × (str_eq busy_phone.connection_id "c5" ≡ true)
    × (is_empty "c5" ≡ false)
current_endpoint-current_example = current_endpoint-current "e1" "c5" busy_phone Returns-endpoint

abbrev live_session : Session
live_session = record dead_session { status = session_active; closed_at = 0 }

Returns-session : Returns (session "s1" 300) live_session
unfolding session found_session get_item ◌>>=◌
Returns-session = (ok (some live_session), refl)

session-alive_example :
    (is_active_session live_session.status ≡ true) × (300 < live_session.expires_at)
session-alive_example = session-alive "s1" 300 live_session Returns-session

abbrev new_link : Link
new_link = link_between commit_a commit_b "l1" 300

makes_link : link_from_commits commit_a commit_b 300 ≡ some new_link
unfolding link_from_commits reciprocal_commits
makes_link = refl

link_from_commits-agreement_example :
    (commit_a.link_id ≡ commit_b.link_id)
    × (commit_a.self.endpoint_id ≡ commit_b.peer.endpoint_id)
    × (commit_a.peer.endpoint_id ≡ commit_b.self.endpoint_id)
    × (str_eq "e1" "e2" ≡ false)
    × FromController commit_a commit_b new_link 300
link_from_commits-agreement_example =
    link_from_commits-agreement commit_a commit_b 300 new_link makes_link

link_from_commits_comm_example :
    (m : Link) × (link_from_commits commit_b commit_a 300 ≡ some m) × SameParties new_link m
link_from_commits_comm_example = link_from_commits_comm commit_a commit_b 300 new_link makes_link

retry_after-minute_example :
    (0 < retry_after 60 125)
    × (retry_after 60 125 ≤ 60000)
    × (125 * 1000 + retry_after 60 125 ≡ (125 / 60 + 1) * 60 * 1000)
retry_after-minute_example = retry_after-minute 125

abbrev cancelled : Failure
cancelled = transaction_canceled (no_reason ∷ condition_reason ∷ [])

condition_at_1 : transaction_conditional_failure_at cancelled 1 ≡ true
unfolding transaction_conditional_failure_at
condition_at_1 = refl

transaction_conditional_failure_at-conditional_failure_example :
    conditional_failure cancelled ≡ true
transaction_conditional_failure_at-conditional_failure_example =
    transaction_conditional_failure_at-conditional_failure cancelled 1 condition_at_1
