-- ===== src/Relay/Store/Commits/Soundness.antt =====
-- `CommitPair` (services/rendezvous-relay/internal/relay/store.go), and the soundness of the
-- requests.
use remote_davinci.Base.{ℕ, inl, inr, Bool-cases, String, refl, Option, none, some}
use remote_davinci.Relay.Model.{PairCommit, Pair, Link, link_from_commits, reciprocal_commits}
use remote_davinci.Relay.Failure.{Result, ok, err}
use remote_davinci.Relay.Table.{link_kind}
use remote_davinci.Relay.Store.Writes.{Slot, slot_a, slot_b, own_commit, other_commit}
use remote_davinci.Relay.Store.Rates.Soundness.{rate_limit_update-SoundWrite}
use remote_davinci.Relay.Safety.Rows.{LinkOk}
use remote_davinci.Relay.Safety.Writes.{put_if_absent-SoundWrite, endpoint_write-SoundWrite}
use remote_davinci.Relay.Safety.PairWrites.{pair_half-SoundWrite, pair_activate-SoundWrite}
use remote_davinci.Relay.Safety.Calls.{
  SoundWrites, sound_rules, Sound, Sound-pure, Sound-fail, Sound-if, Sound-bind,
  Sound-transact_items,
}
use remote_davinci.Relay.Store.Commits.{
  slot_of, commit_again, commit_half, activation_writes, activation_answer, activate, commit_second,
  commit_other, commit_own, commit_slot, commit_pair,
}
use remote_davinci.Relay.Store.Pairs.Soundness.{pair_by_id-Sound}

commit_again-Sound : (p : Pair) (own c : PairCommit) → Sound (commit_again p own c)
unfolding commit_again
commit_again-Sound p own c = search sound_rules

commit_half-Sound :
    (p : Pair) (slot : Slot) (c : PairCommit) (now : ℕ) → Sound (commit_half p slot c now)
unfolding commit_half
commit_half-Sound p slot c now = search (sound_rules, pair_half-SoundWrite) depth 8

activation_writes-Sound :
    (limit : ℕ) (p : Pair) (slot : Slot) (c first second : PairCommit) (l : Link)
    (source_key : String) (now : ℕ)
    → LinkOk l
    → SoundWrites (activation_writes limit p slot c first second l source_key now)
unfolding activation_writes
activation_writes-Sound limit p slot c first second l source_key now h =
    search
      (
        sound_rules,
        pair_activate-SoundWrite,
        put_if_absent-SoundWrite link_kind l.link_id l h,
        endpoint_write-SoundWrite,
        rate_limit_update-SoundWrite,
      )
      depth 9

activation_answer-Sound :
    (p : Pair) (slot : Slot) (c : PairCommit) (l : Link) (now : ℕ) (r : Result (Unit {0}))
    → Sound (activation_answer p slot c l now r)
unfolding activation_answer
activation_answer-Sound p slot c l now (ok done) = Sound-pure _
activation_answer-Sound p slot c l now (err e) = search sound_rules

abbrev SoundLink : Option Link → Type 0
SoundLink none = Unit
SoundLink (some l) = LinkOk l

link_from_commits-SoundLink : (a b : PairCommit) (now : ℕ) → SoundLink (link_from_commits a b now)
unfolding link_from_commits
link_from_commits-SoundLink a b now = elim (Bool-cases (reciprocal_commits a b)) [
  | inl e ↦ rw e (record { unlocked = λ h. refl; unrevoked = λ h. refl })
  | inr e ↦ rw e tt
]

activate-Sound :
    (limit : ℕ) (p : Pair) (slot : Slot) (c first second : PairCommit) (l : Option Link)
    (source_key : String) (now : ℕ)
    → SoundLink l
    → Sound (activate limit p slot c first second l source_key now)
unfolding activate
activate-Sound limit p slot c first second none source_key now h = Sound-fail _
activate-Sound limit p slot c first second (some l) source_key now h =
    Sound-if _ _ _ (Sound-fail _) (
      Sound-bind _ _
        (Sound-transact_items _
          (activation_writes-Sound limit p slot c first second l source_key now h))
        λ r. activation_answer-Sound p slot c l now r)

commit_second-Sound :
    (limit : ℕ) (p : Pair) (slot : Slot) (c other : PairCommit) (source_key : String) (now : ℕ)
    → Sound (commit_second limit p slot c other source_key now)
unfolding commit_second
commit_second-Sound limit p slot_a c other source_key now =
    activate-Sound limit p slot_a c c other _ source_key now
      (link_from_commits-SoundLink c other now)
commit_second-Sound limit p slot_b c other source_key now =
    activate-Sound limit p slot_b c other c _ source_key now
      (link_from_commits-SoundLink other c now)

commit_other-Sound :
    (limit : ℕ) (p : Pair) (slot : Slot) (c : PairCommit) (o : Option PairCommit)
    (source_key : String) (now : ℕ)
    → Sound (commit_other limit p slot c o source_key now)
unfolding commit_other
commit_other-Sound limit p slot c none source_key now = commit_half-Sound p slot c now
commit_other-Sound limit p slot c (some o) source_key now =
    commit_second-Sound limit p slot c o source_key now

commit_own-Sound :
    (limit : ℕ) (p : Pair) (slot : Slot) (c : PairCommit) (o : Option PairCommit)
    (source_key : String) (now : ℕ)
    → Sound (commit_own limit p slot c o source_key now)
unfolding commit_own
commit_own-Sound limit p slot c (some own) source_key now = commit_again-Sound p own c
commit_own-Sound limit p slot c none source_key now =
    Sound-if _ _ _ (Sound-fail _)
      (commit_other-Sound limit p slot c (other_commit slot p) source_key now)

commit_slot-Sound :
    (limit : ℕ) (p : Pair) (slot : Option Slot) (c : PairCommit) (source_key : String) (now : ℕ)
    → Sound (commit_slot limit p slot c source_key now)
unfolding commit_slot
commit_slot-Sound limit p none c source_key now = Sound-fail _
commit_slot-Sound limit p (some slot) c source_key now =
    commit_own-Sound limit p slot c (own_commit slot p) source_key now

pub commit_pair-Sound :
    (limit : ℕ) (id : String) (c : PairCommit) (source_key : String) (now : ℕ)
    → Sound (commit_pair limit id c source_key now)
unfolding commit_pair
commit_pair-Sound limit id c source_key now =
    Sound-bind _ _ (pair_by_id-Sound id now)
      λ p. commit_slot-Sound limit p (slot_of p c) c source_key now
