-- ===== src/Relay/Safety/PairWrites.antt =====
-- The writes of services/rendezvous-relay/internal/relay/store.go that change a pair, by `RowOk` and
-- `RowStep`.
use remote_davinci.Base.{ℕ, String, ◌≡◌, refl, true, not, none, some, arith}
use remote_davinci.Relay.Model.{
  PairSide, PairCommit, ready, half_committed, activated, pair_closed, Pair,
}
use remote_davinci.Relay.Store.Writes.{
  Admission, Slot, slot_a, slot_b, status_eq, pair_join, pair_commit, pair_cancel,
  pair_close_member,
}
use remote_davinci.Relay.Safety.Rows.{PairStep, Kept-refl}
use remote_davinci.Relay.Safety.Writes.{SoundWrite, and_left}

pub pair_join-SoundWrite :
    (id : String) (side : PairSide) (admission : Admission) (now : ℕ)
    → SoundWrite (pair_join id side admission now)
unfolding pair_join
pair_join-SoundWrite id side admission now none w c = (tt, tt)
pair_join-SoundWrite id side admission now (some x) w c = (ground arith, ground arith)

-- Closing a pair that is not active.
closing-PairStep :
    (p : Pair)
    → not (status_eq p.status activated) ≡ true
    → PairStep p (record p { status = pair_closed })
closing-PairStep p h = record {
  same_id = refl;
  same_locator = refl;
  same_token = refl;
  same_creator = refl;
  same_expiry = refl;
  joiner_kept = Kept-refl p.side_b;
  commit_a_kept = Kept-refl p.commit_a;
  commit_b_kept = Kept-refl p.commit_b;
  advances = ground arith;
}

pub pair_cancel-SoundWrite : (id : String) → SoundWrite (pair_cancel id)
unfolding pair_cancel
pair_cancel-SoundWrite id none w c = (refl, tt)
pair_cancel-SoundWrite id (some x) w c = (refl, closing-PairStep x c)

pub pair_close_member-SoundWrite :
    (id connection_id : String) → SoundWrite (pair_close_member id connection_id)
unfolding pair_close_member
pair_close_member-SoundWrite id connection_id none w c = (tt, tt)
pair_close_member-SoundWrite id connection_id (some x) w c =
    (refl, closing-PairStep x (and_left _ _ c))

pub pair_half-SoundWrite :
    (id : String) (slot : Slot) (commit : PairCommit) (now : ℕ)
    → SoundWrite (pair_commit id slot commit ready half_committed now)
unfolding pair_commit
pair_half-SoundWrite id slot commit now none w c = (tt, tt)
pair_half-SoundWrite id slot_a commit now (some x) w c = (ground arith, ground arith)
pair_half-SoundWrite id slot_b commit now (some x) w c = (ground arith, ground arith)

pub pair_activate-SoundWrite :
    (id : String) (slot : Slot) (commit : PairCommit) (now : ℕ)
    → SoundWrite (pair_commit id slot commit half_committed activated now)
unfolding pair_commit
pair_activate-SoundWrite id slot commit now none w c = (tt, tt)
pair_activate-SoundWrite id slot_a commit now (some x) w c = (ground arith, ground arith)
pair_activate-SoundWrite id slot_b commit now (some x) w c = (ground arith, ground arith)
