-- ===== src/Relay/Store/Pairs/Soundness.antt =====
-- Pairing (services/rendezvous-relay/internal/relay/store.go), and the soundness of the
-- requests.
use remote_davinci.Base.{ℕ, inl, inr, Bool-cases, String, Option, none, some, is_empty}
use remote_davinci.Relay.Model.{PairSide, Pair}
use remote_davinci.Relay.Failure.{Result, ok, err}
use remote_davinci.Relay.Table.{PairPointer, locator_kind, join_kind, pair_kind}
use remote_davinci.Relay.Store.Writes.{Admission, by_locator, by_token}
use remote_davinci.Relay.Safety.Rows.{PairOk}
use remote_davinci.Relay.Safety.Writes.{
  SoundWrite, put_if_absent-SoundWrite, connection_set_pairing-SoundWrite,
}
use remote_davinci.Relay.Safety.PairWrites.{pair_join-SoundWrite, pair_cancel-SoundWrite}
use remote_davinci.Relay.Safety.Calls.{
  sound_rules, Sound, Sound-fail, Sound-bind, Sound-get_item, Sound-attempt,
}
use remote_davinci.Relay.Store.Pairs.{
  pointer_of, pointer_write, create_writes, create_pair, unexpired_pair, pair_by_id,
  pair_by_pointer, get_pointer, pair_by_admission, join_writes, join_pair, cancel_lost, cancel_open,
  cancel_found, cancel_pair,
}

pointer_write-Sound : (p : Pair) → SoundWrite (pointer_write p)
unfolding pointer_write
pointer_write-Sound p = elim (Bool-cases (is_empty p.join_token_hash)) [
  | inl e ↦ rw e (put_if_absent-SoundWrite locator_kind p.locator (pointer_of p) tt)
  | inr e ↦ rw e (put_if_absent-SoundWrite join_kind p.join_token_hash (pointer_of p) tt)
]

pub create_pair-Sound : (p : Pair) → PairOk p → Sound (create_pair p)
unfolding create_pair create_writes
create_pair-Sound p h =
    search
      (
        sound_rules,
        put_if_absent-SoundWrite pair_kind p.pair_id p h,
        pointer_write-Sound,
        connection_set_pairing-SoundWrite,
      )
      depth 9

unexpired_pair-Sound : (id : String) (now : ℕ) (p : Option Pair) → Sound (unexpired_pair id now p)
unfolding unexpired_pair
unexpired_pair-Sound id now none = Sound-fail _
unexpired_pair-Sound id now (some p) = search sound_rules

pub pair_by_id-Sound : (id : String) (now : ℕ) → Sound (pair_by_id id now)
unfolding pair_by_id
pair_by_id-Sound id now =
    Sound-bind _ _ (Sound-get_item pair_kind id) λ p. unexpired_pair-Sound id now p

pair_by_pointer-Sound :
    (a : Admission) (now : ℕ) (q : Option PairPointer) → Sound (pair_by_pointer a now q)
unfolding pair_by_pointer
pair_by_pointer-Sound a now none = Sound-fail _
pair_by_pointer-Sound a now (some q) = search (sound_rules, pair_by_id-Sound) depth 8

get_pointer-Sound : (a : Admission) → Sound (get_pointer a)
unfolding get_pointer
get_pointer-Sound (by_locator v) = Sound-get_item locator_kind v
get_pointer-Sound (by_token v) = Sound-get_item join_kind v

pair_by_admission-Sound : (a : Admission) (now : ℕ) → Sound (pair_by_admission a now)
unfolding pair_by_admission
pair_by_admission-Sound a now =
    Sound-bind _ _ (get_pointer-Sound a) λ q. pair_by_pointer-Sound a now q

pub join_pair-Sound :
    (locator token : String) (side : PairSide) (now : ℕ) → Sound (join_pair locator token side now)
unfolding join_pair join_writes
join_pair-Sound locator token side now =
    search
      (
        sound_rules, pair_by_admission-Sound, pair_join-SoundWrite,
        connection_set_pairing-SoundWrite,
      )
      depth 9

cancel_lost-Sound : (r : Result Pair) → Sound (cancel_lost r)
unfolding cancel_lost
cancel_lost-Sound (err e) = Sound-fail _
cancel_lost-Sound (ok p) = search sound_rules

cancel_open-Sound : (id : String) (p : Pair) (now : ℕ) → Sound (cancel_open id p now)
unfolding cancel_open
cancel_open-Sound id p now =
    search (sound_rules, pair_by_id-Sound, cancel_lost-Sound, pair_cancel-SoundWrite) depth 8

cancel_found-Sound :
    (id connection_id : String) (now : ℕ) (r : Result Pair)
    → Sound (cancel_found id connection_id now r)
unfolding cancel_found
cancel_found-Sound id connection_id now (err e) = search sound_rules
cancel_found-Sound id connection_id now (ok p) = search (sound_rules, cancel_open-Sound) depth 8

pub cancel_pair-Sound :
    (id connection_id : String) (now : ℕ) → Sound (cancel_pair id connection_id now)
unfolding cancel_pair
cancel_pair-Sound id connection_id now =
    Sound-bind _ _ (Sound-attempt _ (pair_by_id-Sound id now))
      λ r. cancel_found-Sound id connection_id now r
