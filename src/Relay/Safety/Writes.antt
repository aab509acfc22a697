-- ===== src/Relay/Safety/Writes.antt =====
-- The writes of services/rendezvous-relay/internal/relay/store.go, each under its condition, by `RowOk`
-- and `RowStep`.
use remote_davinci.Base.{
  ℕ, String, ◌≡◌, refl, Bool, true, inl, inr, Bool-cases, ◌==◌, ◌&&◌, is_empty, if◌then◌else◌, true,
  Option, none, some, arith,
}
use remote_davinci.Relay.Model.{Endpoint}
use remote_davinci.Relay.Table.{Kind, Row, Write, write}
use remote_davinci.Relay.Store.Writes.{
  put_if_absent, connection_delete, connection_delete_existing, connection_set_pairing, as_read,
  endpoint_connect, endpoint_disconnect, endpoint_fence, endpoint_rotate, endpoint_revoke,
  endpoint_open, endpoint_release, endpoint_write, link_open, link_release, link_revoke,
  session_close, rate_hit, as_read,
}
use remote_davinci.Relay.Safety.Rows.{RowOk, RowStep}

pub and_left : (a b : Bool) → (a && b) ≡ true → a ≡ true
and_left a b h = ground arith

-- The first and the last of several tests.
and_first : (a b c d : Bool) → (a && b && c && d) ≡ true → a ≡ true
and_first a b c d h = ground arith

and_right : (a b : Bool) → (a && b) ≡ true → b ≡ true
and_right a b h = ground arith

abbrev pub SoundAt : (k : Kind) → Option (Row k) → Option (Row k) → Type 0
SoundAt k old new = RowOk k new × RowStep k old new

-- Wherever its condition holds, the write turns a well-formed item into a well-formed one by an
-- allowed step.
abbrev pub SoundWrite : Write → Type 0
SoundWrite (write k id c e) = (o : Option (Row k)) → RowOk k o → c o ≡ true → SoundAt k o (e o)

pub put_if_absent-SoundWrite :
    (k : Kind) (id : String) (row : Row k)
    → RowOk k (some row)
    → SoundWrite (put_if_absent k id row)
unfolding put_if_absent
put_if_absent-SoundWrite k id row h none w c = (h, tt)
put_if_absent-SoundWrite k id row h (some x) w c = absurd (cc c)

pub connection_delete-SoundWrite : (id : String) → SoundWrite (connection_delete id)
unfolding connection_delete
connection_delete-SoundWrite id none w c = (tt, tt)
connection_delete-SoundWrite id (some x) w c = (tt, tt)

pub connection_delete_existing-SoundWrite :
    (id : String) → SoundWrite (connection_delete_existing id)
unfolding connection_delete_existing
connection_delete_existing-SoundWrite id none w c = (tt, tt)
connection_delete_existing-SoundWrite id (some x) w c = (tt, tt)

pub connection_set_pairing-SoundWrite :
    (id pair_id : String) → SoundWrite (connection_set_pairing id pair_id)
unfolding connection_set_pairing
connection_set_pairing-SoundWrite id pair_id none w c = (tt, tt)
connection_set_pairing-SoundWrite id pair_id (some x) w c = (tt, ground arith)

-- The pointer is gone after the update, if the code has read it right.
released :
    (attribute old : String)
    → as_read attribute old ≡ true
    → is_empty (if is_empty old then attribute else "") ≡ true
released attribute old h = elim (Bool-cases (is_empty old)) [
  | inl e ↦ rw e (ground arith)
  | inr e ↦ rw e refl
]

pub endpoint_connect-SoundWrite :
    (id connection_id credential_hash old_connection old_session : String) (now : ℕ)
    → SoundWrite (endpoint_connect id connection_id credential_hash old_connection old_session now)
unfolding endpoint_connect
endpoint_connect-SoundWrite id connection_id hash old_connection old_session now none w c = (tt, tt)
endpoint_connect-SoundWrite id connection_id hash old_connection old_session now (some x) w c =
    let last = and_right _ (as_read x.active_session_id old_session) c in
    let first = and_first (x.revoked_at == 0) _ _ _ c in
    (
      record {
        connected = λ h. cc (released x.active_session_id old_session last, h);
        detached = λ h. absurd (ground (arith, first));
        idle = λ h. released x.active_session_id old_session last;
        disarmed = w.disarmed;
      },
      ground arith,
    )

pub endpoint_disconnect-SoundWrite :
    (id connection_id old_session : String)
    → SoundWrite (endpoint_disconnect id connection_id old_session)
unfolding endpoint_disconnect
endpoint_disconnect-SoundWrite id connection_id old_session none w c = (tt, tt)
endpoint_disconnect-SoundWrite id connection_id old_session (some x) w c =
    (ground arith, ground arith)

pub endpoint_fence-SoundWrite :
    (id connection_id : String) → SoundWrite (endpoint_fence id connection_id)
unfolding endpoint_fence
endpoint_fence-SoundWrite id connection_id none w c = (tt, tt)
endpoint_fence-SoundWrite id connection_id (some x) w c = (w, ground arith)

pub endpoint_rotate-SoundWrite :
    (id connection_id credential_hash : String) (now : ℕ)
    → SoundWrite (endpoint_rotate id connection_id credential_hash now)
unfolding endpoint_rotate
endpoint_rotate-SoundWrite id connection_id credential_hash now none w c = (tt, tt)
endpoint_rotate-SoundWrite id connection_id credential_hash now (some x) w c =
    (ground arith, ground arith)

pub endpoint_revoke-SoundWrite :
    (id connection_id old_session : String) (now : ℕ)
    → SoundWrite (endpoint_revoke id connection_id old_session now)
unfolding endpoint_revoke
endpoint_revoke-SoundWrite id connection_id old_session now none w c = (tt, tt)
endpoint_revoke-SoundWrite id connection_id old_session now (some x) w c =
    (ground arith, ground arith)

pub endpoint_open-SoundWrite :
    (id connection_id session_id : String) → SoundWrite (endpoint_open id connection_id session_id)
unfolding endpoint_open
endpoint_open-SoundWrite id connection_id session_id none w c = (tt, tt)
endpoint_open-SoundWrite id connection_id session_id (some x) w c = (ground arith, ground arith)

pub endpoint_release-SoundWrite :
    (id session_id connection_id : String)
    → SoundWrite (endpoint_release id session_id connection_id)
unfolding endpoint_release
endpoint_release-SoundWrite id session_id connection_id none w c = (tt, tt)
endpoint_release-SoundWrite id session_id connection_id (some x) w c = (ground arith, ground arith)

pub endpoint_write-SoundWrite : (e : Endpoint) → SoundWrite (endpoint_write e)
unfolding endpoint_write
endpoint_write-SoundWrite e none w c = (ground arith, tt)
endpoint_write-SoundWrite e (some x) w c = (ground arith, ground arith)

pub link_open-SoundWrite : (id session_id : String) → SoundWrite (link_open id session_id)
unfolding link_open
link_open-SoundWrite id session_id none w c = (tt, tt)
link_open-SoundWrite id session_id (some x) w c = (ground arith, ground arith)

pub link_release-SoundWrite : (id session_id : String) → SoundWrite (link_release id session_id)
unfolding link_release
link_release-SoundWrite id session_id none w c = (tt, tt)
link_release-SoundWrite id session_id (some x) w c = (ground arith, ground arith)

pub link_revoke-SoundWrite :
    (id old_session : String) (now : ℕ) → SoundWrite (link_revoke id old_session now)
unfolding link_revoke
link_revoke-SoundWrite id old_session now none w c = (tt, tt)
link_revoke-SoundWrite id old_session now (some x) w c = (ground arith, ground arith)

pub session_close-SoundWrite : (id : String) (now : ℕ) → SoundWrite (session_close id now)
unfolding session_close
session_close-SoundWrite id now none w c = (tt, tt)
session_close-SoundWrite id now (some x) w c = (ground arith, ground arith)

pub rate_hit-SoundWrite :
    (id : String) (limit expires_at : ℕ) → SoundWrite (rate_hit id limit expires_at)
unfolding rate_hit
rate_hit-SoundWrite id limit expires_at none w c = (tt, tt)
rate_hit-SoundWrite id limit expires_at (some x) w c = (tt, omega arith)
