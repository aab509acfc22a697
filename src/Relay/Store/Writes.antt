-- ===== src/Relay/Store/Writes.antt =====
-- The writes of services/rendezvous-relay/internal/relay/store.go, one for each condition and
-- update expression. Where a condition holds of an existing item only, the change of a missing
-- item is left at nothing.
use remote_davinci.Base.{
  ℕ, ◌+◌, String, Bool, true, false, not, ◌&&◌, ◌||◌, Option, none, some, str_eq, is_empty, is_none,
  holds, ltb, ◌==◌, if◌then◌else◌,
}
use remote_davinci.Protocol.{role_eq}
use remote_davinci.Relay.Model.{
  is_pairing, Endpoint, PairSide, PairCommit, PairStatus, opened, ready, half_committed, activated,
  pair_closed, Pair, LinkStatus, link_active, link_revoked, SessionStatus, session_active,
  session_closed, closed_session,
}
use remote_davinci.Relay.Table.{
  connection_kind, endpoint_kind, pair_kind, link_kind, session_kind, rate_kind, Kind, Row, Write,
  write, has_value,
}

abbrev pub on_item : {A : Type 0} → (A → A) → Option A → Option A
on_item f none = none
on_item f (some a) = some (f a)

abbrev pub status_eq : PairStatus → PairStatus → Bool
status_eq opened opened = true
status_eq ready ready = true
status_eq half_committed half_committed = true
status_eq activated activated = true
status_eq pair_closed pair_closed = true
status_eq _ _ = false

abbrev pub is_active_link : LinkStatus → Bool
is_active_link link_active = true
is_active_link link_revoked = false

abbrev pub is_active_session : SessionStatus → Bool
is_active_session session_active = true
is_active_session session_closed = false

-- `attribute_not_exists(a)` if the code has read no value, and `a = :value` if it has.
abbrev pub as_read : String → String → Bool
as_read attribute value = if is_empty value then is_empty attribute else has_value attribute value

-- `attribute_not_exists(pk)`
unfoldable pub put_if_absent : (k : Kind) → String → Row k → Write
put_if_absent k id row = write k id is_none (λ _. some row)

unfoldable pub connection_delete : String → Write
connection_delete id = write connection_kind id (λ _. true) (λ _. none)

unfoldable pub connection_delete_existing : String → Write
connection_delete_existing id = write connection_kind id (λ o. not (is_none o)) (λ _. none)

unfoldable pub connection_set_pairing : String → String → Write
connection_set_pairing id pair_id =
    write connection_kind id (holds (λ c. is_pairing c.auth_mode && is_empty c.pairing_id))
      (on_item (λ c. record c { pairing_id = pair_id }))

unfoldable pub endpoint_connect : String → String → String → String → String → ℕ → Write
endpoint_connect id connection_id credential_hash old_connection old_session now =
    write endpoint_kind id
      (holds (λ e.
        e.revoked_at == 0
        && has_value e.credential_hash credential_hash
        && as_read e.connection_id old_connection
        && as_read e.active_session_id old_session))
      (on_item (λ e. record e {
        connection_id = connection_id;
        updated_at = now;
        active_session_id = if is_empty old_session then e.active_session_id else "";
      }))

unfoldable pub endpoint_disconnect : String → String → String → Write
endpoint_disconnect id connection_id old_session =
    write endpoint_kind id
      (holds
        (λ e. has_value e.connection_id connection_id && as_read e.active_session_id old_session))
      (on_item (λ e. record e { connection_id = ""; active_session_id = "" }))

-- A condition check changes nothing.
unfoldable pub endpoint_fence : String → String → Write
endpoint_fence id connection_id =
    write endpoint_kind id
      (holds (λ e. has_value e.connection_id connection_id && e.revoked_at == 0)) (λ o. o)

unfoldable pub endpoint_rotate : String → String → String → ℕ → Write
endpoint_rotate id connection_id credential_hash now =
    write endpoint_kind id
      (holds (λ e. e.revoked_at == 0 && has_value e.connection_id connection_id))
      (on_item (λ e. record e { credential_hash = credential_hash; updated_at = now }))

unfoldable pub endpoint_revoke : String → String → String → ℕ → Write
endpoint_revoke id connection_id old_session now =
    write endpoint_kind id
      (holds (λ e.
        e.revoked_at == 0
        && has_value e.connection_id connection_id
        && as_read e.active_session_id old_session))
      (on_item (λ e. record e {
        revoked_at = now;
        updated_at = now;
        connection_id = "";
        active_session_id = "";
        credential_hash = "";
      }))

unfoldable pub endpoint_open : String → String → String → Write
endpoint_open id connection_id session_id =
    write endpoint_kind id
      (holds (λ e.
        has_value e.connection_id connection_id
        && is_empty e.active_session_id
        && e.revoked_at == 0))
      (on_item (λ e. record e { active_session_id = session_id }))

-- The pointer of an endpoint to a session goes, behind the fence if there is one.
unfoldable pub endpoint_release : String → String → String → Write
endpoint_release id session_id connection_id =
    write endpoint_kind id
      (holds (λ e.
        has_value e.active_session_id session_id
        && (is_empty connection_id
            || (has_value e.connection_id connection_id && e.revoked_at == 0))))
      (on_item (λ e. record e { active_session_id = "" }))

-- store.go: endpointWrite. `if_not_exists` keeps every attribute that the item has.
unfoldable pub endpoint_write : Endpoint → Write
endpoint_write new =
    write endpoint_kind new.endpoint_id
      (λ o. elim o [
        | none ↦ true
        | some e ↦
            has_value e.credential_hash new.credential_hash
            && role_eq e.role new.role
            && e.revoked_at == 0
      ])
      (λ o. elim o [
        | none ↦ some (record new { connection_id = ""; active_session_id = ""; revoked_at = 0 })
        | some e ↦ some (record e {
          credential_hash =
              if is_empty e.credential_hash then new.credential_hash else e.credential_hash;
        })
      ])

unfoldable pub link_open : String → String → Write
link_open id session_id =
    write link_kind id (holds (λ l. is_active_link l.status && is_empty l.active_session_id))
      (on_item (λ l. record l { active_session_id = session_id }))

unfoldable pub link_release : String → String → Write
link_release id session_id =
    write link_kind id (holds (λ l. has_value l.active_session_id session_id))
      (on_item (λ l. record l { active_session_id = "" }))

unfoldable pub link_revoke : String → String → ℕ → Write
link_revoke id old_session now =
    write link_kind id
      (holds (λ l. is_active_link l.status && as_read l.active_session_id old_session))
      (on_item (λ l. record l { status = link_revoked; revoked_at = now; active_session_id = "" }))

unfoldable pub session_close : String → ℕ → Write
session_close id now =
    write session_kind id (holds (λ s. is_active_session s.status))
      (on_item (λ s. closed_session s now))

-- The two ways to admit a joiner, by locator or by the hash of a join token.
pub data Admission : Type 0 where
  by_locator by_token : String → Admission

abbrev pub admits : Admission → Pair → Bool
admits (by_locator v) p = has_value p.locator v && is_empty p.join_token_hash
admits (by_token v) p = has_value p.join_token_hash v && is_empty p.locator

unfoldable pub pair_join : String → PairSide → Admission → ℕ → Write
pair_join id side admission now =
    write pair_kind id
      (holds (λ p.
        status_eq p.status opened
        && ltb now p.expires_at
        && is_none p.side_b
        && admits admission p))
      (on_item (λ p. record p { side_b = some side; status = ready }))

-- The side of a pair that a commit belongs to.
pub data Slot : Type 0 where
  slot_a slot_b : Slot

abbrev pub own_commit : Slot → Pair → Option PairCommit
own_commit slot_a p = p.commit_a
own_commit slot_b p = p.commit_b

abbrev pub other_commit : Slot → Pair → Option PairCommit
other_commit slot_a p = p.commit_b
other_commit slot_b p = p.commit_a

abbrev pub with_commit : Slot → PairCommit → Pair → Pair
with_commit slot_a c p = record p { commit_a = some c }
with_commit slot_b c p = record p { commit_b = some c }

-- `SET <own> = :commit, #status = :to` while the status is `:from` and the slot is free.
unfoldable pub pair_commit : String → Slot → PairCommit → PairStatus → PairStatus → ℕ → Write
pair_commit id slot commit from to now =
    write pair_kind id
      (holds (λ p. status_eq p.status from && ltb now p.expires_at && is_none (own_commit slot p)))
      (on_item (λ p. record (with_commit slot commit p) { status = to }))

-- What an update leaves of a pair that is not there: its key and the status that it sets.
abbrev pub blank_pair : Pair
blank_pair = record {
  pair_id = "";
  locator = "";
  join_token_hash = "";
  status = pair_closed;
  side_a = record { connection_id = ""; side_id = "" };
  side_b = none;
  commit_a = none;
  commit_b = none;
  expires_at = 0;
}

-- `#status <> :active` holds of a missing item too.
unfoldable pub pair_cancel : String → Write
pair_cancel id =
    write pair_kind id (λ o. elim o [ none ↦ true | some p ↦ not (status_eq p.status activated) ])
      (λ o. elim o [ none ↦ some blank_pair | some p ↦ some (record p { status = pair_closed }) ])

abbrev pub is_member : Pair → String → Bool
is_member p connection_id =
    str_eq p.side_a.connection_id connection_id
    || holds (λ (s : PairSide). str_eq s.connection_id connection_id) p.side_b

unfoldable pub pair_close_member : String → String → Write
pair_close_member id connection_id =
    write pair_kind id
      (holds (λ p. not (status_eq p.status activated) && is_member p connection_id))
      (on_item (λ p. record p { status = pair_closed }))

-- `SET expiresAt = :expiresAt ADD #count :one`
unfoldable pub rate_hit : String → ℕ → ℕ → Write
rate_hit id limit expires_at =
    write rate_kind id (λ o. elim o [ none ↦ true | some r ↦ ltb r.count limit ])
      (λ o. elim o [
        | none ↦ some (record { count = 1; expires_at = expires_at })
        | some r ↦ some (record { count = r.count + 1; expires_at = expires_at })
      ])
