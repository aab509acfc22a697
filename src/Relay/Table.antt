-- ===== src/Relay/Table.antt =====
-- The items of the relay's DynamoDB table, by the kind that their key begins with, and the requests
-- that services/rendezvous-relay/internal/relay/store.go sends. A condition expression is the test
-- and an update expression the change that it denotes on one item, which is `none` where the item
-- is missing. An attribute with the tag `omitempty` is absent exactly when its field is "" or 0.
use remote_davinci.Base.{
  ℕ, ◌≡◌, String, Bool, true, not, ◌&&◌, Option, List, Memᴰ, str_eq, is_empty,
}
use remote_davinci.Relay.Model.{Connection, Endpoint, Pair, Link, Session}

pub data Kind : Type 0 where
  connection_kind endpoint_kind pair_kind locator_kind join_kind : Kind
  link_kind session_kind rate_kind : Kind

-- store.go: pairPointer
pub record PairPointer : Type 0 where
  pub pair_id : String
  pub locator : String
  pub join_token_hash : String
  pub expires_at : ℕ

-- The item of `rateLimitUpdate`.
pub record Rate : Type 0 where
  pub count : ℕ
  pub expires_at : ℕ

abbrev pub Row : Kind → Type 0
Row connection_kind = Connection
Row endpoint_kind = Endpoint
Row pair_kind = Pair
Row locator_kind = PairPointer
Row join_kind = PairPointer
Row link_kind = Link
Row session_kind = Session
Row rate_kind = Rate

-- A put, update, delete or condition check of one item: its key, its condition and its effect.
pub data Write : Type 0 where
  write : (k : Kind) → String → (Option (Row k) → Bool) → (Option (Row k) → Option (Row k)) → Write

-- `attribute = :value` on a string: false where the attribute is absent.
abbrev pub has_value : String → String → Bool
has_value attribute value = not (is_empty attribute) && str_eq attribute value

abbrev pub Tables : Type 0
Tables = (k : Kind) → String → Option (Row k)

-- What a request may do to one item: nothing, or what one of its writes says under its condition.
pub data RowChange (ws : List Write) (k : Kind) (id : String) (old new : Option (Row k))
    : Type 0 where
  same : new ≡ old → RowChange ws k id old new
  written :
      (c : Option (Row k) → Bool) (e : Option (Row k) → Option (Row k))
      → Memᴰ (write k id c e) ws
      → c old ≡ true
      → new ≡ e old
      → RowChange ws k id old new

-- The database service. `Commits t ws t'` says that a request with the writes `ws` took the table
-- from `t` to `t'`. What is assumed is what its documentation says of conditional and
-- transactional writes: no two writes of a request have one key, and an item that changes does so
-- by the one write at its key, whose condition held.
pub record Database : Type 1 where
  pub Commits : Tables → List Write → Tables → Type 0
  pub conditional :
      (t t' : Tables) (ws : List Write)
      → Commits t ws t'
      → (k : Kind) (id : String) → RowChange ws k id (t k id) (t' k id)
