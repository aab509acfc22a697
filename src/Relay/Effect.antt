-- ===== src/Relay/Effect.antt =====
-- A run of the relay's code as the calls that it makes, each with what the code does next for every
-- answer: to the database (`GetItem`, `UpdateItem`, `TransactWriteItems`), to the gateway (`post`,
-- `drop`), and to the clock and the random sources that `HandlerDependencies` brings.
use remote_davinci.Base.{ℕ, String, Option, List}
use remote_davinci.Relay.Failure.{Failure, Result, ok, err}
use remote_davinci.Relay.Message.{Message}
use remote_davinci.Relay.Table.{Kind, Row, Write}

pub data Prog (A : Type 0) : Type 0 where
  pure : A → Prog A
  fail : Failure → Prog A
  get : (k : Kind) → String → (Result (Option (Row k)) → Prog A) → Prog A
  update : Write → (Result (Unit {0}) → Prog A) → Prog A
  transact : List Write → (Result (Unit {0}) → Prog A) → Prog A
  post : String → Message → (Result (Unit {0}) → Prog A) → Prog A
  drop : String → (Result (Unit {0}) → Prog A) → Prog A
  now : (ℕ → Prog A) → Prog A
  fresh_id : (String → Prog A) → Prog A
  fresh_locator : (String → Prog A) → Prog A

infixl 5 ◌>>=◌ ◌>>◌
unfoldable pub ◌>>=◌ : {A B : Type 0} → Prog A → (A → Prog B) → Prog B
pure a >>= f = f a
fail e >>= f = fail e
get k id c >>= f = get k id (λ r. c r >>= f)
update w c >>= f = update w (λ r. c r >>= f)
transact ws c >>= f = transact ws (λ r. c r >>= f)
post id m c >>= f = post id m (λ r. c r >>= f)
drop id c >>= f = drop id (λ r. c r >>= f)
now c >>= f = now (λ t. c t >>= f)
fresh_id c >>= f = fresh_id (λ s. c s >>= f)
fresh_locator c >>= f = fresh_locator (λ s. c s >>= f)

abbrev pub ◌>>◌ : {B : Type 0} → Prog (Unit {0}) → Prog B → Prog B
m >> n = m >>= λ _. n

-- A call whose error the caller looks at: `result, err := m`.
unfoldable pub attempt : {A : Type 0} → Prog A → Prog (Result A)
attempt (pure a) = pure (ok a)
attempt (fail e) = pure (err e)
attempt (get k id c) = get k id (λ r. attempt (c r))
attempt (update w c) = update w (λ r. attempt (c r))
attempt (transact ws c) = transact ws (λ r. attempt (c r))
attempt (post id m c) = post id m (λ r. attempt (c r))
attempt (drop id c) = drop id (λ r. attempt (c r))
attempt (now c) = now (λ t. attempt (c t))
attempt (fresh_id c) = fresh_id (λ s. attempt (c s))
attempt (fresh_locator c) = fresh_locator (λ s. attempt (c s))

abbrev pub settle : {A : Type 0} → Result A → Prog A
settle (ok a) = pure a
settle (err e) = fail e

-- store.go: `get`, a consistent read of one item. A failed decoding is an `err` answer.
unfoldable pub get_item : (k : Kind) → String → Prog (Option (Row k))
get_item k id = get k id settle

-- The answer of the database is handed to the caller.
unfoldable pub update_item : Write → Prog (Result (Unit {0}))
update_item w = update w pure

unfoldable pub transact_items : List Write → Prog (Result (Unit {0}))
transact_items ws = transact ws pure

unfoldable pub time : Prog ℕ
time = now pure

unfoldable pub new_id : Prog String
new_id = fresh_id pure

unfoldable pub new_locator : Prog String
new_locator = fresh_locator pure
