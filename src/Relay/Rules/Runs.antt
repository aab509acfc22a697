-- ===== src/Relay/Rules/Runs.antt =====
-- What a run of the code of services/rendezvous-relay/internal/relay returns, with what its calls were
-- answered: the times of the clock, the items that were read, the requests that the database carried
-- out and the messages that the gateway took.
use remote_davinci.Base.{
  ap, ℕ, String, Option, ◌≡◌, refl, Bool, true, false, List, [], ◌∷◌, if◌then◌else◌, subst,
}
use remote_davinci.Relay.Failure.{Result, ok, err}
use remote_davinci.Relay.Message.{Message}
use remote_davinci.Relay.Table.{Kind, Row, Write}
use remote_davinci.Relay.Effect.{
  Prog, pure, fail, get, update, transact, post, drop, now, fresh_id, fresh_locator, ◌>>=◌,
  get_item, settle,
}

-- The world around a run: which answers happened. A read may happen at any time of the run.
pub record Answers : Type 1 where
  pub clock : ℕ → Type 0
  pub reads : (k : Kind) → String → Option (Row k) → Type 0
  pub carried_out : List Write → Type 0
  pub took : String → Message → Type 0

-- An answer without an error says `P` of its value.
abbrev pub Says : {A : Type 0} → (A → Type 0) → Result A → Type 0
Says P (ok a) = P a
Says P (err e) = Unit

module _ (world : Answers) where
  abbrev pub Runs : {A : Type 0} → Prog A → A → Type 0
  Runs (pure a) b = a ≡ b
  Runs (fail e) b = ⊥
  Runs (get k id c) b = (r : Result (Option (Row k))) × Says (world.reads k id) r × Runs (c r) b
  Runs (update w c) b =
      (r : Result (Unit {0})) × Says (λ done. world.carried_out (w ∷ [])) r × Runs (c r) b
  Runs (transact ws c) b =
      (r : Result (Unit {0})) × Says (λ done. world.carried_out ws) r × Runs (c r) b
  Runs (post id m c) b = (r : Result (Unit {0})) × Says (λ done. world.took id m) r × Runs (c r) b
  Runs (drop id c) b = (r : Result (Unit {0})) × Runs (c r) b
  Runs (now c) b = (t : ℕ) × world.clock t × Runs (c t) b
  Runs (fresh_id c) b = (s : String) × Runs (c s) b
  Runs (fresh_locator c) b = (s : String) × Runs (c s) b

  -- A run of a sequence is a run of its first part and a run of the rest.
  pub Runs-bind :
      {A B : Type 0} (f : A → Prog B) (b : B) (m : Prog A)
      → Runs (m >>= f) b
      → (a : A) × Runs m a × Runs (f a) b
  unfolding ◌>>=◌
  Runs-bind f b (pure a) h = (a, refl, h)
  Runs-bind f b (fail e) h = absurd h
  Runs-bind f b (get k id c) (r, s, h) = let (a, x, y) = Runs-bind f b (c r) h in (a, (r, s, x), y)
  Runs-bind f b (update w c) (r, s, h) = let (a, x, y) = Runs-bind f b (c r) h in (a, (r, s, x), y)
  Runs-bind f b (transact ws c) (r, s, h) =
      let (a, x, y) = Runs-bind f b (c r) h in (a, (r, s, x), y)
  Runs-bind f b (post id m c) (r, s, h) = let (a, x, y) = Runs-bind f b (c r) h in (a, (r, s, x), y)
  Runs-bind f b (drop id c) (r, h) = let (a, x, y) = Runs-bind f b (c r) h in (a, (r, x), y)
  Runs-bind f b (now c) (t, s, h) = let (a, x, y) = Runs-bind f b (c t) h in (a, (t, s, x), y)
  Runs-bind f b (fresh_id c) (s, h) = let (a, x, y) = Runs-bind f b (c s) h in (a, (s, x), y)
  Runs-bind f b (fresh_locator c) (s, h) = let (a, x, y) = Runs-bind f b (c s) h in (a, (s, x), y)

  -- A run under a test takes one of the two branches.
  pub Runs-if :
      {A : Type 0} {P : Type 0} (b : Bool) (m n : Prog A) (a : A)
      → (b ≡ true → Runs m a → P)
      → (b ≡ false → Runs n a → P)
      → Runs (if b then m else n) a
      → P
  Runs-if true m n a f g h = f refl h
  Runs-if false m n a f g h = g refl h

  pub Runs-settle : {A : Type 0} (r : Result A) (a : A) → Runs (settle r) a → r ≡ ok a
  Runs-settle (ok x) a h = ap ok h
  Runs-settle (err e) a h = absurd h

  -- What a read returns was read.
  pub Runs-get_item :
      (k : Kind) (id : String) (o : Option (Row k)) → Runs (get_item k id) o → world.reads k id o
  unfolding get_item
  Runs-get_item k id o (r, said, h) =
      subst (λ (x : Result (Option (Row k))). Says (world.reads k id) x) (Runs-settle r o h) said
