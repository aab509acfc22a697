-- ===== src/Relay/Rules/Returns.antt =====
-- What a run of the code of services/rendezvous-relay/internal/relay may return, for some answers
-- to its calls.
use remote_davinci.Base.{ℕ, String, Option, ◌≡◌, refl, Bool, true, false, if◌then◌else◌}
use remote_davinci.Relay.Failure.{Result}
use remote_davinci.Relay.Table.{Row}
use remote_davinci.Relay.Effect.{
  Prog, pure, fail, get, update, transact, post, drop, now, fresh_id, fresh_locator, ◌>>=◌,
}

abbrev pub Returns : {A : Type 0} → Prog A → A → Type 0
Returns (pure a) b = a ≡ b
Returns (fail e) b = ⊥
Returns (get k id c) b = (r : Result (Option (Row k))) × Returns (c r) b
Returns (update w c) b = (r : Result (Unit {0})) × Returns (c r) b
Returns (transact ws c) b = (r : Result (Unit {0})) × Returns (c r) b
Returns (post id m c) b = (r : Result (Unit {0})) × Returns (c r) b
Returns (drop id c) b = (r : Result (Unit {0})) × Returns (c r) b
Returns (now c) b = (t : ℕ) × Returns (c t) b
Returns (fresh_id c) b = (s : String) × Returns (c s) b
Returns (fresh_locator c) b = (s : String) × Returns (c s) b

module _ {A B : Type 0} (f : A → Prog B) (b : B) where
  abbrev pub Through : Prog A → Type 0
  Through m = (a : A) × Returns m a × Returns (f a) b

  -- A run of a sequence is a run of its first part and a run of the rest.
  pub Returns-bind : (m : Prog A) → Returns (m >>= f) b → Through m
  unfolding ◌>>=◌
  Returns-bind (pure a) h = (a, refl, h)
  Returns-bind (fail e) h = absurd h
  Returns-bind (get k id c) (r, h) = let (a, x, y) = Returns-bind (c r) h in (a, (r, x), y)
  Returns-bind (update w c) (r, h) = let (a, x, y) = Returns-bind (c r) h in (a, (r, x), y)
  Returns-bind (transact ws c) (r, h) = let (a, x, y) = Returns-bind (c r) h in (a, (r, x), y)
  Returns-bind (post id m c) (r, h) = let (a, x, y) = Returns-bind (c r) h in (a, (r, x), y)
  Returns-bind (drop id c) (r, h) = let (a, x, y) = Returns-bind (c r) h in (a, (r, x), y)
  Returns-bind (now c) (t, h) = let (a, x, y) = Returns-bind (c t) h in (a, (t, x), y)
  Returns-bind (fresh_id c) (s, h) = let (a, x, y) = Returns-bind (c s) h in (a, (s, x), y)
  Returns-bind (fresh_locator c) (s, h) = let (a, x, y) = Returns-bind (c s) h in (a, (s, x), y)

-- A run under a test takes one of the two branches.
pub Returns-if :
    {A : Type 0} {P : Type 0} (b : Bool) (m n : Prog A) (a : A)
    → (b ≡ true → Returns m a → P)
    → (b ≡ false → Returns n a → P)
    → Returns (if b then m else n) a
    → P
Returns-if true m n a f g h = f refl h
Returns-if false m n a f g h = g refl h
