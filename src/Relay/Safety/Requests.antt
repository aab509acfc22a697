-- ===== src/Relay/Safety/Requests.antt =====
-- The requests that a run of the code of services/rendezvous-relay/internal/relay may send to the
-- database.
use remote_davinci.Base.{ℕ, String, Option, List, [], ◌∷◌}
use remote_davinci.Relay.Failure.{Result}
use remote_davinci.Relay.Message.{Message}
use remote_davinci.Relay.Table.{Kind, Row, Write}
use remote_davinci.Relay.Effect.{
  Prog, get, update, transact, post, drop, now, fresh_id, fresh_locator,
}
use remote_davinci.Relay.Safety.Calls.{SoundWrites, no_writes, more_writes, SoundCalls, Anything}

-- A run sends a request with these writes, after some answers to the calls before it.
pub data Sends {A : Type 0} : Prog A → List Write → Type 0 where
  sends_update : (w : Write) (c : Result (Unit {0}) → Prog A) → Sends (update w c) (w ∷ [])
  sends_transact : (ws : List Write) (c : Result (Unit {0}) → Prog A) → Sends (transact ws c) ws
  after_get :
      (k : Kind) (id : String) (c : Result (Option (Row k)) → Prog A) (r : Result (Option (Row k)))
      (ws : List Write)
      → Sends (c r) ws
      → Sends (get k id c) ws
  after_update :
      (w : Write) (c : Result (Unit {0}) → Prog A) (r : Result (Unit {0})) (ws : List Write)
      → Sends (c r) ws
      → Sends (update w c) ws
  after_transact :
      (xs : List Write) (c : Result (Unit {0}) → Prog A) (r : Result (Unit {0})) (ws : List Write)
      → Sends (c r) ws
      → Sends (transact xs c) ws
  after_post :
      (id : String) (m : Message) (c : Result (Unit {0}) → Prog A) (r : Result (Unit {0}))
      (ws : List Write)
      → Sends (c r) ws
      → Sends (post id m c) ws
  after_drop :
      (id : String) (c : Result (Unit {0}) → Prog A) (r : Result (Unit {0})) (ws : List Write)
      → Sends (c r) ws
      → Sends (drop id c) ws
  after_now : (c : ℕ → Prog A) (t : ℕ) (ws : List Write) → Sends (c t) ws → Sends (now c) ws
  after_fresh_id :
      (c : String → Prog A) (s : String) (ws : List Write) → Sends (c s) ws → Sends (fresh_id c) ws
  after_fresh_locator :
      (c : String → Prog A) (s : String) (ws : List Write)
      → Sends (c s) ws
      → Sends (fresh_locator c) ws

pub Sends-SoundWrites :
    {A : Type 0} (m : Prog A) (ws : List Write)
    → Sends m ws
    → SoundCalls Anything m
    → SoundWrites ws
Sends-SoundWrites _ _ (sends_update w c) h = more_writes h.0 no_writes
Sends-SoundWrites _ _ (sends_transact ws c) h = h.0
Sends-SoundWrites _ _ (after_get k id c r ws s) h = Sends-SoundWrites (c r) ws s (h r)
Sends-SoundWrites _ _ (after_update w c r ws s) h = Sends-SoundWrites (c r) ws s (h.1 r)
Sends-SoundWrites _ _ (after_transact xs c r ws s) h = Sends-SoundWrites (c r) ws s (h.1 r)
Sends-SoundWrites _ _ (after_post id m c r ws s) h = Sends-SoundWrites (c r) ws s (h r)
Sends-SoundWrites _ _ (after_drop id c r ws s) h = Sends-SoundWrites (c r) ws s (h r)
Sends-SoundWrites _ _ (after_now c t ws s) h = Sends-SoundWrites (c t) ws s (h t)
Sends-SoundWrites _ _ (after_fresh_id c x ws s) h = Sends-SoundWrites (c x) ws s (h x)
Sends-SoundWrites _ _ (after_fresh_locator c x ws s) h = Sends-SoundWrites (c x) ws s (h x)
