-- ===== src/Relay/Safety/Calls.antt =====
-- Soundness of a run of the code of services/rendezvous-relay/internal/relay: every request that it
-- sends to the database has sound writes only, whatever the answers to its calls were.
use remote_davinci.Base.{[], ◌∷◌, ◌++◌, ℕ, String, Bool, true, false, Option, List, if◌then◌else◌}
use remote_davinci.Relay.Failure.{Failure, Result, ok, err, conditional_failure}
use remote_davinci.Relay.Table.{Kind, Row, Write}
use remote_davinci.Relay.Effect.{
  Prog, pure, fail, get, update, transact, post, drop, now, fresh_id, fresh_locator, ◌>>=◌, attempt,
  settle, get_item, update_item, transact_items, time, new_id, new_locator,
}
use remote_davinci.Relay.Store.Sessions.{retrying}
use remote_davinci.Relay.Safety.Writes.{SoundWrite}

-- Every write of a request is sound.
pub data SoundWrites : List Write → Type 0 where
  no_writes : SoundWrites []
  more_writes : {w : Write} {ws : List Write} → SoundWrite w → SoundWrites ws → SoundWrites (w ∷ ws)

pub SoundWrites-append :
    (xs ys : List Write) → SoundWrites xs → SoundWrites ys → SoundWrites (xs ++ ys)
SoundWrites-append [] ys no_writes k = k
SoundWrites-append (x ∷ xs) ys (more_writes h hs) k = more_writes h (SoundWrites-append xs ys hs k)

pub SoundWrites-if :
    (b : Bool) (xs ys : List Write)
    → SoundWrites xs
    → SoundWrites ys
    → SoundWrites (if b then xs else ys)
SoundWrites-if true xs ys h k = h
SoundWrites-if false xs ys h k = k

-- The calls are sound, and what the run returns satisfies `Q`.
abbrev pub SoundCalls : {A : Type 0} → (A → Type 0) → Prog A → Type 0
SoundCalls Q (pure a) = Q a
SoundCalls Q (fail e) = Unit
SoundCalls Q (get k id c) = (r : Result (Option (Row k))) → SoundCalls Q (c r)
SoundCalls Q (update w c) = SoundWrite w × ((r : Result (Unit {0})) → SoundCalls Q (c r))
SoundCalls Q (transact ws c) = SoundWrites ws × ((r : Result (Unit {0})) → SoundCalls Q (c r))
SoundCalls Q (post id m c) = (r : Result (Unit {0})) → SoundCalls Q (c r)
SoundCalls Q (drop id c) = (r : Result (Unit {0})) → SoundCalls Q (c r)
SoundCalls Q (now c) = (t : ℕ) → SoundCalls Q (c t)
SoundCalls Q (fresh_id c) = (s : String) → SoundCalls Q (c s)
SoundCalls Q (fresh_locator c) = (s : String) → SoundCalls Q (c s)

abbrev pub Anything : {A : Type 0} → A → Type 0
Anything a = Unit

pub record Sound {A : Type 0} (m : Prog A) : Type 0 where
  pub at : SoundCalls Anything m

pub record Yields {A : Type 0} (Q : A → Type 0) (m : Prog A) : Type 0 where
  pub at : SoundCalls Q m

module _ {A B : Type 0} (Q : A → Type 0) (R : B → Type 0) (f : A → Prog B)
    (fs : (a : A) → Q a → SoundCalls R (f a)) where
  SoundCalls-bind : (m : Prog A) → SoundCalls Q m → SoundCalls R (m >>= f)
  unfolding ◌>>=◌
  SoundCalls-bind (pure a) h = fs a h
  SoundCalls-bind (fail e) h = tt
  SoundCalls-bind (get k id c) h = λ r. SoundCalls-bind (c r) (h r)
  SoundCalls-bind (update w c) h = (h.0, λ r. SoundCalls-bind (c r) (h.1 r))
  SoundCalls-bind (transact ws c) h = (h.0, λ r. SoundCalls-bind (c r) (h.1 r))
  SoundCalls-bind (post id m c) h = λ r. SoundCalls-bind (c r) (h r)
  SoundCalls-bind (drop id c) h = λ r. SoundCalls-bind (c r) (h r)
  SoundCalls-bind (now c) h = λ t. SoundCalls-bind (c t) (h t)
  SoundCalls-bind (fresh_id c) h = λ s. SoundCalls-bind (c s) (h s)
  SoundCalls-bind (fresh_locator c) h = λ s. SoundCalls-bind (c s) (h s)

SoundCalls-attempt :
    {A : Type 0} (m : Prog A) → SoundCalls Anything m → SoundCalls Anything (attempt m)
unfolding attempt
SoundCalls-attempt (pure a) h = tt
SoundCalls-attempt (fail e) h = tt
SoundCalls-attempt (get k id c) h = λ r. SoundCalls-attempt (c r) (h r)
SoundCalls-attempt (update w c) h = (h.0, λ r. SoundCalls-attempt (c r) (h.1 r))
SoundCalls-attempt (transact ws c) h = (h.0, λ r. SoundCalls-attempt (c r) (h.1 r))
SoundCalls-attempt (post id m c) h = λ r. SoundCalls-attempt (c r) (h r)
SoundCalls-attempt (drop id c) h = λ r. SoundCalls-attempt (c r) (h r)
SoundCalls-attempt (now c) h = λ t. SoundCalls-attempt (c t) (h t)
SoundCalls-attempt (fresh_id c) h = λ s. SoundCalls-attempt (c s) (h s)
SoundCalls-attempt (fresh_locator c) h = λ s. SoundCalls-attempt (c s) (h s)

pub Sound-pure : {A : Type 0} (a : A) → Sound (pure a)
Sound-pure a = record { at = tt }

pub Sound-fail : {A : Type 0} (e : Failure) → Sound {A = A} (fail e)
Sound-fail e = record { at = tt }

pub Sound-bind :
    {A B : Type 0} (m : Prog A) (f : A → Prog B)
    → Sound m
    → ((a : A) → Sound (f a))
    → Sound (m >>= f)
Sound-bind m f ms fs = record {
  at = SoundCalls-bind Anything Anything f (λ a _. (fs a).at) m ms.at;
}

-- The rest of the run may use what the first part returns.
pub Yields-bind :
    {A B : Type 0} {Q : A → Type 0} (m : Prog A) (f : A → Prog B)
    → Yields Q m
    → ((a : A) → Q a → Sound (f a))
    → Sound (m >>= f)
Yields-bind {Q} m f ms fs = record {
  at = SoundCalls-bind Q Anything f (λ a h. (fs a h).at) m ms.at;
}

pub Yields-then :
    {A B : Type 0} {R : B → Type 0} (m : Prog A) (f : A → Prog B)
    → Sound m
    → ((a : A) → Yields R (f a))
    → Yields R (m >>= f)
Yields-then {R} m f ms fs = record { at = SoundCalls-bind Anything R f (λ a _. (fs a).at) m ms.at }

pub Yields-pure : {A : Type 0} {Q : A → Type 0} (a : A) → Q a → Yields Q (pure a)
Yields-pure a h = record { at = h }

pub Yields-if :
    {A : Type 0} {Q : A → Type 0} (b : Bool) (m n : Prog A)
    → Yields Q m
    → Yields Q n
    → Yields Q (if b then m else n)
Yields-if true m n ms ns = ms
Yields-if false m n ms ns = ns

pub Sound-attempt : {A : Type 0} (m : Prog A) → Sound m → Sound (attempt m)
Sound-attempt m ms = record { at = SoundCalls-attempt m ms.at }

pub Sound-settle : {A : Type 0} (r : Result A) → Sound (settle r)
Sound-settle (ok a) = Sound-pure a
Sound-settle (err e) = Sound-fail e

pub Sound-if :
    {A : Type 0} (b : Bool) (m n : Prog A) → Sound m → Sound n → Sound (if b then m else n)
Sound-if true m n ms ns = ms
Sound-if false m n ms ns = ns

pub Sound-get_item : (k : Kind) (id : String) → Sound (get_item k id)
unfolding get_item
Sound-get_item k id = record { at = λ r. (Sound-settle r).at }

pub Sound-update_item : (w : Write) → SoundWrite w → Sound (update_item w)
unfolding update_item
Sound-update_item w h = record { at = (h, λ r. tt) }

pub Sound-transact_items : (ws : List Write) → SoundWrites ws → Sound (transact_items ws)
unfolding transact_items
Sound-transact_items ws h = record { at = (h, λ r. tt) }

pub Sound-retrying :
    {A B : Type 0} (again : Prog B) (done : A → Prog B) (r : Result A)
    → Sound again
    → ((a : A) → Sound (done a))
    → Sound (retrying again done r)
unfolding retrying
Sound-retrying again done (ok a) h k = k a
Sound-retrying again done (err e) h k = Sound-if (conditional_failure e) _ _ h (Sound-fail e)

pub Sound-time : Sound time
unfolding time
Sound-time = record { at = λ t. tt }

pub Sound-new_id : Sound new_id
unfolding new_id
Sound-new_id = record { at = λ t. tt }

pub Sound-new_locator : Sound new_locator
unfolding new_locator
Sound-new_locator = record { at = λ t. tt }

pub ruleset sound_rules = (
  no_writes, more_writes, SoundWrites-append, SoundWrites-if, Sound-pure, Sound-fail, Sound-bind,
  Sound-attempt, Sound-settle, Sound-if, Sound-get_item, Sound-update_item, Sound-transact_items,
  Sound-retrying, Sound-time, Sound-new_id, Sound-new_locator,
)
