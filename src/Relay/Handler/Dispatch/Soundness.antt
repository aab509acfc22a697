-- ===== src/Relay/Handler/Dispatch/Soundness.antt =====
-- The requests of pairings of services/rendezvous-relay/internal/relay/handler.go, and the
-- soundness of the requests.
use remote_davinci.Base.{ℕ, zero, suc, String, Bool, Option, none, some, refl}
use remote_davinci.Relay.Model.{Connection, Pair, PairSide, PairCommit, Link}
use remote_davinci.Relay.Failure.{Result, ok, err}
use remote_davinci.Relay.Message.{Reply}
use remote_davinci.Relay.Effect.{Prog}
use remote_davinci.Relay.Store.Rates.Soundness.{rate_limit-Sound}
use remote_davinci.Relay.Store.Commits.Soundness.{commit_pair-Sound}
use remote_davinci.Relay.Store.Pairs.Soundness.{
  create_pair-Sound, join_pair-Sound, cancel_pair-Sound,
}
use remote_davinci.Relay.Safety.Calls.{
  Sound, Sound-pure, Sound-fail, Sound-bind, Sound-if, Sound-attempt, Sound-settle, Sound-new_id,
  Sound-new_locator,
}
use remote_davinci.Relay.Handler.Event.{Wire}
use remote_davinci.Relay.Handler.Notify.{notify_with_pair_event}
use remote_davinci.Relay.Handler.Notify.Soundness.{
  notify-Sound, notify_with_pair_event-Sound, pair_closed_message-Sound,
}
use remote_davinci.Relay.Handler.Dispatch.{
  after_create, fresh_locator_unless, create_rounds, create_request, delivered_or_offline,
  announce_ready, join_request, announce_completed, committed, commit_request, announce_cancelled,
  cancel_request,
}

after_create-Sound :
    (last : Bool) (again : Prog Reply) (reply : Reply) (r : Result (Unit {0}))
    → Sound again
    → Sound (after_create last again reply r)
unfolding after_create
after_create-Sound last again reply (ok a) h = Sound-pure reply
after_create-Sound last again reply (err e) h = Sound-if _ _ _ (Sound-fail e) h

fresh_locator_unless-Sound : (hash : String) → Sound (fresh_locator_unless hash)
unfolding fresh_locator_unless
fresh_locator_unless-Sound hash = Sound-if _ _ _ Sound-new_locator (Sound-pure _)

create_rounds-Sound : (n : ℕ) (hash id : String) (t : ℕ) → Sound (create_rounds n hash id t)
unfolding create_rounds
create_rounds-Sound zero hash id t = Sound-fail _
create_rounds-Sound (suc n) hash id t = Sound-bind _ _ Sound-new_id λ pair_id.
    Sound-bind _ _ Sound-new_id λ side_id.
      Sound-bind _ _ (fresh_locator_unless-Sound hash) λ locator.
        Sound-bind _ _ (Sound-attempt _ (create_pair-Sound _ refl))
          λ r. after_create-Sound _ _ _ r (create_rounds-Sound n hash id t)

pub create_request-Sound :
    (hash : String) (c : Connection) (t : ℕ) → Sound (create_request hash c t)
unfolding create_request
create_request-Sound hash c t =
    Sound-bind _ _ (rate_limit-Sound _ _ _ t) λ a. create_rounds-Sound _ hash _ t

pub delivered_or_offline-Sound : (b : Bool) → Sound (delivered_or_offline b)
unfolding delivered_or_offline
delivered_or_offline-Sound b = Sound-if b _ _ (Sound-pure _) (Sound-fail _)

announce_ready-Sound : (fuel : ℕ) (p : Pair) (side : PairSide) → Sound (announce_ready fuel p side)
unfolding announce_ready
announce_ready-Sound fuel p side = Sound-bind _ _ Sound-new_id λ a. Sound-bind _ _ Sound-new_id λ b.
    Sound-bind _ _ (notify-Sound fuel _ _) λ d. Sound-bind _ _ (delivered_or_offline-Sound d) λ x.
      Sound-bind _ _ (notify_with_pair_event-Sound fuel _ _ _)
        λ e. Sound-bind _ _ (delivered_or_offline-Sound e) λ y. Sound-pure _

pub join_request-Sound :
    (fuel : ℕ) (wire : Wire) (locator token : String) (c : Connection) (t : ℕ)
    → Sound (join_request fuel wire locator token c t)
unfolding join_request
join_request-Sound fuel wire locator token c t = Sound-bind _ _ (rate_limit-Sound _ _ _ t) λ a.
    Sound-bind _ _ (Sound-settle _) λ hash.
      Sound-bind _ _ Sound-new_id
        λ id. Sound-bind _ _ (join_pair-Sound locator hash _ t) λ p. announce_ready-Sound fuel p _

announce_completed-Sound :
    (fuel : ℕ) (p : Pair) (l : Link) (c : Option PairCommit) → Sound (announce_completed fuel p l c)
unfolding announce_completed
announce_completed-Sound fuel p l none = Sound-pure _
announce_completed-Sound fuel p l (some c) =
    Sound-bind _ _ Sound-new_id λ id. Sound-bind _ _ (notify-Sound fuel _ _) λ a. Sound-pure _

committed-Sound : (fuel : ℕ) (p : Pair) (l : Option Link) → Sound (committed fuel p l)
unfolding committed
committed-Sound fuel p none = Sound-pure _
committed-Sound fuel p (some l) =
    Sound-bind _ _ (announce_completed-Sound fuel p l _)
      λ a. Sound-bind _ _ (announce_completed-Sound fuel p l _) λ b. Sound-pure _

pub commit_request-Sound :
    (fuel limit : ℕ) (id : String) (commit : PairCommit) (c : Connection) (t : ℕ)
    → Sound (commit_request fuel limit id commit c t)
unfolding commit_request
commit_request-Sound fuel limit id commit c t =
    Sound-bind _ _ (commit_pair-Sound limit id commit _ t) λ r. committed-Sound fuel r.pair r.link

announce_cancelled-Sound :
    (fuel : ℕ) (id : String) (p : Option Pair) → Sound (announce_cancelled fuel id p)
unfolding announce_cancelled
announce_cancelled-Sound fuel id none = Sound-pure _
announce_cancelled-Sound fuel id (some p) =
    Sound-if _ _ _
      (pair_closed_message-Sound (notify_with_pair_event fuel) (notify_with_pair_event-Sound fuel) p
        id _)
      (Sound-pure _)

pub cancel_request-Sound :
    (fuel : ℕ) (id : String) (c : Connection) (t : ℕ) → Sound (cancel_request fuel id c t)
unfolding cancel_request
cancel_request-Sound fuel id c t =
    Sound-bind _ _ (cancel_pair-Sound id _ t)
      λ p. Sound-bind _ _ (announce_cancelled-Sound fuel _ p) λ a. Sound-pure _
