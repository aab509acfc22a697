-- ===== src/Companion/Rules/Valid.antt =====
-- Which requests `controlProcessor.handle` of internal/companion/companion.go executes.
use remote_davinci.Base.{
  ℕ, ◌+◌, ◌≤◌, ◌<◌, ◌≡◌, refl, sym, ◌∙◌, subst, ap, String, true, false, not, Option, some, List,
  length, contains, arith, leb, ltb, ◌||◌, ◌==◌,
}
use remote_davinci.Protocol.Wire.{Envelope, ControlRequestBody}
use remote_davinci.Companion.Outcome.{returned}
use remote_davinci.Companion.Control.{Host, Processor, Handled, handle}
use remote_davinci.Companion.Rules.Turns.{
  Ran, nothing_ran, request_ran, Turn, refused, replayed, greeted, answered, handle-Turn,
}
use remote_davinci.Companion.Rules.Session.{Responded, lost, cached, response-Responded}
use remote_davinci.Companion.Rules.Cases.{same_some, none≢some}

module _ {S : Type 0} (host : Host S) where
  -- The message `m` is the request `id` for `operation`: the controller's hello came before it, the
  -- operation is granted, and at the time of the clock the request has not expired, was sent at
  -- most 30 seconds ahead and has no arguments.
  abbrev pub ValidRequest : S → Processor → List ℕ → String → String → Type 0
  ValidRequest s p m id operation =
      (e : Envelope) × (body : ControlRequestBody) × (host.parse m ≡ returned e)
      × (e.id ≡ id)
      × (host.decode_request e.body ≡ some body)
      × (body.operation ≡ operation)
      × (p.peer_hello ≡ true)
      × (contains operation p.allowed ≡ true)
      × ((host.clock s).1 < body.expires_at)
      × (body.sent_at ≤ (host.clock s).1 + 30000)
      × (length body.args ≡ 0)

  in_time :
      (now expires sent count : ℕ)
      → (leb expires now || ltb (now + 30000) sent || not (count == 0)) ≡ false
      → (now < expires) × (sent ≤ now + 30000) × (count ≡ 0)
  in_time now expires sent count h = ground arith

  Responded-ran :
      (after : S) (p : Processor) (ran : Option (String × String)) (id : String) (h : Handled S)
      → Responded host after p ran id h
      → h.ran ≡ ran
  Responded-ran after p ran id _ (lost end) = refl
  Responded-ran after p ran id _ (cached end bytes) = refl

  Ran-Valid :
      (s : S) (p : Processor) (m : List ℕ) (e : Envelope) (ran : Option (String × String))
      → host.parse m ≡ returned e
      → Ran host s p e ran
      → (id operation : String) → ran ≡ some (id, operation)
      → ValidRequest s p m id operation
  Ran-Valid s p m e _ parsed nothing_ran id operation same = elim (none≢some same) [ ]
  Ran-Valid s p m e _ parsed (request_ran body decoded hello valid may) id operation same =
      let pair : (e.id, body.operation) ≡ (id, operation) = same_some same in
      let same_operation : body.operation ≡ operation = ap (λ x. x.1) pair in
      let (fresh, sent, no_args) =
        in_time (host.clock s).1 body.expires_at body.sent_at (length body.args) valid in
      (
        e,
        body,
        parsed,
        ap (λ x. x.0) pair,
        decoded,
        same_operation,
        hello,
        subst (λ o. contains o p.allowed ≡ true) same_operation may,
        fresh,
        sent,
        no_args,
      )

  turn-Valid :
      (s : S) (p : Processor) (m : List ℕ) (h : Handled S)
      → Turn host s p m h
      → (id operation : String) → h.ran ≡ some (id, operation)
      → ValidRequest s p m id operation
  turn-Valid s p m _ (refused fault) id operation ran = elim (none≢some ran) [ ]
  turn-Valid s p m _ (replayed e bytes parsed old) id operation ran = elim (none≢some ran) [ ]
  turn-Valid s p m _ greeted id operation ran = elim (none≢some ran) [ ]
  turn-Valid s p m _ (answered e after request outcome parsed new room ok) id operation ran =
      let same =
        Responded-ran after p request e.id _
          (response-Responded host after p request e.id outcome) in
      Ran-Valid s p m e request parsed ok id operation (sym same ∙ ran)

  -- `handle` gives an operation to `execute` only for a valid request.
  pub handle-Valid :
      (s : S) (p : Processor) (m : List ℕ) (id operation : String)
      → (handle host s p m).ran ≡ some (id, operation)
      → ValidRequest s p m id operation
  handle-Valid s p m id operation ran = turn-Valid s p m _ (handle-Turn host s p m) id operation ran
