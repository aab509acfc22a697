-- ===== src/Companion/Rules/Turns.antt =====
-- The branches of `controlProcessor.handle` of internal/companion/companion.go, as a data type, and
-- what one call does to the cache.
use remote_davinci.Base.{
  ◌||◌, ℕ, ◌≡◌, refl, String, Bool, true, false, not, Option, none, some, List, length, lookup,
  contains, str_eq, arith, leb, if◌then◌else◌,
}
use remote_davinci.Protocol.Wire.{Envelope, ControlRequestBody}
use remote_davinci.Companion.Outcome.{Fault, Outcome, returned, failed}
use remote_davinci.Companion.Operations.{OperationResult}
use remote_davinci.Companion.Control.{
  Host, Processor, Handled, handle, handle_envelope, handle_hello, handle_request,
  handle_new_request, handle_decoded, handle_cached, handle_parsed, run_request, response, ended,
  is_invalid, is_controller, max_session_requests,
}

not-false : {b : Bool} → not b ≡ false → b ≡ true
not-false h = ground arith

module _ {S : Type 0} (host : Host S) where
  -- The request that is given to `execute`: its session is greeted, its operation is allowed, and at
  -- the clock's time `now` it is neither expired nor from the future and has no arguments.
  pub data Ran (s : S) (p : Processor) (e : Envelope) : Option (String × String) → Type 0 where
    nothing_ran : Ran s p e none
    request_ran :
        (body : ControlRequestBody)
        → host.decode_request e.body ≡ some body
        → p.peer_hello ≡ true
        → is_invalid host (host.clock s).1 body ≡ false
        → contains body.operation p.allowed ≡ true
        → Ran s p e (some (e.id, body.operation))

  pub data Turn (s : S) (p : Processor) (m : List ℕ) : Handled S → Type 0 where
    refused : (fault : Fault) → Turn s p m (ended host s p (failed fault))
    replayed :
        (e : Envelope) (bytes : List ℕ)
        → host.parse m ≡ returned e
        → lookup e.id p.cache ≡ some bytes
        → Turn s p m (ended host s p (returned (some bytes)))
    greeted : Turn s p m (ended host s (record p { peer_hello = true }) (returned none))
    answered :
        (e : Envelope) (after : S) (ran : Option (String × String))
        (outcome : Outcome OperationResult)
        → host.parse m ≡ returned e
        → lookup e.id p.cache ≡ none
        → leb max_session_requests (length p.cache) ≡ false
        → Ran s p e ran
        → Turn s p m (response host after p ran e.id outcome)

  module _ (s : S) (p : Processor) (m : List ℕ) where
    -- A test whose two outcomes are looked at with the equation that each of them has.
    branch :
        (b : Bool) {x y : Handled S}
        → (b ≡ true → Turn s p m x)
        → (b ≡ false → Turn s p m y)
        → Turn s p m (if b then x else y)
    branch true f g = f refl
    branch false f g = g refl

    handle_request-Turn :
        (e : Envelope) (body : ControlRequestBody)
        → host.parse m ≡ returned e
        → lookup e.id p.cache ≡ none
        → leb max_session_requests (length p.cache) ≡ false
        → host.decode_request e.body ≡ some body
        → p.peer_hello ≡ true
        → Turn s p m (handle_request host s p e.id body)
    unfolding handle_request run_request
    handle_request-Turn e body parsed new room decoded hello =
        branch (is_invalid host (host.clock s).1 body)
          (λ _. answered e _ none _ parsed new room nothing_ran)
          (λ valid.
            branch (not (contains body.operation p.allowed))
              (λ _. answered e _ none _ parsed new room nothing_ran)
              (λ may.
                answered e _ (some (e.id, body.operation)) _ parsed new room
                  (request_ran body decoded hello valid (not-false may))))

    decoded-Turn :
        (e : Envelope) (o : Option ControlRequestBody)
        → host.parse m ≡ returned e
        → lookup e.id p.cache ≡ none
        → leb max_session_requests (length p.cache) ≡ false
        → host.decode_request e.body ≡ o
        → Turn s p m (handle_decoded host s p e o)
    unfolding handle_decoded
    decoded-Turn e none parsed new room decoded = refused _
    decoded-Turn e (some body) parsed new room decoded =
        branch (not p.peer_hello) (λ _. refused _)
          (λ hello. handle_request-Turn e body parsed new room decoded (not-false hello))

    new_request-Turn :
        (e : Envelope) (o : Option (List ℕ))
        → host.parse m ≡ returned e
        → lookup e.id p.cache ≡ o
        → Turn s p m (handle_cached host s p e o)
    unfolding handle_cached handle_new_request
    new_request-Turn e none parsed new =
        branch (leb max_session_requests (length p.cache)) (λ _. refused _)
          (λ room. decoded-Turn e (host.decode_request e.body) parsed new room refl)
    new_request-Turn e (some cached) parsed old = replayed e cached parsed old

    parsed-Turn : (o : Outcome Envelope) → host.parse m ≡ o → Turn s p m (handle_parsed host s p o)
    unfolding handle_parsed handle_envelope handle_hello
    parsed-Turn (failed fault) parsed = refused _
    parsed-Turn (returned e) parsed =
        branch (str_eq e.type "hello")
          (λ _.
            branch (p.peer_hello || not (is_controller host (host.decode_hello e.body)))
              (λ _. refused _) (λ _. greeted))
          (λ _.
            branch (str_eq e.type "request")
              (λ _. new_request-Turn e (lookup e.id p.cache) parsed refl) (λ _. refused _))

    pub handle-Turn : Turn s p m (handle host s p m)
    unfolding handle
    handle-Turn = parsed-Turn (host.parse m) refl
