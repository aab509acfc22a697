-- ===== src/Companion/Control.antt =====
-- internal/companion/companion.go: `controlProcessor`, which answers the controller's messages of one
-- session. `Host` is what the processor calls: the parser, the clock, the random source, the JSON
-- encoder and `execute`, on a state `S` of the computer.
use remote_davinci.Base.{
  ℕ, ◌+◌, String, Bool, true, false, ◌||◌, not, Option, none, some, List, [], ◌∷◌, if◌then◌else◌,
  ltb, leb, ◌==◌, length, lookup, contains, str_eq,
}
use remote_davinci.Protocol.{DeviceRole, controller}
use remote_davinci.Protocol.Wire.{Envelope, ControlRequestBody}
use remote_davinci.Companion.Outcome.{message, operation_error, external, Outcome, returned, failed}
use remote_davinci.Companion.Operations.{OperationResult}

-- The body of a response: {"ok": true, "result": …}, or the code of {"ok": false, "error": …}.
pub data ResponseBody : Type 0 where
  success : OperationResult → ResponseBody
  failure : String → ResponseBody

pub record Response : Type 0 where
  pub id : String
  pub reply_to : String
  pub body : ResponseBody

-- `parse` is `ParseControl`, the two decoders are `DecodeBody` at the types that `handle` reads, the
-- clock is in milliseconds, and `none` is the error of a source.
pub record Host (S : Type 0) : Type 0 where
  pub parse : List ℕ → Outcome Envelope
  pub decode_hello : List ℕ → Option DeviceRole
  pub decode_request : List ℕ → Option ControlRequestBody
  pub marshal_response : Response → Option (List ℕ)
  pub clock : S → S × ℕ
  pub random_uuid : S → S × Option String
  pub execute : S → String → S × Outcome OperationResult

-- The type `controlProcessor`; `cache` has the encoded response of each answered request.
pub record Processor : Type 0 where
  pub allowed : List String
  pub peer_hello : Bool
  pub cache : List (String × List ℕ)

abbrev pub max_session_requests : ℕ
max_session_requests = 256

-- companion.go: `newControlProcessor`.
abbrev pub new_control_processor : List String → Processor
new_control_processor granted = record { allowed = granted; peer_hello = false; cache = [] }

-- `cache[id] = data`
unfoldable pub insert : String → List ℕ → List (String × List ℕ) → List (String × List ℕ)
insert id bytes [] = (id, bytes) ∷ []
insert id bytes ((other, old) ∷ rest) =
    let below = insert id bytes rest in
    if str_eq other id then (id, bytes) ∷ rest else (other, old) ∷ below

-- The end of a call of `handle`: the state, the processor, the request (its id and operation) that
-- was given to `execute`, if one was, and the reply. `returned none` sends nothing.
pub record Handled (S : Type 0) : Type 0 where
  pub state : S
  pub processor : Processor
  pub ran : Option (String × String)
  pub reply : Outcome (Option (List ℕ))

-- The body that `response` builds.
abbrev pub response_body : Outcome OperationResult → ResponseBody
response_body (returned result) = success result
response_body (failed (operation_error code)) = failure code
response_body (failed _) = failure "operation.failed"

module _ {S : Type 0} (host : Host S) where
  abbrev pub ended : S → Processor → Outcome (Option (List ℕ)) → Handled S
  ended s p result = record { state = s; processor = p; ran = none; reply = result }

  -- The encoded response goes into the cache.
  unfoldable pub remember :
      S → Processor → Option (String × String) → String → Option (List ℕ) → Handled S
  remember s p ran reply_to none = record {
    state = s;
    processor = p;
    ran = ran;
    reply = failed external;
  }
  remember s p ran reply_to (some bytes) = record {
    state = s;
    processor = record p { cache = insert reply_to bytes p.cache };
    ran = ran;
    reply = returned (some bytes);
  }

  unfoldable pub respond :
      S → Processor → Option (String × String) → String → ResponseBody → Option String → Handled S
  respond s p ran reply_to body none = record {
    state = s;
    processor = p;
    ran = ran;
    reply = failed external;
  }
  respond s p ran reply_to body (some id) =
      remember s p ran reply_to
        (host.marshal_response (record { id = id; reply_to = reply_to; body = body }))

  -- companion.go: `controlProcessor.response`.
  unfoldable pub response :
      S → Processor → Option (String × String) → String → Outcome OperationResult → Handled S
  response s p ran reply_to outcome =
      let (after, id) = host.random_uuid s in
      respond after p ran reply_to (response_body outcome) id

  -- The request is expired, from the future, or has arguments.
  abbrev pub is_invalid : ℕ → ControlRequestBody → Bool
  is_invalid now body =
      leb body.expires_at now || ltb (now + 30000) body.sent_at || not (length body.args == 0)

  unfoldable pub run_request : S → Processor → String → String → Handled S
  run_request s p id operation =
      let (after, outcome) = host.execute s operation in
      response after p (some (id, operation)) id outcome

  unfoldable pub handle_request : S → Processor → String → ControlRequestBody → Handled S
  handle_request s p id body =
      let (after, now) = host.clock s in
      if is_invalid now body
      then response after p none id (failed (operation_error "request.invalid"))
      else if not (contains body.operation p.allowed)
      then response after p none id (failed (operation_error "operation.forbidden"))
      else run_request after p id body.operation

  unfoldable pub handle_decoded : S → Processor → Envelope → Option ControlRequestBody → Handled S
  handle_decoded s p envelope none = ended s p (failed external)
  handle_decoded s p envelope (some body) =
      if not p.peer_hello
      then ended s p (failed (message "control hello must be first"))
      else handle_request s p envelope.id body

  unfoldable pub handle_new_request : S → Processor → Envelope → Handled S
  handle_new_request s p envelope =
      if leb max_session_requests (length p.cache)
      then ended s p (failed (message "session request limit reached"))
      else handle_decoded s p envelope (host.decode_request envelope.body)

  unfoldable pub handle_cached : S → Processor → Envelope → Option (List ℕ) → Handled S
  handle_cached s p envelope (some cached) = ended s p (returned (some cached))
  handle_cached s p envelope none = handle_new_request s p envelope

  abbrev pub is_controller : Option DeviceRole → Bool
  is_controller (some controller) = true
  is_controller _ = false

  unfoldable pub handle_hello : S → Processor → Envelope → Handled S
  handle_hello s p envelope =
      if p.peer_hello || not (is_controller (host.decode_hello envelope.body))
      then ended s p (failed (message "unexpected control hello"))
      else ended s (record p { peer_hello = true }) (returned none)

  unfoldable pub handle_envelope : S → Processor → Envelope → Handled S
  handle_envelope s p envelope =
      if str_eq envelope.type "hello"
      then handle_hello s p envelope
      else if str_eq envelope.type "request"
      then handle_cached s p envelope (lookup envelope.id p.cache)
      else ended s p (failed (message "unexpected control message"))

  unfoldable pub handle_parsed : S → Processor → Outcome Envelope → Handled S
  handle_parsed s p (failed fault) = ended s p (failed fault)
  handle_parsed s p (returned envelope) = handle_envelope s p envelope

  -- companion.go: `controlProcessor.handle`.
  unfoldable pub handle : S → Processor → List ℕ → Handled S
  handle s p plaintext = handle_parsed s p (host.parse plaintext)
