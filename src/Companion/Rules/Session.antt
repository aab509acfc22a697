-- ===== src/Companion/Rules/Session.antt =====
-- A whole session of `controlProcessor.handle` of internal/companion/companion.go: the messages are
-- handled in turn until one fails, which ends the connection in `runRelayConnection` of relay.go.
use remote_davinci.Base.{
  ℕ, suc, ◌≤◌, ◌<◌, ◌≡◌, ◌≢◌, refl, sym, ◌∙◌, subst, ap, String, Bool, true, false, Option, none,
  some, List, [], ◌∷◌, ◌++◌, length, lookup, contains, str_eq, eq_iff, eq_refl, arith, leb,
  if◌then◌else◌,
}
use remote_davinci.Protocol.Wire.{Envelope}
use remote_davinci.Companion.Outcome.{Outcome, returned, failed, external}
use remote_davinci.Companion.Operations.{OperationResult}
use remote_davinci.Companion.Control.{
  Host, Processor, Handled, handle, response, respond, remember, ended, insert,
  max_session_requests, response_body, ResponseBody,
}
use remote_davinci.Companion.Rules.Turns.{
  Ran, nothing_ran, request_ran, Turn, refused, replayed, greeted, answered, handle-Turn,
}
use remote_davinci.Companion.Rules.Cases.{same_some, none≢some, false≢true}

lookup-insert :
    (id other : String) (bytes : List ℕ) (cache : List (String × List ℕ))
    → lookup other (insert id bytes cache)
      ≡ (if str_eq id other then some bytes else lookup other cache)
unfolding insert
lookup-insert id other bytes [] = refl
lookup-insert id other bytes ((k, old) ∷ rest) =
    ground (arith, eq_iff id other, eq_iff k id, eq_iff k other, lookup-insert id other bytes rest)

length-insert :
    (id : String) (bytes : List ℕ) (cache : List (String × List ℕ))
    → length (insert id bytes cache) ≤ suc (length cache)
unfolding insert
length-insert id bytes [] = omega arith
length-insert id bytes ((k, old) ∷ rest) = ground (arith, length-insert id bytes rest)

length-insert_new :
    (id : String) (bytes : List ℕ) (cache : List (String × List ℕ))
    → lookup id cache ≡ none
    → length (insert id bytes cache) ≡ suc (length cache)
unfolding insert
length-insert_new id bytes [] h = refl
length-insert_new id bytes ((k, old) ∷ rest) h = ground (arith, length-insert_new id bytes rest)

room_below : (n : ℕ) → leb max_session_requests n ≡ false → n < max_session_requests
room_below n h = ground arith

pub found_after :
    (id : String) (bytes : List ℕ) (cache : List (String × List ℕ))
    → lookup id (insert id bytes cache) ≡ some bytes
found_after id bytes cache = ground (arith, lookup-insert id id bytes cache, eq_refl id)

-- What is in the cache stays there as it is.
abbrev pub Extends : Processor → Processor → Type 0
Extends p q =
    (id : String) (bytes : List ℕ) → lookup id p.cache ≡ some bytes → lookup id q.cache ≡ some bytes

module _ {S : Type 0} (host : Host S) where
  -- How `response` ends: with an error and the processor as it was, or with the reply in the cache.
  pub data Responded (after : S) (p : Processor) (ran : Option (String × String)) (id : String)
      : Handled S → Type 0 where
    lost :
        (s : S)
        → Responded after p ran id
            (record { state = s; processor = p; ran = ran; reply = failed external })
    cached :
        (s : S) (bytes : List ℕ)
        → Responded after p ran id (record {
          state = s;
          processor = record p { cache = insert id bytes p.cache };
          ran = ran;
          reply = returned (some bytes);
        })

  remember-Responded :
      (after s : S) (p : Processor) (ran : Option (String × String)) (id : String)
      (o : Option (List ℕ))
      → Responded after p ran id (remember host s p ran id o)
  unfolding remember
  remember-Responded after s p ran id none = lost s
  remember-Responded after s p ran id (some bytes) = cached s bytes

  respond-Responded :
      (after s : S) (p : Processor) (ran : Option (String × String)) (id : String)
      (body : ResponseBody) (fresh : Option String)
      → Responded after p ran id (respond host s p ran id body fresh)
  unfolding respond
  respond-Responded after s p ran id body none = lost s
  respond-Responded after s p ran id body (some fresh) = remember-Responded after s p ran id _

  pub response-Responded :
      (after : S) (p : Processor) (ran : Option (String × String)) (id : String)
      (outcome : Outcome OperationResult)
      → Responded after p ran id (response host after p ran id outcome)
  unfolding response
  response-Responded after p ran id outcome =
      respond-Responded after _ p ran id (response_body outcome) _

  abbrev pub executed : Option (String × String) → List (String × String)
  executed none = []
  executed (some request) = request ∷ []

  abbrev pub is_returned : Outcome (Option (List ℕ)) → Bool
  is_returned (returned reply) = true
  is_returned (failed fault) = false

  -- A session: its messages in order, up to the first that fails; with the requests that were given
  -- to `execute`, in order.
  unfoldable pub session : S → Processor → List (List ℕ) → S × Processor × List (String × String)
  session s p [] = (s, p, [])
  session s p (m ∷ ms) =
      let h = handle host s p m in
      let (last_state, last, requests) = session h.state h.processor ms in
      if is_returned h.reply
      then (last_state, last, executed h.ran ++ requests)
      else (h.state, h.processor, executed h.ran)

  -- What one call of `handle` does: it forgets no reply and changes no permission, and the cache stays
  -- in its bound. A request that it gives to `execute` is new and allowed, and has its reply in the
  -- cache afterwards, unless the call fails.
  abbrev pub Fresh : Processor → Handled S → Type 0
  Fresh p h =
      (id operation : String)
      → h.ran ≡ some (id, operation)
      → (lookup id p.cache ≡ none)
        × (contains operation p.allowed ≡ true)
        × (length p.cache < max_session_requests)
        × (is_returned h.reply ≡ true
            → (lookup id h.processor.cache ≢ none)
              × (length h.processor.cache ≡ suc (length p.cache)))

  abbrev pub Advances : Processor → Handled S → Type 0
  Advances p h =
      Extends p h.processor
      × (h.processor.allowed ≡ p.allowed)
      × (length p.cache ≤ length h.processor.cache)
      × (length p.cache ≤ max_session_requests → length h.processor.cache ≤ max_session_requests)
      × Fresh p h

  insert-Extends :
      (p : Processor) (id : String) (bytes : List ℕ)
      → lookup id p.cache ≡ none
      → Extends p (record p { cache = insert id bytes p.cache })
  insert-Extends p id bytes new other old has =
      ground (arith, lookup-insert id other bytes p.cache, eq_iff id other)

  kept-Advances :
      (s : S) (p q : Processor) (r : Outcome (Option (List ℕ)))
      → q.cache ≡ p.cache
      → q.allowed ≡ p.allowed
      → Advances p (ended host s q r)
  kept-Advances s p q r cache allowed = (
    λ id bytes has. rw cache has,
    allowed,
    rw cache omega arith,
    λ h. rw cache h,
    λ id operation ran. elim (none≢some ran) [ ],
  )

  Ran-Fresh :
      (s : S) (p : Processor) (e : Envelope) (ran : Option (String × String)) (h : Handled S)
      → h.ran ≡ ran
      → Ran host s p e ran
      → lookup e.id p.cache ≡ none
      → leb max_session_requests (length p.cache) ≡ false
      → (is_returned h.reply ≡ true
          → (lookup e.id h.processor.cache ≢ none)
            × (length h.processor.cache ≡ suc (length p.cache)))
      → Fresh p h
  Ran-Fresh s p e none h same nothing_ran new room done id operation ran =
      elim (none≢some (sym same ∙ ran)) [ ]
  Ran-Fresh s p e (some r) h same (request_ran body decoded hello valid may) new room done id
        operation ran =
      let pair : (e.id, body.operation) ≡ (id, operation) = same_some (sym same ∙ ran) in
      let same_id : e.id ≡ id = ap (λ x. x.0) pair in
      (
        subst (λ k. lookup k p.cache ≡ none) same_id new,
        subst (λ o. contains o p.allowed ≡ true) (ap (λ x. x.1) pair) may,
        room_below _ room,
        λ q. (subst (λ k. lookup k h.processor.cache ≢ none) same_id (done q).0, (done q).1),
      )

  answered-Advances :
      (s after : S) (p : Processor) (e : Envelope) (ran : Option (String × String)) (h : Handled S)
      → Responded after p ran e.id h
      → Ran host s p e ran
      → lookup e.id p.cache ≡ none
      → leb max_session_requests (length p.cache) ≡ false
      → Advances p h
  answered-Advances s after p e ran _ (lost end) ok new room =
      let h : Handled S = record {
        state = end;
        processor = p;
        ran = ran;
        reply = failed external;
      } in
      (
        λ id bytes has. has,
        refl,
        omega arith,
        λ bound. bound,
        Ran-Fresh s p e ran h refl ok new room (λ q. elim (false≢true q) [ ]),
      )
  answered-Advances s after p e ran _ (cached end bytes) ok new room =
      let q : Processor = record p { cache = insert e.id bytes p.cache } in
      let h : Handled S = record {
        state = end;
        processor = q;
        ran = ran;
        reply = returned (some bytes);
      } in
      let grows = length-insert_new e.id bytes p.cache new in
      (
        insert-Extends p e.id bytes new,
        refl,
        omega arith,
        λ bound. ground arith,
        Ran-Fresh s p e ran h refl ok new room (λ _.
            (λ absent. elim (none≢some (sym absent ∙ found_after e.id bytes p.cache)) [ ], grows)),
      )

  turn-Advances :
      (s : S) (p : Processor) (m : List ℕ) (h : Handled S) → Turn host s p m h → Advances p h
  turn-Advances s p m _ (refused fault) = kept-Advances s p p (failed fault) refl refl
  turn-Advances s p m _ (replayed e bytes parsed old) =
      kept-Advances s p p (returned (some bytes)) refl refl
  turn-Advances s p m _ greeted =
      kept-Advances s p (record p { peer_hello = true }) (returned none) refl refl
  turn-Advances s p m _ (answered e after ran outcome parsed new room ok) =
      answered-Advances s after p e ran _ (response-Responded after p ran e.id outcome) ok new room

  -- Every call of `handle` advances the session.
  pub handle-Advances : (s : S) (p : Processor) (m : List ℕ) → Advances p (handle host s p m)
  handle-Advances s p m = turn-Advances s p m _ (handle-Turn host s p m)
