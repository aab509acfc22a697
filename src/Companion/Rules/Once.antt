-- ===== src/Companion/Rules/Once.antt =====
-- A whole session of `controlProcessor.handle` of internal/companion/companion.go: the requests that are
-- executed and those that come again.
use remote_davinci.Base.{
  ℕ, ◌+◌, ◌≤◌, ◌≡◌, ◌≢◌, refl, sym, ◌∙◌, subst, String, true, false, Option, none, some, List, [],
  ◌∷◌, ◌++◌, length, lookup, contains, str_eq, arith, Bool-cases, inl, inr, Option-cases, All,
}
use remote_davinci.Protocol.Wire.{Envelope}
use remote_davinci.Companion.Outcome.{returned}
use remote_davinci.Companion.Control.{
  Host, Processor, Handled, handle, handle_parsed, handle_envelope, handle_cached, response, ended,
  max_session_requests, new_control_processor,
}
use remote_davinci.Companion.Rules.Session.{
  session, executed, is_returned, Advances, Fresh, Extends, handle-Advances, Responded, lost,
  cached, response-Responded, found_after,
}
use remote_davinci.Companion.Rules.Turns.{Turn, refused, replayed, greeted, answered, handle-Turn}
use remote_davinci.Companion.Rules.Cases.{none≢some, failed≢returned, same_result}

-- The ids of the requests are pairwise different.
abbrev pub Distinct : List (String × String) → Type 0
Distinct [] = Unit
Distinct (r ∷ rs) = All (λ other. other.0 ≢ r.0) rs × Distinct rs

abbrev pub New : Processor → List (String × String) → Type 0
New p = All (λ r. lookup r.0 p.cache ≡ none)

absent_before :
    (p q : Processor)
    → Extends p q
    → (id : String) → lookup id q.cache ≡ none
    → lookup id p.cache ≡ none
absent_before p q grows id absent = elim (Option-cases (lookup id p.cache)) [
  | inl e ↦ e
  | inr (bytes, e) ↦ elim (none≢some (sym absent ∙ grows id bytes e)) [ ]
]

New-before : (p q : Processor) → Extends p q → (rs : List (String × String)) → New q rs → New p rs
New-before p q grows [] h = tt
New-before p q grows (r ∷ rs) h = (absent_before p q grows r.0 h.0, New-before p q grows rs h.1)

apart :
    (q : Processor) (id : String)
    → lookup id q.cache ≢ none
    → (rs : List (String × String)) → New q rs
    → All (λ other. other.0 ≢ id) rs
apart q id has [] h = tt
apart q id has (r ∷ rs) h =
    (λ same. has (subst (λ k. lookup k q.cache ≡ none) same h.0), apart q id has rs h.1)

module _ {S : Type 0} (host : Host S) where
  abbrev pub Once : Processor → List (String × String) → Type 0
  Once p rs =
      New p rs
      × Distinct rs
      × All (λ r. contains r.1 p.allowed ≡ true) rs
      × (length p.cache ≤ max_session_requests → length rs + length p.cache ≤ max_session_requests)

  ran-Once :
      (p : Processor) (h : Handled S) (ran : Option (String × String))
      → h.ran ≡ ran
      → Fresh host p h
      → Once p (executed host ran)
  ran-Once p h none same fresh = (tt, tt, tt, λ bound. omega arith)
  ran-Once p h (some (id, operation)) same fresh =
      let (new, may, room, done) = fresh id operation same in
      ((new, tt), (tt, tt), (may, tt), λ bound. omega arith)

  followed-Once :
      (p : Processor) (h : Handled S) (ran : Option (String × String))
      → h.ran ≡ ran
      → Advances host p h
      → is_returned host h.reply ≡ true
      → (rs : List (String × String)) → Once h.processor rs
      → Once p (executed host ran ++ rs)
  followed-Once p h none same (grows, allowed, longer, bound, fresh) ok rs
        (new, distinct, may, few) =
      (
        New-before p h.processor grows rs new,
        distinct,
        subst (λ a. All (λ r. contains r.1 a ≡ true) rs) allowed may,
        λ small. let bounded = few (bound small) in omega arith,
      )
  followed-Once p h (some (id, operation)) same (grows, allowed, longer, bound, fresh) ok rs
        (new, distinct, may, few) =
      let (was_new, may_run, room, done) = fresh id operation same in
      let (has, one_more) = done ok in
      (
        (was_new, New-before p h.processor grows rs new),
        (apart h.processor id has rs new, distinct),
        (may_run, subst (λ a. All (λ r. contains r.1 a ≡ true) rs) allowed may),
        λ small. let bounded = few (bound small) in omega arith,
      )

  session-Once : (s : S) (p : Processor) (ms : List (List ℕ)) → Once p (session host s p ms).2
  unfolding session
  session-Once s p [] = (tt, tt, tt, λ bound. omega arith)
  session-Once s p (m ∷ ms) =
      let h = handle host s p m in
      let facts = handle-Advances host s p m in
      let rest = session-Once h.state h.processor ms in
      elim (Bool-cases (is_returned host h.reply)) [
        | inl ok ↦ rw ok (followed-Once p h h.ran refl facts ok _ rest)
        | inr bad ↦ rw bad (ran-Once p h h.ran refl facts.4)
      ]

  session-Extends : (s : S) (p : Processor) (ms : List (List ℕ)) → Extends p (session host s p ms).1
  unfolding session
  session-Extends s p [] = λ id bytes has. has
  session-Extends s p (m ∷ ms) =
      let h = handle host s p m in
      let (grows, _, _, _, _) = handle-Advances host s p m in
      let rest = session-Extends h.state h.processor ms in
      elim (Bool-cases (is_returned host h.reply)) [
        | inl ok ↦ rw ok (λ id bytes has. rest id bytes (grows id bytes has))
        | inr bad ↦ rw bad grows
      ]

  cached-replayed :
      (s : S) (p : Processor) (m : List ℕ) (e : Envelope) (bytes : List ℕ)
      → host.parse m ≡ returned e
      → str_eq e.type "hello" ≡ false
      → str_eq e.type "request" ≡ true
      → lookup e.id p.cache ≡ some bytes
      → handle host s p m ≡ ended host s p (returned (some bytes))
  unfolding handle handle_parsed handle_envelope handle_cached
  cached-replayed s p m e bytes parsed other request has = rw parsed rw other rw request rw has refl

  -- A session executes each request at most once, only operations that are granted to it, and not
  -- more than 256 requests, whatever messages the controller sends and whatever the clock, the random
  -- source, the JSON encoder and the operations do.
  pub session-bounded :
      (s : S) (granted : List String) (ms : List (List ℕ))
      → let (_, _, requests) = session host s (new_control_processor granted) ms in
        Distinct requests
        × All (λ r. contains r.1 granted ≡ true) requests
        × (length requests ≤ max_session_requests)
  session-bounded s granted ms =
      let (new, distinct, may, few) = session-Once s (new_control_processor granted) ms in
      (distinct, may, let bound = few (omega arith) in omega arith)

  Responded-stored :
      (after : S) (p : Processor) (ran : Option (String × String)) (id : String) (h : Handled S)
      → Responded host after p ran id h
      → (bytes : List ℕ) → h.reply ≡ returned (some bytes)
      → lookup id h.processor.cache ≡ some bytes
  Responded-stored after p ran id _ (lost end) bytes reply = elim (failed≢returned reply) [ ]
  Responded-stored after p ran id _ (cached end old) bytes reply =
      found_after id old p.cache ∙ same_result reply

  turn-stored :
      (s : S) (p : Processor) (m : List ℕ) (h : Handled S)
      → Turn host s p m h
      → (e : Envelope) (bytes : List ℕ) → host.parse m ≡ returned e
      → h.reply ≡ returned (some bytes)
      → lookup e.id h.processor.cache ≡ some bytes
  turn-stored s p m _ (refused fault) e bytes parsed reply = elim (failed≢returned reply) [ ]
  turn-stored s p m _ greeted e bytes parsed reply = elim (none≢some (same_result reply)) [ ]
  turn-stored s p m _ (replayed e' again parsed' old) e bytes parsed reply =
      subst (λ x. lookup x.id p.cache ≡ some bytes) (same_result (sym parsed' ∙ parsed))
        (old ∙ same_result reply)
  turn-stored s p m _ (answered e' after ran outcome parsed' new room ok) e bytes parsed reply =
      let stored =
        Responded-stored after p ran e'.id _ (response-Responded host after p ran e'.id outcome)
          bytes reply in
      subst
        (λ x. lookup x.id (response host after p ran e'.id outcome).processor.cache ≡ some bytes)
        (same_result (sym parsed' ∙ parsed)) stored

  -- A request that was answered is not executed again: the same message, at any later point of the
  -- session, gets the same reply and changes nothing.
  pub handle-replayed :
      (s : S) (p : Processor) (m : List ℕ) (e : Envelope) (bytes : List ℕ)
      → host.parse m ≡ returned e
      → str_eq e.type "hello" ≡ false
      → str_eq e.type "request" ≡ true
      → let h = handle host s p m in
        h.reply ≡ returned (some bytes)
        → (between : List (List ℕ)) (later : S)
        → let (_, q, _) = session host h.state h.processor between in
          handle host later q m ≡ ended host later q (returned (some bytes))
  handle-replayed s p m e bytes parsed other request reply between later =
      let h = handle host s p m in
      cached-replayed later _ m e bytes parsed other request (
        session-Extends h.state h.processor between e.id bytes
          (turn-stored s p m h (handle-Turn host s p m) e bytes parsed reply))
