-- ===== src/Companion/Rules/Truthful.antt =====
-- What `receive` and its loop (internal/companion/relay.go) say of the channel when they return that
-- it is ready.
use remote_davinci.Base.{
  ℕ, zero, suc, ◌≡◌, refl, ap, ◌∙◌, subst, Bool, true, false, not, Option, none, some, List, [],
  is_none, if◌then◌else◌, ◌++◌, ltb, ◌-◌,
}
use remote_davinci.Companion.Outcome.{Fault, Outcome, returned, failed, message}
use remote_davinci.Companion.Reorder.{
  find, Window, Outgoing, Drained, drain, after_step, next_round, take_next, receive,
  receive_packet_at, max_relay_reorder_frames, buffer, payload_packet, refuse,
}
use remote_davinci.Companion.Rules.Cases.{same_some, none≢some, failed≢returned, same_result}

module _ {T : Type 0} (step : T → List ℕ → T × Outcome Outgoing) (settled : T → Bool)
    (honest : (t : T) (packet : List ℕ) (out : Outgoing)
      → (step t packet).1 ≡ returned out
      → out.ready ≡ true
      → settled (step t packet).0 ≡ true) where
  -- A result says `ready` only of a settled state.
  abbrev pub Truthful : Drained T → Type 0
  Truthful result =
      (w : Window T) (out : Outgoing)
      → result ≡ some (w, returned out)
      → out.ready ≡ true
      → settled w.state ≡ true

  refused-Truthful : (w : Window T) (fault : Fault) → Truthful (some (w, failed fault))
  refused-Truthful w fault w' out e ready = elim (failed≢returned (ap (λ x. x.1) (same_some e))) [ ]

  returned-Truthful :
      (w : Window T) (out : Outgoing)
      → (out.ready ≡ true → settled w.state ≡ true)
      → Truthful (some (w, returned out))
  returned-Truthful w out h w' out' e ready =
      let pair : (w, returned out) ≡ (w', returned out') = same_some e in
      subst (λ (v : Window T). settled v.state ≡ true) (ap (λ x. x.0) pair)
        (h (ap (λ (o : Outgoing). o.ready) (same_result (ap (λ x. x.1) pair)) ∙ ready))

  next_round-Truthful :
      (w : Window T) (sent : List (List ℕ)) (again : Window T → List ℕ → List (List ℕ) → Drained T)
      → ((w' : Window T) (next : List ℕ) (sent' : List (List ℕ)) → Truthful (again w' next sent'))
      → (t : T) (out : Outgoing) → (out.ready ≡ true → settled t ≡ true)
      → (o : Option (List ℕ)) → Truthful (next_round w sent again t out o)
  unfolding next_round
  next_round-Truthful w sent again ih t out h none = returned-Truthful _ _ h
  next_round-Truthful w sent again ih t out h (some next) =
      ih (take_next w t next) next (sent ++ out.packets)

  after_step-Truthful :
      (w : Window T) (sent : List (List ℕ)) (again : Window T → List ℕ → List (List ℕ) → Drained T)
      → ((w' : Window T) (next : List ℕ) (sent' : List (List ℕ)) → Truthful (again w' next sent'))
      → (r : T × Outcome Outgoing)
      → ((out : Outgoing) → r.1 ≡ returned out → out.ready ≡ true → settled r.0 ≡ true)
      → Truthful (after_step w sent again r)
  unfolding after_step
  after_step-Truthful w sent again ih (t, failed fault) h = refused-Truthful _ fault
  after_step-Truthful w sent again ih (t, returned out) h =
      next_round-Truthful w sent again ih t out (h out refl) _

  drain-Truthful :
      (fuel : ℕ) (w : Window T) (packet : List ℕ) (sent : List (List ℕ))
      → Truthful (drain step fuel w packet sent)
  unfolding drain
  drain-Truthful zero w packet sent = λ w' out e ready. elim (none≢some e) [ ]
  drain-Truthful (suc fuel) w packet sent =
      after_step-Truthful w sent (λ w' next sent'. drain step fuel w' next sent')
        (λ w' next sent'. drain-Truthful fuel w' next sent') (step w.state packet)
        (honest w.state packet)

  branch : (b : Bool) (x y : Drained T) → Truthful x → Truthful y → Truthful (if b then x else y)
  branch true x y h k = h
  branch false x y h k = k

  receive_packet_at-Truthful :
      (w : Window T) (sequence : ℕ) (o : Option (List ℕ))
      → Truthful (receive_packet_at step settled w sequence o)
  unfolding receive_packet_at buffer
  receive_packet_at-Truthful w sequence none = refused-Truthful w _
  receive_packet_at-Truthful w sequence (some packet) =
      branch _ _ _ (branch _ _ _ (refused-Truthful w _) (returned-Truthful _ _ (λ h. h)))
        (drain-Truthful _ w packet [])

  pub receive-Truthful :
      (w : Window T) (sequence : ℕ) (encoded : List ℕ)
      → Truthful (receive step settled w sequence encoded)
  unfolding receive
  receive-Truthful w sequence encoded =
      branch (ltb sequence w.expected_in) (refuse w "old session frame sequence") _
        (refused-Truthful w (message "old session frame sequence"))
        (branch (not (is_none (find sequence w.pending)))
          (refuse w "duplicate session frame sequence") _
          (refused-Truthful w (message "duplicate session frame sequence"))
          (branch (ltb max_relay_reorder_frames (sequence - w.expected_in))
            (refuse w "session frame exceeds reorder window") _
            (refused-Truthful w (message "session frame exceeds reorder window"))
            (receive_packet_at-Truthful w sequence (payload_packet encoded))))
