-- ===== src/Companion/Rules/Order/Delivery.antt =====
-- A session of `secureChannel.receive` of internal/companion/relay.go: its frames in the order of their
-- arrival, up to the first error, which ends the connection in `runRelayConnection`.
use remote_davinci.Base.{
  inl, inr, ◌⊎◌, ℕ, ◌≡◌, refl, subst, Bool, Option, none, some, List, [], ◌∷◌, ◌++◌, arith,
}
use remote_davinci.Companion.Outcome.{Fault, Outcome, returned, failed}
use remote_davinci.Companion.Reorder.{
  Window, Outgoing, Drained, receive, payload_packet, new_window,
}
use remote_davinci.Companion.Rules.Order.Loop.{in_order, Ordered, Ends}
use remote_davinci.Companion.Rules.Order.Frames.{noted, receive-Ends}
use remote_davinci.Companion.Rules.Cases.{failed≢returned, same_result}

-- The packets of all frames by their number.
abbrev pub packets_of : (ℕ → Option (List ℕ)) → List (ℕ × List ℕ) → ℕ → Option (List ℕ)
packets_of accepted [] k = accepted k
packets_of accepted ((sequence, encoded) ∷ frames) k =
    packets_of (noted sequence (payload_packet encoded) accepted) frames k

abbrev pub nothing_yet : ℕ → Option (List ℕ)
nothing_yet k = none

-- What follows a frame: the next frame, or the end at an error.
abbrev pub follow :
    {T : Type 0}
    → (Window T → List (List ℕ) → Option (Window T × Outcome (List (List ℕ))))
    → List (List ℕ)
    → Drained T
    → Option (Window T × Outcome (List (List ℕ)))
follow again sent none = none
follow again sent (some (w, failed fault)) = some (w, failed fault)
follow again sent (some (w, returned out)) = again w (sent ++ out.packets)

module _ {T : Type 0} (step : T → List ℕ → T × Outcome Outgoing) (settled : T → Bool) where
  unfoldable pub receive_all :
      Window T → List (ℕ × List ℕ) → List (List ℕ) → Option (Window T × Outcome (List (List ℕ)))
  receive_all w [] sent = some (w, returned sent)
  receive_all w ((sequence, encoded) ∷ frames) sent =
      follow (λ w' sent'. receive_all w' frames sent') sent
        (receive step settled w sequence encoded)

  abbrev pub Delivers :
      T → (ℕ → Option (List ℕ)) → Option (Window T × Outcome (List (List ℕ))) → Type 0
  Delivers t accepted result =
      (w : Window T) × (o : Outcome (List (List ℕ))) × (result ≡ some (w, o))
      × ((sent : List (List ℕ))
          → o ≡ returned sent
          → (ps : List (List ℕ)) × Ordered step t accepted w ps sent)

  follow-Delivers :
      (t : T) (accepted accepted' : ℕ → Option (List ℕ))
      (again : Window T → List (List ℕ) → Option (Window T × Outcome (List (List ℕ))))
      (sent : List (List ℕ)) (result : Drained T)
      → Ends step t accepted sent result
      → ((w : Window T) (ps sent' : List (List ℕ))
          → Ordered step t accepted w ps sent'
          → Delivers t accepted' (again w sent'))
      → Delivers t accepted' (follow again sent result)
  follow-Delivers t accepted accepted' again sent result (w, failed fault, e, ordered) ih =
      rw e (w, failed fault, refl, λ sent' same. elim (failed≢returned same) [ ])
  follow-Delivers t accepted accepted' again sent result (w, returned out, e, ordered) ih =
      let (ps, h) = ordered out refl in rw e (ih w ps (sent ++ out.packets) h)

  receive_all-Delivers :
      (t : T) (accepted : ℕ → Option (List ℕ)) (w : Window T) (ps sent : List (List ℕ))
      (frames : List (ℕ × List ℕ))
      → Ordered step t accepted w ps sent
      → Delivers t (packets_of accepted frames) (receive_all w frames sent)
  unfolding receive_all
  receive_all-Delivers t accepted w ps sent [] ordered = (
    w,
    returned sent,
    refl,
    λ sent' same. (ps, subst (λ l. Ordered step t accepted w ps l) (same_result same) ordered),
  )
  receive_all-Delivers t accepted w ps sent ((sequence, encoded) ∷ frames) ordered =
      follow-Delivers t (noted sequence (payload_packet encoded) accepted) _
        (λ w' sent'. receive_all w' frames sent') sent _
        (receive-Ends step settled t accepted sent w ps ordered sequence encoded)
        (λ w' ps' sent' h.
          receive_all-Delivers t (noted sequence (payload_packet encoded) accepted) w' ps' sent'
            frames h)

  new_window-Ordered : (t : T) → Ordered step t nothing_yet (new_window t) [] []
  unfolding in_order
  new_window-Ordered t =
      ((refl, refl, tt, (omega arith, omega arith, refl, λ k has. ground arith), refl), λ k. refl)

  pub new_window-Delivers :
      (t : T) (frames : List (ℕ × List ℕ))
      → Delivers t (packets_of nothing_yet frames) (receive_all (new_window t) frames [])
  new_window-Delivers t frames =
      receive_all-Delivers t nothing_yet (new_window t) [] [] frames (new_window-Ordered t)

  -- The session ended at a frame that was refused or failed, or it is in order.
  abbrev pub EndsInOrder :
      T → (ℕ → Option (List ℕ)) → Option (Window T × Outcome (List (List ℕ))) → Type 0
  EndsInOrder t accepted result =
      ((w : Window T) × (fault : Fault) × (result ≡ some (w, failed fault)))
      ⊎ ((w : Window T) × (sent : List (List ℕ)) × (ps : List (List ℕ)) × (result
            ≡ some (w, returned sent))
          × Ordered step t accepted w ps sent)

  decided :
      (t : T) (accepted : ℕ → Option (List ℕ))
      (result : Option (Window T × Outcome (List (List ℕ)))) (w : Window T)
      (o : Outcome (List (List ℕ)))
      → result ≡ some (w, o)
      → ((sent : List (List ℕ))
          → o ≡ returned sent
          → (ps : List (List ℕ)) × Ordered step t accepted w ps sent)
      → EndsInOrder t accepted result
  decided t accepted result w (failed fault) e h = inl (w, fault, e)
  decided t accepted result w (returned sent) e h =
      let (ps, ordered) = h sent refl in inr (w, sent, ps, e, ordered)

  -- A session ends, at a frame that is refused or that fails, or after its last frame: the loop never
  -- runs out of fuel. In the second case the packets that were handled are those of the frames
  -- 1, 2, … up to the first number that has not arrived, each of them once and in order, what was
  -- sent is what they made the channel send, and the other packets wait within the limits of the
  -- reorder buffer.
  pub receive_all-in_order :
      (t : T) (frames : List (ℕ × List ℕ))
      → EndsInOrder t (packets_of nothing_yet frames) (receive_all (new_window t) frames [])
  receive_all-in_order t frames =
      let (w, o, e, h) = new_window-Delivers t frames in decided t _ _ w o e h
