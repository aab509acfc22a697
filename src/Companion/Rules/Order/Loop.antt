-- ===== src/Companion/Rules/Order/Loop.antt =====
-- The loop of `secureChannel.receive` of internal/companion/relay.go: its fuel, and the order in which it
-- hands the waiting packets on.
use remote_davinci.Base.{
  ℕ, zero, suc, ◌+◌, ◌≤◌, ◌<◌, ◌≡◌, refl, sym, ap, ◌∙◌, subst, false, Option, none, some, List, [],
  ◌∷◌, ◌++◌, if◌then◌else◌, ◌==◌, length, arith, is_none,
}
use remote_davinci.Companion.Outcome.{Outcome, returned, failed}
use remote_davinci.Companion.Reorder.{
  find, delete, Window, Outgoing, drain, after_step, next_round, advance, take_next, Drained,
  max_relay_reorder_frames, max_relay_reorder_bytes,
}
use remote_davinci.Companion.Rules.Order.Pending.{
  packet_at, packet_at-append, packet_at-beyond, length-append, Unique, total, find-delete,
  delete-Unique, delete-kept, find-delete_self, length-delete, total-delete,
}
use remote_davinci.Companion.Rules.Cases.{same_some, none≢some, failed≢returned, same_result}

abbrev pub or_else {ℓ} : {A : Type ℓ} → Option A → Option A → Option A
or_else none y = y
or_else (some a) y = some a

append_assoc : (xs ys zs : List (List ℕ)) → (xs ++ ys) ++ zs ≡ xs ++ (ys ++ zs)
append_assoc [] ys zs = refl
append_assoc (x ∷ xs) ys zs = ap (λ l. x ∷ l) (append_assoc xs ys zs)

-- The packets that have numbers: the delivered ones from 1 on, then the waiting ones.
abbrev pub numbered : List (List ℕ) → List (ℕ × List ℕ) → ℕ → Option (List ℕ)
numbered ps m k = or_else (packet_at 1 ps k) (find k m)

abbrev pub numbered_with : List (List ℕ) → List (ℕ × List ℕ) → ℕ → List ℕ → ℕ → Option (List ℕ)
numbered_with ps m expected packet k =
    or_else (packet_at 1 ps k) (if expected == k then some packet else find k m)

pub numbered-append :
    (ps : List (List ℕ)) (m : List (ℕ × List ℕ)) (expected : ℕ) (packet : List ℕ) (k : ℕ)
    → expected ≡ 1 + length ps
    → numbered (ps ++ (packet ∷ [])) m k ≡ numbered_with ps m expected packet k
numbered-append ps m expected packet k e =
    ground (arith, packet_at-append 1 ps packet k, packet_at-beyond 1 ps k)

numbered-delete :
    (ps : List (List ℕ)) (m : List (ℕ × List ℕ)) (next_number : ℕ) (next : List ℕ) (k : ℕ)
    → Unique m
    → find next_number m ≡ some next
    → numbered_with ps (delete next_number m) next_number next k ≡ numbered ps m k
numbered-delete ps m next_number next k unique has =
    ground (arith, find-delete next_number k m unique)

-- The reference goes on with the next packet, unless one failed.
abbrev pub go_on :
    {T : Type 0}
    → (T → List (List ℕ) → Option (T × List (List ℕ)))
    → List (List ℕ)
    → T × Outcome Outgoing
    → Option (T × List (List ℕ))
go_on again sent (t, failed fault) = none
go_on again sent (t, returned out) = again t (sent ++ out.packets)

below_zero : {n : ℕ} → n < 0 → ⊥
below_zero h = omega arith

count_up :
    (ps : List (List ℕ)) (p : List ℕ) (n : ℕ)
    → n ≡ 1 + length ps
    → suc n ≡ 1 + length (ps ++ (p ∷ []))
count_up ps p n h = rw (length-append ps p) omega arith

go_on-some :
    {T : Type 0} (again longer : T → List (List ℕ) → Option (T × List (List ℕ)))
    (sent : List (List ℕ)) (r : T × Outcome Outgoing) {x y : T × List (List ℕ)}
    → ((t : T) (sent' : List (List ℕ)) → again t sent' ≡ some x → longer t sent' ≡ some y)
    → go_on again sent r ≡ some x
    → go_on longer sent r ≡ some y
go_on-some again longer sent (t, failed fault) ih h = elim (none≢some h) [ ]
go_on-some again longer sent (t, returned out) ih h = ih t (sent ++ out.packets) h

module _ {T : Type 0} (step : T → List ℕ → T × Outcome Outgoing) where
  -- The reference: the packets one after the other, without numbers, with what is sent so far.
  unfoldable pub in_order : T → List (List ℕ) → List (List ℕ) → Option (T × List (List ℕ))
  in_order t [] sent = some (t, sent)
  in_order t (p ∷ ps) sent = go_on (λ t' sent'. in_order t' ps sent') sent (step t p)

  in_order-append :
      (t : T) (ps : List (List ℕ)) (sent : List (List ℕ)) (p : List ℕ) (t1 t2 : T)
      (sent1 : List (List ℕ)) (out : Outgoing)
      → in_order t ps sent ≡ some (t1, sent1)
      → step t1 p ≡ (t2, returned out)
      → in_order t (ps ++ (p ∷ [])) sent ≡ some (t2, sent1 ++ out.packets)
  unfolding in_order
  in_order-append t [] sent p t1 t2 sent1 out h e =
      subst (λ (x : T × List (List ℕ)). in_order x.0 (p ∷ []) x.1 ≡ some (t2, sent1 ++ out.packets))
        (sym (same_some h)) (rw e refl)
  in_order-append t (q ∷ ps) sent p t1 t2 sent1 out h e =
      go_on-some _ _ sent (step t q)
        (λ t' sent' k. in_order-append t' ps sent' p t1 t2 sent1 out k e) h

  -- A window in order: `ps` are the packets that were delivered, `sent` what they made the channel
  -- send, and `accepted` all frames that were accepted, each with its number. The packets that wait
  -- are ahead of their turn and within the limits.
  abbrev pub Limited : Window T → Type 0
  Limited w =
      (length w.pending ≤ max_relay_reorder_frames)
      × (w.pending_bytes ≤ max_relay_reorder_bytes)
      × (w.pending_bytes ≡ total w.pending)
      × ((k : ℕ)
          → is_none (find k w.pending) ≡ false
          → k ≤ w.expected_in + max_relay_reorder_frames)

  abbrev pub Held : T → Window T → List (List ℕ) → List (List ℕ) → Type 0
  Held t w ps sent =
      (in_order t ps [] ≡ some (w.state, sent))
      × (w.expected_in ≡ 1 + length ps)
      × Unique w.pending
      × Limited w
      × (find w.expected_in w.pending ≡ none)

  abbrev pub Ordered : T → (ℕ → Option (List ℕ)) → Window T → List (List ℕ) → List (List ℕ) → Type 0
  Ordered t accepted w ps sent = Held t w ps sent × ((k : ℕ) → accepted k ≡ numbered ps w.pending k)

  -- The same with the packet that is next in hand.
  abbrev pub InHand :
      T → (ℕ → Option (List ℕ)) → Window T → List ℕ → List (List ℕ) → List (List ℕ) → Type 0
  InHand t accepted w packet ps sent =
      Held t w ps sent × ((k : ℕ) → accepted k ≡ numbered_with ps w.pending w.expected_in packet k)

  -- The loop ends, and if no packet fails, it leaves the window in order.
  abbrev pub Ends : T → (ℕ → Option (List ℕ)) → List (List ℕ) → Drained T → Type 0
  Ends t accepted before result =
      (w : Window T) × (o : Outcome Outgoing) × (result ≡ some (w, o))
      × ((out : Outgoing)
          → o ≡ returned out
          → (ps : List (List ℕ)) × Ordered t accepted w ps (before ++ out.packets))

  module _ (t : T) (accepted : ℕ → Option (List ℕ)) (before : List (List ℕ)) where
    stepped :
        (w : Window T) (packet : List ℕ) (ps sent : List (List ℕ)) (t' : T) (out : Outgoing)
        → in_order t ps [] ≡ some (w.state, before ++ sent)
        → step w.state packet ≡ (t', returned out)
        → in_order t (ps ++ (packet ∷ [])) [] ≡ some (t', before ++ (sent ++ out.packets))
    stepped w packet ps sent t' out h e =
        rw (sym (append_assoc before sent out.packets))
          (in_order-append t ps [] packet w.state t' (before ++ sent) out h e)

    last_round :
        (w : Window T) (packet : List ℕ) (ps sent : List (List ℕ)) (t' : T) (out : Outgoing)
        → InHand t accepted w packet ps (before ++ sent)
        → step w.state packet ≡ (t', returned out)
        → find (suc w.expected_in) w.pending ≡ none
        → Ordered t accepted (advance w t') (ps ++ (packet ∷ [])) (before ++ (sent ++ out.packets))
    last_round w packet ps sent t' out ((run, number, unique, (few, small, sum, near), absent), all)
          e none_next =
        (
          (
            stepped w packet ps sent t' out run e,
            count_up ps packet w.expected_in number,
            unique,
            (few, small, sum, λ k has. let below = near k has in omega arith),
            none_next,
          ),
          λ k. all k ∙ sym (numbered-append ps w.pending w.expected_in packet k number),
        )

    middle_round :
        (w : Window T) (packet next : List ℕ) (ps sent : List (List ℕ)) (t' : T) (out : Outgoing)
        → InHand t accepted w packet ps (before ++ sent)
        → step w.state packet ≡ (t', returned out)
        → find (suc w.expected_in) w.pending ≡ some next
        → InHand t accepted
            (take_next w t' next)
            next
            (ps ++ (packet ∷ []))
            (before ++ (sent ++ out.packets))
    middle_round w packet next ps sent t' out
          ((run, number, unique, (few, small, sum, near), absent), all) e has_next =
        let e' : ℕ = suc w.expected_in in
        let shorter = length-delete e' w.pending next has_next in
        let lighter = total-delete e' w.pending next has_next in
        (
          (
            stepped w packet ps sent t' out run e,
            count_up ps packet w.expected_in number,
            delete-Unique e' w.pending unique,
            (
              omega arith,
              omega arith,
              omega arith,
              λ k has. let below = near k (delete-kept e' k w.pending unique has) in omega arith,
            ),
            find-delete_self e' w.pending unique,
          ),
          λ k.
              all k
              ∙ sym (numbered-append ps w.pending w.expected_in packet k number)
              ∙ sym (numbered-delete (ps ++ (packet ∷ [])) w.pending e' next k unique has_next),
        )

    -- The rounds that follow, on fewer waiting packets, end in order.
    abbrev Follows : (Window T → List ℕ → List (List ℕ) → Drained T) → ℕ → Type 0
    Follows again n =
        (w : Window T) (next : List ℕ) (ps sent : List (List ℕ))
        → length w.pending < n
        → InHand t accepted w next ps (before ++ sent)
        → Ends t accepted before (again w next sent)

    next_round-Ends :
        (w : Window T) (packet : List ℕ) (ps sent : List (List ℕ))
        (again : Window T → List ℕ → List (List ℕ) → Drained T)
        → InHand t accepted w packet ps (before ++ sent)
        → Follows again (length w.pending)
        → (t' : T) (out : Outgoing) → step w.state packet ≡ (t', returned out)
        → (o : Option (List ℕ)) → find (suc w.expected_in) w.pending ≡ o
        → Ends t accepted before (next_round w sent again t' out o)
    unfolding next_round
    next_round-Ends w packet ps sent again hand ih t' out e none absent = (
      advance w t',
      returned (record { packets = sent ++ out.packets; ready = out.ready }),
      refl,
      λ out' same. (
        ps ++ (packet ∷ []),
        subst
            (λ (o : Outgoing).
              Ordered t accepted (advance w t') (ps ++ (packet ∷ [])) (before ++ o.packets))
            (same_result same) (last_round w packet ps sent t' out hand e absent),
      ),
    )
    next_round-Ends w packet ps sent again hand ih t' out e (some next) has =
        let shorter = length-delete (suc w.expected_in) w.pending next has in
        ih (take_next w t' next) next (ps ++ (packet ∷ [])) (sent ++ out.packets) (omega arith)
          (middle_round w packet next ps sent t' out hand e has)

    after_step-Ends :
        (w : Window T) (packet : List ℕ) (ps sent : List (List ℕ))
        (again : Window T → List ℕ → List (List ℕ) → Drained T)
        → InHand t accepted w packet ps (before ++ sent)
        → Follows again (length w.pending)
        → (r : T × Outcome Outgoing) → step w.state packet ≡ r
        → Ends t accepted before (after_step w sent again r)
    unfolding after_step
    after_step-Ends w packet ps sent again hand ih (t', failed fault) e =
        (record w { state = t' }, failed fault, refl, λ out same. elim (failed≢returned same) [ ])
    after_step-Ends w packet ps sent again hand ih (t', returned out) e =
        next_round-Ends w packet ps sent again hand ih t' out e _ refl

    pub drain-Ends :
        (fuel : ℕ) (w : Window T) (packet : List ℕ) (ps sent : List (List ℕ))
        → length w.pending < fuel
        → InHand t accepted w packet ps (before ++ sent)
        → Ends t accepted before (drain step fuel w packet sent)
    unfolding drain
    drain-Ends zero w packet ps sent enough hand = elim (below_zero enough) [ ]
    drain-Ends (suc fuel) w packet ps sent enough hand =
        after_step-Ends w packet ps sent (λ w' next sent'. drain step fuel w' next sent') hand
          (λ w' next ps' sent' fewer hand'. drain-Ends fuel w' next ps' sent' (omega arith) hand')
          (step w.state packet) refl
