-- ===== src/Companion/Rules/Order/Arrival.antt =====
-- What the order in which the frames of a session arrive changes in `secureChannel.receive` of
-- internal/companion/relay.go.
use remote_davinci.Base.{
  ℕ, suc, ◌+◌, ◌≤◌, ◌<◌, ◌≡◌, refl, sym, ap, ◌∙◌, subst, Bool, false, Option, none, some, List, [],
  ◌∷◌, length, arith, is_none, inl, inr, Bool-cases, ltb,
}
use remote_davinci.Companion.Outcome.{Outcome, returned}
use remote_davinci.Companion.Reorder.{find, Window, Outgoing, new_window}
use remote_davinci.Companion.Rules.Order.Pending.{packet_at, packet_at-beyond, packet_at-below}
use remote_davinci.Companion.Rules.Order.Loop.{numbered, in_order, Ordered}
use remote_davinci.Companion.Rules.Order.Delivery.{
  packets_of, nothing_yet, receive_all, new_window-Delivers,
}
use remote_davinci.Companion.Rules.Cases.{same_some, true≢false}

numbered-next :
    (ps : List (List ℕ)) (m : List (ℕ × List ℕ)) (k : ℕ)
    → k ≡ 1 + length ps
    → find k m ≡ none
    → numbered ps m k ≡ none
numbered-next ps m k e absent = ground (arith, packet_at-beyond 1 ps k)

numbered-below :
    (ps : List (List ℕ)) (m : List (ℕ × List ℕ)) (k : ℕ)
    → 1 ≤ k
    → k < 1 + length ps
    → numbered ps m k ≡ packet_at 1 ps k
numbered-below ps m k lo hi = ground (arith, packet_at-below 1 ps k)

numbered-there :
    (ps : List (List ℕ)) (m : List (ℕ × List ℕ)) (k : ℕ)
    → 1 ≤ k
    → k < 1 + length ps
    → is_none (numbered ps m k) ≡ false
numbered-there ps m k lo hi = ground (arith, packet_at-below 1 ps k)

packet_at-head :
    (first : ℕ) (p : List ℕ) (ps : List (List ℕ)) → packet_at first (p ∷ ps) first ≡ some p
packet_at-head first p ps = ground arith

packet_at-tail :
    (first : ℕ) (p : List ℕ) (ps : List (List ℕ)) (k : ℕ)
    → suc first ≤ k
    → packet_at first (p ∷ ps) k ≡ packet_at (suc first) ps k
packet_at-tail first p ps k h = ground arith

same_packets :
    (first : ℕ) (ps qs : List (List ℕ))
    → length ps ≡ length qs
    → ((k : ℕ) → first ≤ k → k < first + length ps → packet_at first ps k ≡ packet_at first qs k)
    → ps ≡ qs
same_packets first [] [] len h = refl
same_packets first [] (q ∷ qs) len h = ground arith
same_packets first (p ∷ ps) [] len h = ground arith
same_packets first (p ∷ ps) (q ∷ qs) len h =
    let heads : p ≡ q = same_some (
      sym (packet_at-head first p ps)
      ∙ h first (omega arith) (omega arith)
      ∙ packet_at-head first q qs) in
    let tails : ps ≡ qs = same_packets (suc first) ps qs (omega arith) (λ k lo hi.
      sym (packet_at-tail first p ps k lo)
      ∙ h k (omega arith) (omega arith)
      ∙ packet_at-tail first q qs k lo) in
    rw heads rw tails refl

stuck :
    (accepted : ℕ → Option (List ℕ)) (n expected : ℕ)
    → 1 ≤ expected
    → accepted expected ≡ none
    → ((k : ℕ) → 1 ≤ k → k ≤ n → is_none (accepted k) ≡ false)
    → n < expected
stuck accepted n expected low missing arrived = elim (Bool-cases (ltb n expected)) [
  | inl e ↦ ground arith
  | inr e ↦ elim (true≢false (ap is_none (sym missing) ∙ arrived expected low (ground arith))) [ ]
]

module _ {T : Type 0} (step : T → List ℕ → T × Outcome Outgoing) (settled : T → Bool) (t : T) where
  abbrev pub Completes : List (ℕ × List ℕ) → Window T → List (List ℕ) → Type 0
  Completes frames w sent =
      receive_all step settled (new_window t) frames [] ≡ some (w, returned sent)

  completed :
      (frames : List (ℕ × List ℕ)) (w : Window T) (sent : List (List ℕ))
      → Completes frames w sent
      → (ps : List (List ℕ)) × Ordered step t (packets_of nothing_yet frames) w ps sent
  completed frames w sent h =
      let (w', o, e, ordered) = new_window-Delivers step settled t frames in
      let pair : (w', o) ≡ (w, returned sent) = same_some (sym e ∙ h) in
      let (ps, r) = ordered sent (ap (λ x. x.1) pair) in
      (
        ps,
        subst (λ v. Ordered step t (packets_of nothing_yet frames) v ps sent) (ap (λ x. x.0) pair)
            r,
      )

  -- If the frames 1 to `n` have arrived, in any order and among others, and no frame was refused, all
  -- of their packets were handled.
  pub receive_all-progress :
      (frames : List (ℕ × List ℕ)) (n : ℕ) (w : Window T) (sent : List (List ℕ))
      → Completes frames w sent
      → ((k : ℕ) → 1 ≤ k → k ≤ n → is_none (packets_of nothing_yet frames k) ≡ false)
      → n < w.expected_in
  receive_all-progress frames n w sent h arrived =
      let (ps, ((run, number, unique, limited, absent), all)) = completed frames w sent h in
      let missing = all w.expected_in ∙ numbered-next ps w.pending w.expected_in number absent in
      stuck (packets_of nothing_yet frames) n w.expected_in (omega arith) missing arrived

  not_shorter :
      (accepted : ℕ → Option (List ℕ)) (w : Window T) (ps qs : List (List ℕ))
      (m : List (ℕ × List ℕ))
      → w.expected_in ≡ 1 + length ps
      → find w.expected_in w.pending ≡ none
      → ((k : ℕ) → accepted k ≡ numbered ps w.pending k)
      → ((k : ℕ) → accepted k ≡ numbered qs m k)
      → length qs ≤ length ps
  not_shorter accepted w ps qs m number absent all all' =
      let missing =
        sym (all' w.expected_in)
        ∙ all w.expected_in
        ∙ numbered-next ps w.pending w.expected_in number absent in
      elim (Bool-cases (ltb (length ps) (length qs))) [
        | inl e ↦
            elim (true≢false (
              ap is_none (sym missing)
              ∙ numbered-there qs m w.expected_in (omega arith) (ground arith))) [ ]
        | inr e ↦ ground arith
      ]

  -- Two sessions whose frames are the same up to the order of arrival, and in which no frame is refused,
  -- handle the same packets in the same order: they end in the same state, expect the same number
  -- and have sent the same packets.
  pub receive_all-confluent :
      (frames frames' : List (ℕ × List ℕ)) (w w' : Window T) (sent sent' : List (List ℕ))
      → Completes frames w sent
      → Completes frames' w' sent'
      → ((k : ℕ) → packets_of nothing_yet frames k ≡ packets_of nothing_yet frames' k)
      → (w.state ≡ w'.state) × (w.expected_in ≡ w'.expected_in) × (sent ≡ sent')
  receive_all-confluent frames frames' w w' sent sent' h h' same =
      let (ps, ((run, number, unique, limited, absent), all)) = completed frames w sent h in
      let (qs, ((run', number', unique', limited', absent'), all')) =
        completed frames' w' sent' h' in
      let some_length =
        not_shorter (packets_of nothing_yet frames) w ps qs w'.pending number absent all
          (λ k. same k ∙ all' k) in
      let other_length =
        not_shorter (packets_of nothing_yet frames') w' qs ps w.pending number' absent' all'
          (λ k. sym (same k) ∙ all k) in
      let packets : ps ≡ qs = same_packets 1 ps qs (omega arith) (λ k lo hi.
        sym (numbered-below ps w.pending k lo hi)
        ∙ sym (all k)
        ∙ same k
        ∙ all' k
        ∙ numbered-below qs w'.pending k lo (omega arith)) in
      let ends : (w.state, sent) ≡ (w'.state, sent') =
        same_some (sym run ∙ ap (λ l. in_order step t l []) packets ∙ run') in
      (
        ap (λ x. x.0) ends,
        number ∙ ap (λ (l : List (List ℕ)). 1 + length l) packets ∙ sym number',
        ap (λ x. x.1) ends,
      )
