-- ===== src/Companion/Rules/Order/Frames.antt =====
-- The frames of a session in the order of their arrival, `secureChannel.receive` of
-- internal/companion/relay.go on one after the other, and the order in which their packets are handled.
use remote_davinci.Base.{
  ℕ, suc, ◌+◌, ◌-◌, ◌≤◌, ◌<◌, ◌≡◌, refl, sym, ap, ◌∙◌, subst, String, Bool, true, false, not,
  Option, none, some, List, [], ◌∷◌, ◌++◌, if◌then◌else◌, ◌==◌, length, arith, is_none, Bool-cases,
  inl, inr, ltb, leb, ◌||◌,
}
use remote_davinci.Companion.Outcome.{Outcome, failed, message}
use remote_davinci.Companion.Reorder.{
  find, Window, Outgoing, Drained, max_relay_reorder_frames, max_relay_reorder_bytes, receive,
  receive_packet_at, buffer, refuse, payload_packet, drain,
}
use remote_davinci.Companion.Rules.Order.Pending.{packet_at-beyond}
use remote_davinci.Companion.Rules.Order.Loop.{
  numbered, numbered_with, in_order, Ordered, Ends, drain-Ends,
}
use remote_davinci.Companion.Rules.Cases.{failed≢returned, same_result}

absent {ℓ} : {A : Type ℓ} (o : Option A) → not (is_none o) ≡ false → o ≡ none
absent none h = refl
absent (some a) h = ground arith

append_nil : (xs : List (List ℕ)) → xs ++ [] ≡ xs
append_nil [] = refl
append_nil (x ∷ xs) = ap (λ l. x ∷ l) (append_nil xs)

-- The packets by their number, when frame `sequence` has been accepted as well.
abbrev pub noted : ℕ → Option (List ℕ) → (ℕ → Option (List ℕ)) → ℕ → Option (List ℕ)
noted sequence none accepted k = accepted k
noted sequence (some packet) accepted k = if sequence == k then some packet else accepted k

numbered-waiting :
    (ps : List (List ℕ)) (m : List (ℕ × List ℕ)) (sequence : ℕ) (packet : List ℕ) (k : ℕ)
    → 1 + length ps < sequence
    → (if sequence == k then some packet else numbered ps m k)
      ≡ numbered ps ((sequence, packet) ∷ m) k
numbered-waiting ps m sequence packet k ahead = ground (arith, packet_at-beyond 1 ps k)

numbered-turn :
    (ps : List (List ℕ)) (m : List (ℕ × List ℕ)) (sequence expected : ℕ) (packet : List ℕ) (k : ℕ)
    → expected ≡ 1 + length ps
    → sequence ≡ expected
    → (if sequence == k then some packet else numbered ps m k)
      ≡ numbered_with ps m expected packet k
numbered-turn ps m sequence expected packet k e turn = ground (arith, packet_at-beyond 1 ps k)

later_apart : (a b : ℕ) → b < a → (a == b) ≡ false
later_apart a b h = ground arith

room_left :
    (count bytes more : ℕ)
    → (leb max_relay_reorder_frames count || ltb max_relay_reorder_bytes (bytes + more)) ≡ false
    → (count < max_relay_reorder_frames) × (bytes + more ≤ max_relay_reorder_bytes)
room_left count bytes more h = ground arith

near_waiting :
    (sequence limit k : ℕ) (packet : List ℕ) (m : List (ℕ × List ℕ))
    → sequence ≤ limit
    → (is_none (find k m) ≡ false → k ≤ limit)
    → is_none (if sequence == k then some packet else find k m) ≡ false
    → k ≤ limit
near_waiting sequence limit k packet m low near has = elim (Bool-cases (sequence == k)) [
  | inl e ↦ ground arith
  | inr e ↦ near (subst (λ b. is_none (if b then some packet else find k m) ≡ false) e has)
]

module _ {T : Type 0} (step : T → List ℕ → T × Outcome Outgoing) (settled : T → Bool) (t : T) where
  refuse-Ends :
      (accepted : ℕ → Option (List ℕ)) (before : List (List ℕ)) (w : Window T) (text : String)
      → Ends step t accepted before (refuse w text)
  refuse-Ends accepted before w text =
      (w, failed (message text), refl, λ out same. elim (failed≢returned same) [ ])

  module _ (accepted : ℕ → Option (List ℕ)) (before : List (List ℕ)) (w : Window T)
      (ps : List (List ℕ)) (ordered : Ordered step t accepted w ps before) where
    -- A test whose second branch may use that it failed.
    branch :
        (accepted' : ℕ → Option (List ℕ)) (b : Bool) (text : String) {x : Drained T}
        → (b ≡ false → Ends step t accepted' before x)
        → Ends step t accepted' before (if b then refuse w text else x)
    branch accepted' true text f = refuse-Ends accepted' before w text
    branch accepted' false text f = f refl

    buffer-Ends :
        (sequence : ℕ) (packet : List ℕ)
        → w.expected_in < sequence
        → sequence ≤ w.expected_in + max_relay_reorder_frames
        → find sequence w.pending ≡ none
        → Ends step t
            (noted sequence (some packet) accepted)
            before
            (buffer step settled w sequence packet)
    unfolding buffer
    buffer-Ends sequence packet ahead near new =
        let ((run, number, unique, (few, small, sum, close), absent), all) = ordered in
        let w' : Window T = record w {
          pending = (sequence, packet) ∷ w.pending;
          pending_bytes = w.pending_bytes + length packet;
        } in
        branch _
          (leb max_relay_reorder_frames (length w.pending)
            || ltb max_relay_reorder_bytes (w.pending_bytes + length packet))
          _
          (λ room.
            let (fewer, lighter) =
              room_left (length w.pending) w.pending_bytes (length packet) room in
            let filed : Ordered step t (noted sequence (some packet) accepted) w' ps
                (before ++ []) =
              (
                (
                  subst (λ l. in_order step t ps [] ≡ some (w.state, l)) (sym (append_nil before))
                      run,
                  number,
                  (new, unique),
                  (
                    omega arith,
                    lighter,
                    omega arith,
                    λ k.
                        near_waiting sequence (w.expected_in + max_relay_reorder_frames) k packet
                          w.pending near (close k),
                  ),
                  rw (later_apart sequence w.expected_in ahead) absent,
                ),
                λ k.
                    ap (λ o. if sequence == k then some packet else o) (all k)
                    ∙ numbered-waiting ps w.pending sequence packet k (omega arith),
              ) in
            (
              w',
              _,
              refl,
              λ out same. (
                ps,
                subst
                    (λ (o : Outgoing).
                      Ordered step t (noted sequence (some packet) accepted) w' ps
                        (before ++ o.packets))
                    (same_result same) filed,
              ),
            ))

    turn-Ends :
        (sequence : ℕ) (packet : List ℕ)
        → sequence ≡ w.expected_in
        → Ends step t
            (noted sequence (some packet) accepted)
            before
            (drain step (suc (length w.pending)) w packet [])
    turn-Ends sequence packet turn =
        let ((run, number, unique, limited, absent), all) = ordered in
        drain-Ends step t _ before (suc (length w.pending)) w packet ps [] (omega arith) (
          (
            subst (λ l. in_order step t ps [] ≡ some (w.state, l)) (sym (append_nil before)) run,
            number,
            unique,
            limited,
            absent,
          ),
          λ k.
              ap (λ o. if sequence == k then some packet else o) (all k)
              ∙ numbered-turn ps w.pending sequence w.expected_in packet k number turn,
        )

    receive_packet_at-Ends :
        (sequence : ℕ) (o : Option (List ℕ))
        → w.expected_in ≤ sequence
        → sequence ≤ w.expected_in + max_relay_reorder_frames
        → find sequence w.pending ≡ none
        → Ends step t
            (noted sequence o accepted)
            before
            (receive_packet_at step settled w sequence o)
    unfolding receive_packet_at
    receive_packet_at-Ends sequence none low near new = refuse-Ends _ before w _
    receive_packet_at-Ends sequence (some packet) low near new =
        elim (Bool-cases (ltb w.expected_in sequence)) [
          | inl ahead ↦ rw ahead (buffer-Ends sequence packet (ground arith) near new)
          | inr turn ↦ rw turn (turn-Ends sequence packet (ground arith))
        ]

    pub receive-Ends :
        (sequence : ℕ) (encoded : List ℕ)
        → Ends step t
            (noted sequence (payload_packet encoded) accepted)
            before
            (receive step settled w sequence encoded)
    unfolding receive
    receive-Ends sequence encoded = branch _ (ltb sequence w.expected_in) _ (λ low.
        branch _ (not (is_none (find sequence w.pending))) _ (λ new.
          branch _ (ltb max_relay_reorder_frames (sequence - w.expected_in)) _ (λ near.
            receive_packet_at-Ends sequence (payload_packet encoded) (ground arith) (ground arith)
              (absent _ new))))
