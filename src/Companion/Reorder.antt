-- ===== src/Companion/Reorder.antt =====
-- internal/companion/relay.go: `secureChannel.receive`, which puts the frames of a session in order.
-- `step` is `receivePacket` on the rest `T` of the channel and of the computer, `settled` the test
-- `sendCipher != nil && peerHello`. A number below 1 is an old one, as 0 is.
use remote_davinci.Base.{
  String, is_none, ℕ, zero, suc, ◌+◌, ◌-◌, Bool, ◌||◌, not, Option, none, some, List, [], ◌∷◌, ◌++◌,
  if◌then◌else◌, ltb, leb, ◌==◌, length,
}
use remote_davinci.Protocol.Base64.{decode, encode, bytes_eq, encoded_len}
use remote_davinci.Protocol.Parse.{max_relay_payload_bytes}
use remote_davinci.Companion.Outcome.{Outcome, returned, failed, message}

abbrev pub max_relay_reorder_frames : ℕ
max_relay_reorder_frames = 8

abbrev pub max_relay_reorder_bytes : ℕ
max_relay_reorder_bytes = 131072

-- The map `pending`.
abbrev pub find {ℓ} : {A : Type ℓ} → ℕ → List (ℕ × A) → Option A
find k [] = none
find k ((j, a) ∷ m) = if j == k then some a else find k m

unfoldable pub delete {ℓ} : {A : Type ℓ} → ℕ → List (ℕ × A) → List (ℕ × A)
delete k [] = []
delete k ((j, a) ∷ m) = let rest = delete k m in if j == k then m else (j, a) ∷ rest

-- The fields of `secureChannel` that `receive` itself uses; `state` is what `step` works on.
pub record Window (T : Type 0) : Type 0 where
  pub state : T
  pub expected_in : ℕ
  pub pending : List (ℕ × List ℕ)
  pub pending_bytes : ℕ

-- The packets to send and whether the session is ready.
pub record Outgoing : Type 0 where
  pub packets : List (List ℕ)
  pub ready : Bool

abbrev pub new_window : {T : Type 0} → T → Window T
new_window t = record { state = t; expected_in = 1; pending = []; pending_bytes = 0 }

-- The tests on the payload of a frame, in the order of the source.
unfoldable pub payload_packet : List ℕ → Option (List ℕ)
payload_packet encoded =
    if ltb (encoded_len max_relay_payload_bytes) (length encoded)
    then none
    else elim (decode encoded) [
      | none ↦ none
      | some packet ↦
          if ltb max_relay_payload_bytes (length packet) || not (bytes_eq (encode packet) encoded)
          then none
          else some packet
    ]

-- `expectedIn++` after a packet, and the next packet taken out of `pending`.
abbrev pub advance : {T : Type 0} → Window T → T → Window T
advance w t = record w { state = t; expected_in = suc w.expected_in }

abbrev pub take_next : {T : Type 0} → Window T → T → List ℕ → Window T
take_next w t next = record {
  state = t;
  expected_in = suc w.expected_in;
  pending = delete (suc w.expected_in) w.pending;
  pending_bytes = w.pending_bytes - length next;
}

abbrev pub Drained : Type 0 → Type 0
Drained T = Option (Window T × Outcome Outgoing)

-- The end of one round of the loop: `again` is the next round.
unfoldable pub next_round :
    {T : Type 0}
    → Window T
    → List (List ℕ)
    → (Window T → List ℕ → List (List ℕ) → Drained T)
    → T
    → Outgoing
    → Option (List ℕ)
    → Drained T
next_round w sent again t out none =
    some (advance w t, returned (record { packets = sent ++ out.packets; ready = out.ready }))
next_round w sent again t out (some next) = again (take_next w t next) next (sent ++ out.packets)

unfoldable pub after_step :
    {T : Type 0}
    → Window T
    → List (List ℕ)
    → (Window T → List ℕ → List (List ℕ) → Drained T)
    → T × Outcome Outgoing
    → Drained T
after_step w sent again (t, failed fault) = some (record w { state = t }, failed fault)
after_step w sent again (t, returned out) =
    next_round w sent again t out (find (suc w.expected_in) w.pending)

-- The loop of `receive`, on fuel: `sent` has the packets to send so far.
unfoldable pub drain :
    {T : Type 0} (step : T → List ℕ → T × Outcome Outgoing)
    → ℕ
    → Window T
    → List ℕ
    → List (List ℕ)
    → Drained T
drain step zero w packet sent = none
drain step (suc fuel) w packet sent =
    after_step w sent (λ w' next sent'. drain step fuel w' next sent') (step w.state packet)

abbrev pub refuse : {T : Type 0} → Window T → String → Drained T
refuse w text = some (w, failed (message text))

module _ {T : Type 0} (step : T → List ℕ → T × Outcome Outgoing) (settled : T → Bool) where
  -- A frame ahead of its turn waits, if there is room.
  unfoldable pub buffer : Window T → ℕ → List ℕ → Drained T
  buffer w sequence packet =
      if leb max_relay_reorder_frames (length w.pending)
        || ltb max_relay_reorder_bytes (w.pending_bytes + length packet)
      then refuse w "session frame reorder buffer full"
      else some (
        record w {
          pending = (sequence, packet) ∷ w.pending;
          pending_bytes = w.pending_bytes + length packet;
        },
        returned (record { packets = []; ready = settled w.state }),
      )

  unfoldable pub receive_packet_at : Window T → ℕ → Option (List ℕ) → Drained T
  receive_packet_at w sequence none = refuse w "invalid session frame payload"
  receive_packet_at w sequence (some packet) =
      if ltb w.expected_in sequence
      then buffer w sequence packet
      else drain step (suc (length w.pending)) w packet []

  -- relay.go: `secureChannel.receive`.
  unfoldable pub receive : Window T → ℕ → List ℕ → Drained T
  receive w sequence encoded =
      if ltb sequence w.expected_in
      then refuse w "old session frame sequence"
      else if not (is_none (find sequence w.pending))
      then refuse w "duplicate session frame sequence"
      else if ltb max_relay_reorder_frames (sequence - w.expected_in)
      then refuse w "session frame exceeds reorder window"
      else receive_packet_at w sequence (payload_packet encoded)
