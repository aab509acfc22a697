-- ===== src/Companion/Frames.antt =====
-- internal/companion/pairing.go: `nextPairPacket`, which puts the frames of a pairing attempt in order. A
-- message is an envelope that `nextPairingServerMessage` returned or its error; `decode` is
-- `DecodeBody`. A number below 1 is an old one, as 0 is.
use remote_davinci.Base.{
  ℕ, suc, ◌+◌, ◌-◌, String, not, ◌||◌, Option, none, some, List, [], ◌∷◌, if◌then◌else◌, leb, ltb,
  ◌==◌, length, is_none, str_eq,
}
use remote_davinci.Protocol.Wire.{Envelope}
use remote_davinci.Companion.Outcome.{message, Outcome, returned, failed}
use remote_davinci.Companion.Reorder.{
  find, delete, payload_packet, max_relay_reorder_frames, max_relay_reorder_bytes,
}

pub record PairFrame : Type 0 where
  pub pair_id : String
  pub seq : ℕ
  pub payload : List ℕ

-- The fields `nextIn`, `pending` and `pendingBytes` of `pairingAttempt`.
pub record Frames : Type 0 where
  pub next_in : ℕ
  pub pending : List (ℕ × List ℕ)
  pub pending_bytes : ℕ

abbrev pub new_frames : Frames
new_frames = record { next_in = 1; pending = []; pending_bytes = 0 }

-- The fields after a message, and the end of the call if it ends with the message.
abbrev pub Answer : Type 0
Answer = Frames × Option (Outcome (List ℕ))

-- `result` is `none` while the call waits for another message, `rest` has the messages not read.
pub record Got : Type 0 where
  pub frames : Frames
  pub result : Option (Outcome (List ℕ))
  pub rest : List (Outcome Envelope)

unfoldable pub non_empty : List ℕ → Option (List ℕ)
non_empty [] = none
non_empty (b ∷ bytes) = some (b ∷ bytes)

-- The tests on the payload: those of a session frame, and it is not empty.
unfoldable pub pair_packet : List ℕ → Option (List ℕ)
pair_packet encoded = elim (payload_packet encoded) [ none ↦ none | some packet ↦ non_empty packet ]

abbrev pub stop_with : Frames → String → Answer
stop_with f text = (f, some (failed (message text)))

abbrev pub passed : Frames → Frames
passed f = record f { next_in = suc f.next_in }

abbrev pub keep : Frames → ℕ → List ℕ → Frames
keep f seq packet = record f {
  pending = (seq, packet) ∷ f.pending;
  pending_bytes = f.pending_bytes + length packet;
}

unfoldable pub place : ℕ → Frames → ℕ → Option (List ℕ) → Answer
place sequence f seq none = stop_with f "invalid pairing frame payload"
place sequence f seq (some packet) =
    if seq == sequence
    then (passed f, some (returned packet))
    else if leb max_relay_reorder_frames (length f.pending)
        || ltb max_relay_reorder_bytes (f.pending_bytes + length packet)
    then stop_with f "pairing frame reorder buffer full"
    else (keep f seq packet, none)

unfoldable pub pair_frame : String → ℕ → Frames → Option PairFrame → Answer
pair_frame pair_id sequence f none = stop_with f "unexpected pairing frame"
pair_frame pair_id sequence f (some frame) =
    if not (str_eq frame.pair_id pair_id) || ltb frame.seq sequence
    then stop_with f "unexpected pairing frame"
    else if not (is_none (find frame.seq f.pending))
        || ltb max_relay_reorder_frames (frame.seq - sequence)
    then stop_with f "unexpected pairing frame"
    else place sequence f frame.seq (pair_packet frame.payload)

abbrev pub after_message : (Frames → Got) → List (Outcome Envelope) → Answer → Got
after_message again rest (f, none) = again f
after_message again rest (f, some result) = record { frames = f; result = some result; rest = rest }

-- A packet that waits is taken out of `pending`.
abbrev pub take_waiting : Frames → ℕ → List ℕ → Frames
take_waiting f sequence packet = record {
  next_in = suc f.next_in;
  pending = delete sequence f.pending;
  pending_bytes = f.pending_bytes - length packet;
}

module _ (decode : List ℕ → Option PairFrame) (pair_id : String) where
  unfoldable pub pair_message : ℕ → Frames → Outcome Envelope → Answer
  pair_message sequence f (failed fault) = (f, some (failed fault))
  pair_message sequence f (returned envelope) =
      if str_eq envelope.type "pair.frame"
      then pair_frame pair_id sequence f (decode envelope.body)
      else if str_eq envelope.type "pair.closed" || str_eq envelope.type "error"
      then stop_with f "relay closed the pairing attempt"
      else stop_with f "unexpected relay message during pairing"

  -- The loop of `nextPairPacket` over the messages that come.
  unfoldable pub read_packet : ℕ → Frames → List (Outcome Envelope) → Got
  read_packet sequence f [] = record { frames = f; result = none; rest = [] }
  read_packet sequence f (m ∷ ms) =
      after_message (λ f'. read_packet sequence f' ms) ms (pair_message sequence f m)

  unfoldable pub taken_or_read : ℕ → Frames → List (Outcome Envelope) → Option (List ℕ) → Got
  taken_or_read sequence f ms none = read_packet sequence f ms
  taken_or_read sequence f ms (some packet) = record {
    frames = take_waiting f sequence packet;
    result = some (returned packet);
    rest = ms;
  }

  -- pairing.go: `nextPairPacket`.
  unfoldable pub next_pair_packet : ℕ → Frames → List (Outcome Envelope) → Got
  next_pair_packet sequence f ms =
      if not (sequence == f.next_in)
      then record {
        frames = f;
        result = some (failed (message "unexpected pairing frame sequence"));
        rest = ms;
      }
      else taken_or_read sequence f ms (find sequence f.pending)
