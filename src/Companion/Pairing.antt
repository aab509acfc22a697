-- ===== src/Companion/Pairing.antt =====
-- internal/companion/pairing.go: `pairingAttempt` as a state machine. Each critical section of its mutex
-- is a function; `Step` interleaves those of the web interface (`decide` and the two halves of
-- `stop`) with the run, whose messages and cryptography are left open: a run may go on or fail.
use remote_davinci.Base.{
  ℕ, String, Bool, true, false, not, ◌||◌, ◌≡◌, Option, none, some, List, [], ◌∷◌, if◌then◌else◌,
  leb, is_empty, str_eq,
}

pub data Phase : Type 0 where
  showing_qr handshaking awaiting_approval committing expired cancelled rejected broken : Phase

abbrev pub is_awaiting : Phase → Bool
is_awaiting awaiting_approval = true
is_awaiting _ = false

-- The phases in which `stop` may cancel.
abbrev pub is_stoppable : Phase → Bool
is_stoppable showing_qr = true
is_stoppable handshaking = true
is_stoppable awaiting_approval = true
is_stoppable _ = false

-- `decision` is the channel, which holds one value; `accepted` has the decisions that `decide`
-- accepted, the last first, for the theorems only.
pub record Attempt : Type 0 where
  pub pair_id : String
  pub phase : Phase
  pub decided : Bool
  pub decision : Option Bool
  pub context_done : Bool
  pub accepted : List Bool

-- pairing.go: `newPairingAttempt`.
abbrev pub new_pairing_attempt : String → Attempt
new_pairing_attempt pair_id = record {
  pair_id = pair_id;
  phase = showing_qr;
  decided = false;
  decision = none;
  context_done = false;
  accepted = [];
}

-- pairing.go: `setState`; only the phase of the state is kept.
abbrev pub set_state : Phase → Attempt → Attempt
set_state phase a = record a { phase = phase }

-- pairing.go: `decide`, and whether it accepted the decision.
unfoldable pub decide : Bool → String → Attempt → Attempt × Bool
decide approve pair_id a =
    if is_empty pair_id || not (str_eq pair_id a.pair_id) || not (is_awaiting a.phase) || a.decided
    then (a, false)
    else (
      record a { decided = true; decision = some approve; accepted = approve ∷ a.accepted },
      true,
    )

-- pairing.go: `stop` up to the end of its critical section, and whether it goes on to cancel.
unfoldable pub stop : String → Attempt → Attempt × Bool
stop pair_id a =
    if is_empty pair_id || not (str_eq pair_id a.pair_id) || not (is_stoppable a.phase)
    then (a, false)
    else (set_state cancelled a, true)

-- The end of `stop`, or the deadline of the attempt.
abbrev pub cancel : Attempt → Attempt
cancel a = record a { context_done = true }

-- pairing.go: `beginCommit`.
unfoldable pub begin_commit : Attempt → Attempt × Bool
begin_commit a = if is_awaiting a.phase then (set_state committing a, true) else (a, false)

-- The errors that `finishWithError` tells apart.
pub data Cause : Type 0 where
  deadline_exceeded context_cancelled was_rejected other_cause : Cause

-- pairing.go: `finishWithError` at the time `now`.
unfoldable pub end_phase : Cause → ℕ → ℕ → Phase
end_phase deadline_exceeded now expires_at = expired
end_phase context_cancelled now expires_at = if leb expires_at now then expired else cancelled
end_phase was_rejected now expires_at = if leb expires_at now then expired else rejected
end_phase other_cause now expires_at = if leb expires_at now then expired else broken

abbrev pub finish_with_error : Cause → ℕ → ℕ → Attempt → Attempt
finish_with_error cause now expires_at a = set_state (end_phase cause now expires_at) a

-- Where `run` is: in `waitReady`, in the handshake, in `waitDecision`, between an approval and
-- `beginCommit`, past `beginCommit`, or at its end.
pub data Position : Type 0 where
  waiting shaking deciding approved past_begin ended : Position

pub record World : Type 0 where
  pub attempt : Attempt
  pub position : Position
  pub stopping : Bool

abbrev pub start : String → World
start pair_id = record {
  attempt = new_pairing_attempt pair_id;
  position = waiting;
  stopping = false;
}

abbrev pub is_ended : Position → Bool
is_ended ended = true
is_ended _ = false

-- The end of `waitDecision` with a decision: the context is looked at first, and `done` is the
-- phase that `finishWithError` gives if the attempt is over.
unfoldable pub take_decision : Bool → Phase → World → World
take_decision approve done w =
    let taken = record w.attempt { decision = none } in
    if w.attempt.context_done
    then record w { attempt = set_state done taken; position = ended }
    else if approve
    then record w { attempt = taken; position = approved }
    else record w { attempt = set_state rejected taken; position = ended }

-- `run` after an approval.
unfoldable pub start_commit : Phase → World → World
start_commit done w =
    let (a, began) = begin_commit w.attempt in
    if began
    then record w { attempt = a; position = past_begin }
    else record w { attempt = set_state done a; position = ended }

pub data Step (w : World) : World → Type 0 where
  decides :
      (approve : Bool) (pair_id : String)
      → Step w (record w { attempt = (decide approve pair_id w.attempt).0 })
  stops :
      (pair_id : String)
      → (stop pair_id w.attempt).1 ≡ true
      → Step w (record w { attempt = (stop pair_id w.attempt).0; stopping = true })
  cancels : w.stopping ≡ true → Step w (record w { attempt = cancel w.attempt; stopping = false })
  times_out : Step w (record w { attempt = cancel w.attempt })
  joined :
      w.position ≡ waiting
      → Step w (record w { attempt = set_state handshaking w.attempt; position = shaking })
  identified :
      w.position ≡ shaking
      → Step w (record w { attempt = set_state awaiting_approval w.attempt; position = deciding })
  takes :
      (approve : Bool) (cause : Cause) (now expires_at : ℕ)
      → w.position ≡ deciding
      → w.attempt.decision ≡ some approve
      → Step w (take_decision approve (end_phase cause now expires_at) w)
  begins :
      (now expires_at : ℕ)
      → w.position ≡ approved
      → Step w (start_commit (end_phase context_cancelled now expires_at) w)
  breaks :
      (cause : Cause) (now expires_at : ℕ)
      → is_ended w.position ≡ false
      → Step w (record w {
        attempt = finish_with_error cause now expires_at w.attempt;
        position = ended;
      })
  completes : w.position ≡ past_begin → Step w (record w { position = ended })

pub data Steps (w : World) : World → Type 0 where
  here : Steps w w
  after : {v u : World} → Steps w v → Step v u → Steps w u
