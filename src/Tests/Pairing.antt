-- ===== src/Tests/Pairing.antt =====
-- The theorems on pairing attempts and on stored configurations of internal/companion at concrete inputs.
use remote_davinci.Base.{
  suc, zero, arith, ◌≡◌, ◌≢◌, refl, true, false, Option, none, some, [], ◌∷◌, inl,
}
use remote_davinci.Protocol.Base64.{decode, sextets, without_breaks, bytes_of, encode}
use remote_davinci.Companion.Rules.Cases.{none≢some}
use remote_davinci.Companion.Outcome.{returned}
use remote_davinci.Companion.Config.{Config}
use remote_davinci.Companion.Storage.{Loaded, found, not_exist}
use remote_davinci.Companion.Pairing.{
  committing, cancelled, Attempt, decide, begin_commit, take_decision, start_commit, World, start,
  past_begin, deciding, ended, Steps, here, after, joined, identified, decides, takes, begins,
  cancels, breaks, other_cause, end_phase,
}
use remote_davinci.Companion.Rules.Decision.{steps-approved}
use remote_davinci.Companion.Rules.Approval.{steps-uncommitted}
use remote_davinci.Companion.Rules.Migration.{Storing, Held, migrated, migrate_config_store-Held}
use remote_davinci.Base.{ℕ, List}
use remote_davinci.Protocol.Wire.{Envelope}
use remote_davinci.Companion.Outcome.{Outcome}
use remote_davinci.Companion.Frames.{
  PairFrame, new_frames, next_pair_packet, pair_packet, non_empty, place, pair_frame, pair_message,
  read_packet, taken_or_read,
}
use remote_davinci.Companion.Reorder.{payload_packet}
use remote_davinci.Companion.Rules.Delivered.{Arrived, Sound, next_pair_packet-Arrived}

-- The controller joins, its identity comes, the user approves, and the commit begins.
abbrev approved_attempt : Attempt
approved_attempt = record {
  pair_id = "p";
  phase = committing;
  decided = true;
  decision = none;
  context_done = false;
  accepted = true ∷ [];
}

abbrev begun : World
begun = record { attempt = approved_attempt; position = past_begin; stopping = false }

begun_steps : Steps (start "p") begun
unfolding decide take_decision start_commit begin_commit
begun_steps =
    after
      (after (after (after (after here (joined refl)) (identified refl)) (decides true "p"))
        (takes true other_cause 10 300 refl refl))
      (begins 10 300 refl)

steps-approved_example : approved_attempt.accepted ≡ true ∷ []
steps-approved_example = steps-approved "p" begun begun_steps refl

-- The user stops the attempt while it awaits the approval; the run then breaks off.
abbrev stopped_attempt : Attempt
stopped_attempt = record {
  pair_id = "p";
  phase = cancelled;
  decided = false;
  decision = none;
  context_done = false;
  accepted = [];
}

abbrev stopped : World
stopped = record { attempt = stopped_attempt; position = deciding; stopping = true }

abbrev broken_off : World
broken_off = record {
  attempt = record stopped_attempt { context_done = true; phase = end_phase other_cause 10 300 };
  position = ended;
  stopping = false;
}

steps-uncommitted_example : broken_off.position ≢ past_begin
unfolding end_phase
steps-uncommitted_example =
    steps-uncommitted stopped broken_off
      (after (after here (cancels refl)) (breaks other_cause 10 300 refl)) refl

-- Two stores in memory: the legacy record and the one of the Keychain.
abbrev Stores : Type 0
Stores = Option Config × Option Config

abbrev loaded : Option Config → Loaded
loaded none = not_exist
loaded (some c) = found c

loaded-found : (o : Option Config) (c : Config) → loaded o ≡ found c → o ≡ some c
loaded-found none c h = cc h
loaded-found (some d) c h = cc h

loaded-missing : (o : Option Config) → loaded o ≡ not_exist → o ≡ none
loaded-missing none h = refl
loaded-missing (some d) h = cc h

abbrev in_memory : Storing Stores
in_memory = record {
  legacy = record {
    load = λ (s : Stores). (s, loaded s.0);
    save = λ (s : Stores) c. ((some c, s.1), none);
    delete = λ (s : Stores). ((none, s.1), none);
  };
  keychain = record {
    load = λ (s : Stores). (s, loaded s.1);
    save = λ (s : Stores) c. ((s.0, some c), none);
    delete = λ (s : Stores). ((s.0, none), none);
  };
  legacy_of = λ (s : Stores). s.0;
  keychain_of = λ (s : Stores). s.1;
  legacy_load-kept = λ s. (refl, refl);
  keychain_load-kept = λ s. (refl, refl);
  legacy_load-found = λ s c h. loaded-found s.0 c h;
  keychain_load-found = λ s c h. loaded-found s.1 c h;
  keychain_load-missing = λ s h. loaded-missing s.1 h;
  keychain_save-kept = λ s c. refl;
  legacy_delete-kept = λ s. refl;
}

abbrev stored : Config
stored = record {
  v = 1;
  relay_url = "wss://relay.example/v1";
  link_id = "l";
  endpoint_id = "e";
  secret = "s";
  noise_private_key = "n";
  controller_endpoint_id = "c";
  controller_noise_key = "k";
  controller_fingerprint = "";
  controller_label = "iPad";
  permission_mask = 1;
  activation_pending = false;
  link_revoked = false;
}

migrate_config_store-Held_example :
    Held in_memory
      (λ _. returned tt)
      stored
      (migrated in_memory (λ _. returned tt) stored (some stored, none))
migrate_config_store-Held_example =
    migrate_config_store-Held in_memory (λ _. returned tt) stored (some stored, none) (inl refl)

-- Frame 2 comes before frame 1; the payloads are the encodings of the bytes 2 and 1.
abbrev decode_pair_frame : List ℕ → Option PairFrame
decode_pair_frame [] = none
decode_pair_frame (suc zero ∷ rest) =
    some (record { pair_id = "p"; seq = 1; payload = 65 ∷ 81 ∷ [] })
decode_pair_frame (n ∷ rest) = some (record { pair_id = "p"; seq = 2; payload = 65 ∷ 103 ∷ [] })

abbrev pair_frame_envelope : ℕ → Outcome Envelope
pair_frame_envelope n =
    returned (record { type = "pair.frame"; id = "m"; reply_to = ""; body = n ∷ [] })

abbrev pair_messages : List (Outcome Envelope)
pair_messages = pair_frame_envelope 2 ∷ pair_frame_envelope 1 ∷ []

new_frames-Sound : Sound decode_pair_frame "p" pair_messages new_frames
new_frames-Sound = record {
  fits = record { unique = tt; counted = refl; few = ground arith; small = ground arith };
  genuine = λ k p e. elim (none≢some e) [ ];
}

first_packet :
    (next_pair_packet decode_pair_frame "p" 1 new_frames pair_messages).result
    ≡ some (returned (1 ∷ []))
unfolding next_pair_packet taken_or_read read_packet pair_message pair_frame place pair_packet
    non_empty payload_packet decode sextets without_breaks bytes_of encode
first_packet = refl

next_pair_packet-Arrived_example :
    Arrived decode_pair_frame "p" pair_messages 1 (1 ∷ [])
    × Sound decode_pair_frame "p" pair_messages
        (next_pair_packet decode_pair_frame "p" 1 new_frames pair_messages).frames
next_pair_packet-Arrived_example =
    next_pair_packet-Arrived decode_pair_frame "p" pair_messages 1 pair_messages new_frames (1 ∷ [])
      (λ m x. x) new_frames-Sound first_packet
