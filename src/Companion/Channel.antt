-- ===== src/Companion/Channel.antt =====
-- internal/companion/relay.go: `secureChannel`. The Noise library is a parameter, and so is the
-- computer: its clock, random source, JSON encoder and command runner. The fields that `receive`
-- uses to put frames in order are those of `Window`.
use remote_davinci.Base.{
  ℕ, ◌/◌, String, Bool, false, ◌&&◌, not, Option, none, some, List, [], ◌∷◌, if◌then◌else◌, ◌==◌,
  length, is_none,
}
use remote_davinci.Protocol.{DeviceRole}
use remote_davinci.Protocol.Base64.{bytes_eq}
use remote_davinci.Protocol.Wire.{Wire}
use remote_davinci.Protocol.Parse.{parse_control}
use remote_davinci.Companion.Outcome.{message, external, Outcome, returned, failed, from_parsed}
use remote_davinci.Companion.Operations.{
  OperationResult, Command, execute_operation, resolve_page_for_operation,
}
use remote_davinci.Companion.Control.{Host, Processor, Response, handle, new_control_processor}
use remote_davinci.Companion.Permissions.{granted_permissions}
use remote_davinci.Companion.Reorder.{Window, Outgoing, Drained, receive}

-- The computer in a state `S`; the clock is in nanoseconds.
pub record Computer (S : Type 0) : Type 0 where
  pub wire : Wire
  pub decode_hello : List ℕ → Option DeviceRole
  pub marshal_response : Response → Option (List ℕ)
  pub marshal_hello : String → Option (List ℕ)
  pub marshal_page_event : String → List ℕ → Option (List ℕ)
  pub clock : S → S × ℕ
  pub random_uuid : S → S × Option String
  pub output : S → Command → S × Option (List ℕ)

-- `noise.HandshakeState` and `noise.CipherState` with the calls that the code makes; `none` is an
-- error. `write_message` returns the message, the receiving cipher and the sending one.
pub record Noise : Type 1 where
  pub Handshake : Type 0
  pub Cipher : Type 0
  pub read_message : Handshake → List ℕ → Handshake × Option (List ℕ)
  pub peer_static : Handshake → List ℕ
  pub write_message : Handshake → Handshake × Option (List ℕ × Cipher × Cipher)
  pub encrypt : Cipher → List ℕ → Cipher × Option (List ℕ)
  pub decrypt : Cipher → List ℕ → Cipher × Option (List ℕ)

-- `receiveCipher` and `sendCipher`, which are set together.
pub record Ciphers (C : Type 0) : Type 0 where
  pub incoming : C
  pub outgoing : C

pub record SecureChannel (noise : Noise) : Type 0 where
  pub session_id : String
  pub next_out : ℕ
  pub peer_key : List ℕ
  pub handshake : noise.Handshake
  pub ciphers : Option (Ciphers noise.Cipher)
  pub processor : Processor
  pub last_page_command_at : ℕ
  pub last_resolve_page : List ℕ

-- relay.go: `newSecureChannel` once the handshake state is there, with the number that the first
-- packet it sends gets.
abbrev pub new_secure_channel :
    (noise : Noise) → String → List ℕ → noise.Handshake → ℕ → SecureChannel noise
new_secure_channel noise session_id peer_key handshake permission_mask = record {
  session_id = session_id;
  next_out = 1;
  peer_key = peer_key;
  handshake = handshake;
  ciphers = none;
  processor = new_control_processor (granted_permissions permission_mask);
  last_page_command_at = 0;
  last_resolve_page = [];
}

module _ {S : Type 0} (computer : Computer S) where
  -- relay.go: `recordSuccessfulPageCommand`.
  unfoldable pub record_successful_page_command : ℕ → String → ℕ → ℕ
  record_successful_page_command last operation completed_at =
      if is_none (resolve_page_for_operation operation) then last else completed_at

  -- The function that `newSecureChannel` gives to the processor.
  unfoldable pub after_operation :
      String → ℕ → S × Outcome OperationResult → (S × ℕ) × Outcome OperationResult
  after_operation operation last (s, failed fault) = ((s, last), failed fault)
  after_operation operation last (s, returned result) =
      let (after, now) = computer.clock s in
      ((after, record_successful_page_command last operation now), returned result)

  unfoldable pub execute : S × ℕ → String → (S × ℕ) × Outcome OperationResult
  execute (s, last) operation =
      after_operation operation last (execute_operation computer.output s operation)

  -- The processor's host, on the computer and the time of the last page command.
  unfoldable pub channel_host : Host (S × ℕ)
  channel_host = record {
    parse = λ plaintext. from_parsed (parse_control computer.wire plaintext);
    decode_hello = computer.decode_hello;
    decode_request = computer.wire.decode_control_request;
    marshal_response = computer.marshal_response;
    clock = λ (s, last). let (after, now) = computer.clock s in ((after, last), now / 1000000);
    random_uuid = λ (s, last). let (after, id) = computer.random_uuid s in ((after, last), id);
    execute = execute;
  }

  module _ (noise : Noise) where
    abbrev pub Step : Type 0
    Step = (S × SecureChannel noise) × Outcome Outgoing

    abbrev pub sending : List (List ℕ) → Bool → Outcome Outgoing
    sending packets ready = returned (record { packets = packets; ready = ready })

    -- `controlHello`, encrypted, follows the response of the handshake.
    unfoldable pub greet :
        S → SecureChannel noise → List ℕ → Ciphers noise.Cipher → Option (List ℕ) → Step
    greet s c response keys none = ((s, c), failed external)
    greet s c response keys (some hello) =
        let (outgoing, encrypted) = noise.encrypt keys.outgoing hello in
        let greeted = record c { ciphers = some (record keys { outgoing = outgoing }) } in
        elim encrypted [
          | none ↦ ((s, greeted), failed external)
          | some packet ↦ ((s, greeted), sending (response ∷ packet ∷ []) false)
        ]

    abbrev pub hello_bytes : Option String → Option (List ℕ)
    hello_bytes none = none
    hello_bytes (some id) = computer.marshal_hello id

    unfoldable pub answer_handshake :
        S
        → SecureChannel noise
        → noise.Handshake × Option (List ℕ × noise.Cipher × noise.Cipher)
        → Step
    answer_handshake s c (handshake, none) =
        ((s, record c { handshake = handshake }), failed external)
    answer_handshake s c (handshake, some (response, incoming, outgoing)) =
        let keys : Ciphers noise.Cipher = record { incoming = incoming; outgoing = outgoing } in
        let (after, id) = computer.random_uuid s in
        greet after (record c { handshake = handshake; ciphers = some keys }) response keys
          (hello_bytes id)

    -- The payload of the controller's handshake message is empty and its static key is the paired one.
    abbrev pub is_paired_peer : SecureChannel noise → noise.Handshake → Option (List ℕ) → Bool
    is_paired_peer c handshake none = false
    is_paired_peer c handshake (some payload) =
        (length payload == 0) && bytes_eq (noise.peer_static handshake) c.peer_key

    unfoldable pub receive_handshake : S → SecureChannel noise → List ℕ → Step
    receive_handshake s c packet =
        let (handshake, payload) = noise.read_message c.handshake packet in
        let read = record c { handshake = handshake } in
        if is_paired_peer c handshake payload
        then answer_handshake s read (noise.write_message handshake)
        else ((s, read), failed (message "controller Noise identity check failed"))

    unfoldable pub send_reply :
        S → SecureChannel noise → Ciphers noise.Cipher → Outcome (Option (List ℕ)) → Step
    send_reply s c keys (failed fault) = ((s, c), failed fault)
    send_reply s c keys (returned none) = ((s, c), sending [] c.processor.peer_hello)
    send_reply s c keys (returned (some response)) =
        let (outgoing, encrypted) = noise.encrypt keys.outgoing response in
        let sent = record c { ciphers = some (record keys { outgoing = outgoing }) } in
        elim encrypted [
          | none ↦ ((s, sent), failed external)
          | some packet ↦ ((s, sent), sending (packet ∷ []) c.processor.peer_hello)
        ]

    unfoldable pub receive_plaintext :
        S → SecureChannel noise → Ciphers noise.Cipher → Option (List ℕ) → Step
    receive_plaintext s c keys none = ((s, c), failed external)
    receive_plaintext s c keys (some plaintext) =
        let h = handle channel_host (s, c.last_page_command_at) c.processor plaintext in
        let (after, last) = h.state in
        send_reply after (record c { processor = h.processor; last_page_command_at = last }) keys
          h.reply

    unfoldable pub receive_with :
        S → SecureChannel noise → List ℕ → Option (Ciphers noise.Cipher) → Step
    receive_with s c packet none = receive_handshake s c packet
    receive_with s c packet (some keys) =
        let (incoming, plaintext) = noise.decrypt keys.incoming packet in
        let received = record keys { incoming = incoming } in
        receive_plaintext s (record c { ciphers = some received }) received plaintext

    -- relay.go: `receivePacket`.
    unfoldable pub receive_packet : S × SecureChannel noise → List ℕ → Step
    receive_packet (s, c) packet = receive_with s c packet c.ciphers

    -- `sendCipher != nil && peerHello`
    abbrev pub is_settled : S × SecureChannel noise → Bool
    is_settled (s, c) = not (is_none c.ciphers) && c.processor.peer_hello

    -- relay.go: `receive` of the whole channel.
    abbrev pub channel_receive :
        Window (S × SecureChannel noise) → ℕ → List ℕ → Drained (S × SecureChannel noise)
    channel_receive = receive receive_packet is_settled
