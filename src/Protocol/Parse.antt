-- ===== src/Protocol/Parse.antt =====
-- protocol/validate.go: `parse` and the parsers over it, with `ValidatePairingInviteAt` and the key
-- helpers of protocol/protocol.go.
use remote_davinci.Base.{
  ℕ, ◌-◌, ◌==◌, String, Bool, false, ◌&&◌, ◌||◌, not, Option, none, some, List, [], ◌∷◌, ◌++◌,
  if◌then◌else◌, ltb, leb, length, codes, str_eq, is_empty, contains,
}
use remote_davinci.Protocol.{ErrorCode, role_eq}
use remote_davinci.Protocol.Base64.{canonical_base64url, encode, bytes_eq}
use remote_davinci.Protocol.Json.{
  Json, text, object, number, member, numbers_within_limits, normalize_integers, Fields,
}
use remote_davinci.Protocol.Wire.{
  Parsed, parsed, ◌>>=◌, ◌>>◌, require, given, Schema, client_schema, server_schema,
  rendezvous_schema, control_schema, pairing_schema, pairing_invite_schema, Envelope,
  PairingIdentityBody, PairingInvite, Wire,
}

abbrev pub max_websocket_frame_bytes : ℕ
max_websocket_frame_bytes = 32768

abbrev pub max_relay_payload_bytes : ℕ
max_relay_payload_bytes = 16384

abbrev pub max_control_plaintext_bytes : ℕ
max_control_plaintext_bytes = 16368

abbrev pub max_pairing_plaintext_bytes : ℕ
max_pairing_plaintext_bytes = 8140

abbrev pub max_pairing_invite_bytes : ℕ
max_pairing_invite_bytes = 2048

abbrev pub protocol_name : String
protocol_name = "remote-davinci.rendezvous"

abbrev pub protocol_names : List String
protocol_names =
    protocol_name ∷ "remote-davinci.control" ∷ "remote-davinci.pairing"
    ∷ "remote-davinci.pairing-invite" ∷ []

abbrev pub is_text : (String → Bool) → Option Json → Bool
is_text test (some (text s)) = test s
is_text test _ = false

-- `fmt.Sprint(version) != "1"`: the text "1" and the number that is written 1.
abbrev pub prints_one : Json → Bool
prints_one (text s) = str_eq s "1"
prints_one (number literal) = bytes_eq literal (49 ∷ [])
prints_one _ = false

-- validate.go: `unsupportedVersion`.
unfoldable pub unsupported_version : Json → Bool
unsupported_version (object fields) = elim (member "v" fields) [
  | none ↦ false
  | some version ↦
      is_text (λ s. contains s protocol_names) (member "protocol" fields)
      && not (prints_one version)
]
unsupported_version _ = false

abbrev pub is_relay_frame : Fields → Bool
is_relay_frame fields =
    is_text (λ s. str_eq s protocol_name) (member "protocol" fields)
    && is_text (λ s. str_eq s "pair.frame" || str_eq s "session.frame") (member "type" fields)

abbrev pub check_payload : String → Parsed (Unit {0})
check_payload payload = do
  decoded ← given (canonical_base64url (codes payload)) ErrorCode.invalid_message
  require (leb (length decoded) max_relay_payload_bytes) ErrorCode.payload_too_large

abbrev pub body_payload : Fields → Option String
body_payload fields = elim (member "body" fields) [
  | some (object body) ↦ elim (member "payload" body) [ some (text s) ↦ some s | _ ↦ none ]
  | _ ↦ none
]

-- validate.go: `preflightFramePayload`. The base64 test rejects a payload that is not ASCII.
unfoldable pub preflight_frame_payload : Json → Parsed (Unit {0})
preflight_frame_payload (object fields) =
    if is_relay_frame fields
    then elim (body_payload fields) [ none ↦ parsed tt | some payload ↦ check_payload payload ]
    else parsed tt
preflight_frame_payload _ = parsed tt

-- What the callers hand over: bytes or text, or an invite that is written as JSON first.
pub data Input : Type 0 where
  raw : List ℕ → Input
  invite_value : PairingInvite → Input

module _ (wire : Wire) where
  -- validate.go: `inputJSON`.
  abbrev pub input_json : Input → Option (List ℕ)
  input_json (raw bytes) = some bytes
  input_json (invite_value invite) = wire.marshal_invite invite

  abbrev pub schema_failure : Json → ErrorCode
  schema_failure value =
      if unsupported_version value then ErrorCode.unsupported_version else ErrorCode.invalid_message

  -- validate.go: `parse`.
  unfoldable pub parse : Schema → ℕ → Input → Parsed (List ℕ)
  parse schema max_bytes input = do
    bytes ← given (input_json input) ErrorCode.invalid_message
    require (leb (length bytes) max_bytes) ErrorCode.payload_too_large
    value ← given (wire.unmarshal_json bytes) ErrorCode.invalid_message
    require (numbers_within_limits value) ErrorCode.invalid_message
    preflight_frame_payload value
    require (wire.valid schema value) (schema_failure value)
    given (wire.marshal_json (normalize_integers value)) ErrorCode.invalid_message

  -- validate.go: `rendezvousSemantics`.
  abbrev pub check_commit : Envelope → Parsed (Unit {0})
  check_commit envelope = do
    body ← given (wire.decode_pair_commit envelope.body) ErrorCode.invalid_message
    require
        (not (
          str_eq body.self.endpoint_id body.peer.endpoint_id
          || role_eq body.self.role body.peer.role))
        ErrorCode.invalid_message

  unfoldable pub rendezvous_semantics : Envelope → Parsed (Unit {0})
  rendezvous_semantics envelope =
      if str_eq envelope.type "pair.commit" then check_commit envelope else parsed tt

  unfoldable pub parse_envelope : Schema → List ℕ → Parsed Envelope
  parse_envelope schema input = do
    bytes ← parse schema max_websocket_frame_bytes (raw input)
    envelope ← given (wire.decode_envelope bytes) ErrorCode.invalid_message
    rendezvous_semantics envelope
    parsed envelope

  -- validate.go: `ParseClient`, `ParseServer`, `ParseRendezvous`.
  abbrev pub parse_client : List ℕ → Parsed Envelope
  parse_client = parse_envelope client_schema

  abbrev pub parse_server : List ℕ → Parsed Envelope
  parse_server = parse_envelope server_schema

  abbrev pub parse_rendezvous : List ℕ → Parsed Envelope
  parse_rendezvous = parse_envelope rendezvous_schema

  abbrev pub check_request : Envelope → Parsed (Unit {0})
  check_request envelope = do
    body ← given (wire.decode_control_request envelope.body) ErrorCode.invalid_message
    require (leb body.sent_at body.expires_at) ErrorCode.invalid_message

  -- validate.go: `ParseControl`.
  unfoldable pub parse_control : List ℕ → Parsed Envelope
  parse_control input = do
    bytes ← parse control_schema max_control_plaintext_bytes (raw input)
    envelope ← given (wire.decode_envelope bytes) ErrorCode.invalid_message
    if str_eq envelope.type "request" then check_request envelope else parsed tt
    parsed envelope

  -- protocol.go: `NoiseKeyFingerprint` without the prefix "sha256:", as the bytes of its text.
  unfoldable pub noise_key_fingerprint : String → Parsed (List ℕ)
  noise_key_fingerprint noise_key = do
    key ← given (canonical_base64url (codes noise_key)) ErrorCode.invalid_message
    require (length key == 32) ErrorCode.invalid_message
    parsed (codes "sha256:" ++ encode (wire.sha256 key))

  -- protocol.go: `JoinTokenHash`.
  unfoldable pub join_token_hash : String → Parsed (List ℕ)
  join_token_hash join_token = do
    token ← given (canonical_base64url (codes join_token)) ErrorCode.invalid_message
    require (length token == 32) ErrorCode.invalid_message
    parsed (encode (wire.sha256 token))

  -- validate.go: `ParsePairing`.
  unfoldable pub parse_pairing : List ℕ → Parsed PairingIdentityBody
  parse_pairing input = do
    bytes ← parse pairing_schema max_pairing_plaintext_bytes (raw input)
    body ← given (wire.decode_identity bytes) ErrorCode.invalid_message
    fingerprint ← noise_key_fingerprint body.noise_key
    require (bytes_eq fingerprint (codes body.noise_fingerprint)) ErrorCode.invalid_message
    parsed body

  -- protocol.go: `validRelayURL`.
  unfoldable pub valid_relay_url : String → Bool
  valid_relay_url value = elim (wire.parse_url value) [
    | none ↦ false
    | some url ↦
        str_eq url.scheme "wss"
        && not (is_empty url.host)
        && not url.has_user
        && is_empty url.raw_query
        && is_empty url.fragment
        && str_eq url.printed value
  ]

  abbrev pub is_key : String → Bool
  is_key value = elim (canonical_base64url (codes value)) [
    | none ↦ false
    | some key ↦ length key == 32
  ]

  -- validate.go: `ParsePairingInvite`.
  unfoldable pub parse_pairing_invite : Input → Parsed PairingInvite
  parse_pairing_invite input = do
    bytes ← parse pairing_invite_schema max_pairing_invite_bytes input
    invite ← given (wire.decode_invite bytes) ErrorCode.invalid_message
    require
        (valid_relay_url invite.relay_url
          && is_key invite.join_token
          && is_key invite.psk
          && not (str_eq invite.join_token invite.psk))
        ErrorCode.invalid_message
    parsed invite

  -- protocol.go: `ValidatePairingInviteAt`; the clock is not before 1970.
  unfoldable pub validate_pairing_invite_at : PairingInvite → ℕ → Parsed (Unit {0})
  validate_pairing_invite_at invite now = do
    checked ← parse_pairing_invite (invite_value invite)
    require (ltb now invite.expires_at && leb (invite.expires_at - now) 360) ErrorCode.pair_expired
