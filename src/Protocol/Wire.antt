-- ===== src/Protocol/Wire.antt =====
-- protocol/protocol.go: the wire messages that the parsers of protocol/validate.go return, the result
-- of a parser, and `Wire`, what the parsers take from libraries: the JSON codec, the compiled
-- schemas, the URL parser and SHA-256.
use remote_davinci.Base.{ℕ, String, Bool, true, false, Option, none, some, List}
use remote_davinci.Protocol.{ErrorCode, DeviceRole}
use remote_davinci.Protocol.Json.{Json}

pub data Parsed {ℓ} (A : Type ℓ) : Type ℓ where
  parsed : A → Parsed A
  refused : ErrorCode → Parsed A

infixl 5 ◌>>=◌ ◌>>◌
abbrev pub ◌>>=◌ {ℓ κ} : {A : Type ℓ} {B : Type κ} → Parsed A → (A → Parsed B) → Parsed B
parsed a >>= f = f a
refused e >>= f = refused e

abbrev pub ◌>>◌ {ℓ} : {B : Type ℓ} → Parsed (Unit {0}) → Parsed B → Parsed B
m >> n = m >>= λ _. n

abbrev pub require : Bool → ErrorCode → Parsed (Unit {0})
require true e = parsed tt
require false e = refused e

abbrev pub given {ℓ} : {A : Type ℓ} → Option A → ErrorCode → Parsed A
given none e = refused e
given (some a) e = parsed a

pub data Schema : Type 0 where
  client_schema server_schema rendezvous_schema control_schema pairing_schema : Schema
  pairing_invite_schema wormhole_schema : Schema

-- `Envelope`; the body is kept as bytes until `DecodeBody` reads it.
pub record Envelope : Type 0 where
  pub type : String
  pub id : String
  pub reply_to : String
  pub body : List ℕ

pub record ControlRequestBody : Type 0 where
  pub operation : String
  pub args : List String
  pub sent_at : ℕ
  pub expires_at : ℕ

pub record RoutedEndpoint : Type 0 where
  pub endpoint_id : String
  pub role : DeviceRole

pub record PairCommitBody : Type 0 where
  pub self : RoutedEndpoint
  pub peer : RoutedEndpoint

pub record PairingIdentityBody : Type 0 where
  pub noise_key : String
  pub noise_fingerprint : String

pub record PairingInvite : Type 0 where
  pub relay_url : String
  pub pair_id : String
  pub creator_side_id : String
  pub link_id : String
  pub join_token : String
  pub psk : String
  pub expires_at : ℕ

-- What `validRelayURL` looks at in a `url.URL`; `printed` is its `String()`.
pub record Url : Type 0 where
  pub scheme : String
  pub host : String
  pub has_user : Bool
  pub force_query : Bool
  pub raw_query : String
  pub fragment : String
  pub printed : String

pub record Wire : Type 0 where
  pub unmarshal_json : List ℕ → Option Json
  pub marshal_json : Json → Option (List ℕ)
  pub valid : Schema → Json → Bool
  pub decode_envelope : List ℕ → Option Envelope
  pub decode_control_request : List ℕ → Option ControlRequestBody
  pub decode_pair_commit : List ℕ → Option PairCommitBody
  pub decode_identity : List ℕ → Option PairingIdentityBody
  pub decode_invite : List ℕ → Option PairingInvite
  pub marshal_invite : PairingInvite → Option (List ℕ)
  pub sha256 : List ℕ → List ℕ
  pub parse_url : String → Option Url
