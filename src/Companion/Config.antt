-- ===== src/Companion/Config.antt =====
-- internal/companion/companion.go: the stored `Config` and `validate`. `contributory` is the key check
-- of crypto/ecdh; the URL parser and SHA-256 are those of `Wire`.
use remote_davinci.Base.{
  ℕ, ◌+◌, String, Bool, true, false, not, ◌&&◌, ◌||◌, Option, none, some, List, [], ◌∷◌,
  if◌then◌else◌, leb, ltb, ◌==◌, length, is_empty, str_eq, codes,
}
use remote_davinci.Protocol.Base64.{decode, encode, bytes_eq}
use remote_davinci.Protocol.Wire.{Wire, Parsed, parsed, refused}
use remote_davinci.Protocol.Parse.{noise_key_fingerprint}
use remote_davinci.Companion.Outcome.{Fault, message, Outcome, check, present, ◌>>=◌, ◌>>◌}

pub record Config : Type 0 where
  pub v : ℕ
  pub relay_url : String
  pub link_id : String
  pub endpoint_id : String
  pub secret : String
  pub noise_private_key : String
  pub controller_endpoint_id : String
  pub controller_noise_key : String
  pub controller_fingerprint : String
  pub controller_label : String
  pub permission_mask : ℕ
  pub activation_pending : Bool
  pub link_revoked : Bool

abbrev pub bool_eq : Bool → Bool → Bool
bool_eq true b = b
bool_eq false b = not b

-- `==` on `Config`.
abbrev pub config_eq : Config → Config → Bool
config_eq a b =
    (a.v == b.v)
    && str_eq a.relay_url b.relay_url
    && str_eq a.link_id b.link_id
    && str_eq a.endpoint_id b.endpoint_id
    && str_eq a.secret b.secret
    && str_eq a.noise_private_key b.noise_private_key
    && str_eq a.controller_endpoint_id b.controller_endpoint_id
    && str_eq a.controller_noise_key b.controller_noise_key
    && str_eq a.controller_fingerprint b.controller_fingerprint
    && str_eq a.controller_label b.controller_label
    && (a.permission_mask == b.permission_mask)
    && bool_eq a.activation_pending b.activation_pending
    && bool_eq a.link_revoked b.link_revoked

abbrev pub is_hex : ℕ → Bool
is_hex c = leb 48 c && leb c 57 || leb 97 c && leb c 102

-- `uuidPattern`: groups of 8, 4, 4, 4 and 12 digits, from place `i` on.
unfoldable pub is_uuid_from : ℕ → List ℕ → Bool
is_uuid_from i [] = i == 36
is_uuid_from i (c ∷ cs) =
    (if i == 8 || i == 13 || i == 18 || i == 23 then c == 45 else is_hex c)
    && is_uuid_from (i + 1) cs

abbrev pub is_uuid : String → Bool
is_uuid value = is_uuid_from 0 (codes value)

-- companion.go: `decode32`.
unfoldable pub decode32 : String → Option (List ℕ)
decode32 value = elim (decode (codes value)) [
  | none ↦ none
  | some decoded ↦
      if (length decoded == 32) && bytes_eq (encode decoded) (codes value)
      then some decoded
      else none
]

-- companion.go: `relayURL`.
unfoldable pub relay_url : Wire → String → Bool
relay_url wire value = elim (wire.parse_url value) [
  | none ↦ false
  | some url ↦
      str_eq url.scheme "wss"
      && not (is_empty url.host)
      && not url.has_user
      && not url.force_query
      && is_empty url.raw_query
      && is_empty url.fragment
      && str_eq url.printed value
]

abbrev pub is_fingerprint : Parsed (List ℕ) → String → Bool
is_fingerprint (parsed bytes) value = bytes_eq bytes (codes value)
is_fingerprint (refused e) value = false

abbrev pub invalid : Fault
invalid = message "invalid companion configuration"

module _ (wire : Wire) (contributory : List ℕ → List ℕ → Bool) where
  -- companion.go: `validate`; a mask is a uint8, so it has no bit beyond the eight.
  unfoldable pub validate : Config → Outcome (Unit {0})
  validate config = do
    check
        ((config.v == 1)
          && is_uuid config.link_id
          && is_uuid config.endpoint_id
          && is_uuid config.controller_endpoint_id)
        invalid
    check (relay_url wire config.relay_url) (message "relay URL must be a credential-free wss URL")
    secret ← present (decode32 config.secret) invalid
    private_key ← present (decode32 config.noise_private_key) invalid
    controller_key ← present (decode32 config.controller_noise_key) invalid
    check (contributory controller_key private_key) invalid
    check
        (is_empty config.controller_fingerprint
          || is_fingerprint (noise_key_fingerprint wire config.controller_noise_key)
              config.controller_fingerprint)
        invalid
    check (ltb config.permission_mask 256) invalid
    check (length secret == 32) invalid
