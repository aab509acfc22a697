-- ===== src/Protocol/Accepts.antt =====
-- What `parse` and the parsers of protocol/validate.go accept.
use remote_davinci.Base.{
  ℕ, ◌≡◌, ◌≢◌, subst, ◌-◌, ltb, ◌≤◌, ◌<◌, refl, Bool, true, false, not, Option, none, some, List,
  leb, length, arith, codes, str_eq, String, ◌&&◌, ◌+◌,
}
use remote_davinci.Protocol.{ErrorCode}
use remote_davinci.Protocol.Base64.{canonical_base64url}
use remote_davinci.Protocol.Json.{Json, object, numbers_within_limits, normalize_integers, Fields}
use remote_davinci.Protocol.Wire.{
  pairing_invite_schema, Parsed, parsed, refused, ◌>>=◌, require, given, Schema, Wire,
  PairingInvite,
}
use remote_davinci.Protocol.Parse.{
  max_pairing_invite_bytes, parse, input_json, Input, raw, invite_value, preflight_frame_payload,
  is_relay_frame, body_payload, check_payload, max_relay_payload_bytes, schema_failure,
  parse_pairing_invite, validate_pairing_invite_at, is_key, valid_relay_url,
}

refused≢parsed {ℓ} :
    {A : Type ℓ} {e : ErrorCode} {a : A} → ◌≢◌ {A = Parsed A} (refused e) (parsed a)
refused≢parsed h = cc h

-- One step of a parser that succeeds: the step itself succeeded, and so did the rest.
module _ {ℓ κ} {A : Type ℓ} {B : Type κ} where
  pub bind-parsed :
      (m : Parsed A) (f : A → Parsed B) {b : B}
      → (m >>= f) ≡ parsed b
      → (a : A) × (m ≡ parsed a) × (f a ≡ parsed b)
  bind-parsed (parsed a) f h = (a, refl, h)
  bind-parsed (refused e) f h = elim (refused≢parsed h) [ ]

pub given-parsed {ℓ} :
    {A : Type ℓ} (o : Option A) (e : ErrorCode) {a : A} → given o e ≡ parsed a → o ≡ some a
given-parsed none e h = elim (refused≢parsed h) [ ]
given-parsed (some a) e h = cc h

pub require-parsed : (b : Bool) (e : ErrorCode) {u : Unit {0}} → require b e ≡ parsed u → b ≡ true
require-parsed true e h = refl
require-parsed false e h = elim (refused≢parsed h) [ ]

leb-true : (a b : ℕ) → leb a b ≡ true → a ≤ b
leb-true a b h = ground arith

-- What an accepted frame is: it has at most `max_bytes` bytes, it is the JSON text of `value`, all
-- numbers of `value` are within the limits, the preflight and the schema accept it, and what the
-- caller decodes is its normal form.
abbrev pub Accepted : Wire → Schema → ℕ → Input → List ℕ → Json → Type 0
Accepted wire schema max_bytes input bytes value =
    (frame : List ℕ) × (input_json wire input ≡ some frame)
    × (length frame ≤ max_bytes)
    × (wire.unmarshal_json frame ≡ some value)
    × (numbers_within_limits value ≡ true)
    × (preflight_frame_payload value ≡ parsed tt)
    × (wire.valid schema value ≡ true)
    × (wire.marshal_json (normalize_integers value) ≡ some bytes)

pub parse-Accepted :
    (wire : Wire) (schema : Schema) (max_bytes : ℕ) (input : Input) {bytes : List ℕ}
    → parse wire schema max_bytes input ≡ parsed bytes
    → (value : Json) × Accepted wire schema max_bytes input bytes value
unfolding parse
parse-Accepted wire schema max_bytes input h0 =
    let (frame, g1, h1) =
      bind-parsed (given (input_json wire input) ErrorCode.invalid_message) _ h0 in
    let (u2, g2, h2) =
      bind-parsed (require (leb (length frame) max_bytes) ErrorCode.payload_too_large) _ h1 in
    let (value, g3, h3) =
      bind-parsed (given (wire.unmarshal_json frame) ErrorCode.invalid_message) _ h2 in
    let (u4, g4, h4) =
      bind-parsed (require (numbers_within_limits value) ErrorCode.invalid_message) _ h3 in
    let (u5, g5, h5) = bind-parsed (preflight_frame_payload value) _ h4 in
    let (u6, g6, h6) =
      bind-parsed (require (wire.valid schema value) (schema_failure wire value)) _ h5 in
    (
      value,
      (
        frame,
        given-parsed (input_json wire input) _ g1,
        leb-true _ _ (require-parsed _ _ g2),
        given-parsed (wire.unmarshal_json frame) _ g3,
        require-parsed _ _ g4,
        g5,
        require-parsed _ _ g6,
        given-parsed _ _ h6,
      ),
    )

preflight-checked :
    (fields : Fields) (payload : String)
    → is_relay_frame fields ≡ true
    → body_payload fields ≡ some payload
    → preflight_frame_payload (object fields) ≡ parsed tt
    → check_payload payload ≡ parsed tt
unfolding preflight_frame_payload
preflight-checked fields payload frame has = rw frame rw has λ h. h

check_payload-bounded :
    (payload : String)
    → check_payload payload ≡ parsed tt
    → (decoded : List ℕ) × (canonical_base64url (codes payload) ≡ some decoded)
      × (length decoded ≤ max_relay_payload_bytes)
check_payload-bounded payload h =
    let (decoded, g, h1) =
      bind-parsed (given (canonical_base64url (codes payload)) ErrorCode.invalid_message) _ h in
    (decoded, given-parsed _ _ g, leb-true _ _ (require-parsed _ _ h1))

same_json : {x y : Json} → some x ≡ some y → x ≡ y
same_json h = cc h

-- The payload of a pairing or session frame that a parser accepts is canonical base64url and stands
-- for at most 16384 bytes, whatever schema and byte limit the parser has.
pub parse-payload_bounded :
    (wire : Wire) (schema : Schema) (max_bytes : ℕ) (frame : List ℕ) {bytes : List ℕ}
    (fields : Fields) (payload : String)
    → wire.unmarshal_json frame ≡ some (object fields)
    → is_relay_frame fields ≡ true
    → body_payload fields ≡ some payload
    → parse wire schema max_bytes (raw frame) ≡ parsed bytes
    → (decoded : List ℕ) × (canonical_base64url (codes payload) ≡ some decoded)
      × (length decoded ≤ max_relay_payload_bytes)
parse-payload_bounded wire schema max_bytes frame fields payload json relay has h =
    let (value, accepted) = parse-Accepted wire schema max_bytes (raw frame) h in
    let same : value ≡ object fields = cc (json, accepted.1, accepted.3) in
    let checked = subst (λ v. preflight_frame_payload v ≡ parsed tt) same accepted.5 in
    check_payload-bounded payload (preflight-checked fields payload relay has checked)

-- A pairing invite that `parse_pairing_invite` returns: a plain wss address, and two different keys
-- of 32 bytes each.
abbrev pub SafeInvite : Wire → PairingInvite → Type 0
SafeInvite wire invite =
    (valid_relay_url wire invite.relay_url ≡ true)
    × (is_key wire invite.join_token ≡ true)
    × (is_key wire invite.psk ≡ true)
    × (str_eq invite.join_token invite.psk ≡ false)

all_four :
    (a b c d : Bool)
    → (a && b && c && not d) ≡ true
    → (a ≡ true) × (b ≡ true) × (c ≡ true) × (d ≡ false)
all_four a b c d h = ground arith

same_invite : {x y : PairingInvite} → parsed x ≡ parsed y → x ≡ y
same_invite h = cc h

parse_pairing_invite-SafeInvite :
    (wire : Wire) (input : Input) {invite : PairingInvite}
    → parse_pairing_invite wire input ≡ parsed invite
    → SafeInvite wire invite
unfolding parse_pairing_invite
parse_pairing_invite-SafeInvite wire input h0 =
    let (bytes, g1, h1) =
      bind-parsed (parse wire pairing_invite_schema max_pairing_invite_bytes input) _ h0 in
    let (invite, g2, h2) =
      bind-parsed (given (wire.decode_invite bytes) ErrorCode.invalid_message) _ h1 in
    let (u, g3, h3) = bind-parsed (require _ ErrorCode.invalid_message) _ h2 in
    subst (SafeInvite wire) (same_invite h3) (all_four _ _ _ _ (require-parsed _ _ g3))

lifetime :
    (now expires : ℕ)
    → (ltb now expires && leb (expires - now) 360) ≡ true
    → (now < expires) × (expires ≤ now + 360)
lifetime now expires h = ground arith

-- `ValidatePairingInviteAt` succeeds only if the invite expires after `now` and at most 360 seconds
-- after it, and if the JSON text of the invite is read back as an invite with a plain wss address
-- and two different keys of 32 bytes.
pub validate_pairing_invite_at-Fresh :
    (wire : Wire) (invite : PairingInvite) (now : ℕ)
    → validate_pairing_invite_at wire invite now ≡ parsed tt
    → (now < invite.expires_at)
      × (invite.expires_at ≤ now + 360)
      × ((read : PairingInvite) × (parse_pairing_invite wire (invite_value invite) ≡ parsed read)
          × SafeInvite wire read)
unfolding validate_pairing_invite_at
validate_pairing_invite_at-Fresh wire invite now h =
    let (read, g, h1) = bind-parsed (parse_pairing_invite wire (invite_value invite)) _ h in
    let (fresh, near) = lifetime now invite.expires_at (require-parsed _ _ h1) in
    (fresh, near, (read, g, parse_pairing_invite-SafeInvite wire (invite_value invite) g))
