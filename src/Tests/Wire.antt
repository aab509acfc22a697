-- ===== src/Tests/Wire.antt =====
-- The theorems on the parsers and the base64 codec of protocol/ at concrete inputs.
use remote_davinci.Base.{
  ℕ, ◌+◌, ◌≤◌, ◌<◌, ◌≡◌, ◌≢◌, ◌↔◌, refl, true, false, String, List, [], ◌∷◌, some, none, arith,
  length, codes,
}
use remote_davinci.Protocol.Base64.{
  encode, canonical_base64url, decode, sextets, bytes_of, without_breaks,
}
use remote_davinci.Protocol.RoundTrip.{canonical_base64url_iff}
use remote_davinci.Protocol.Json.{Json, text, object, field, object_end, numbers_within_limits}
use remote_davinci.Protocol.Wire.{Wire, server_schema, PairingInvite, parsed}
use remote_davinci.Protocol.Parse.{
  parse, parse_pairing_invite, validate_pairing_invite_at, valid_relay_url, preflight_frame_payload,
  max_relay_payload_bytes, invite_value,
}
use remote_davinci.Protocol.Accepts.{
  parse-payload_bounded, validate_pairing_invite_at-Fresh, SafeInvite,
}

cons_not_empty : {n : ℕ} {ns : List ℕ} → (n ∷ ns) ≢ []
cons_not_empty h = cc h

-- "aGk" is the base64url of "hi".
canonical_base64url_iff_example :
    (canonical_base64url (97 ∷ 71 ∷ 107 ∷ []) ≡ some (104 ∷ 105 ∷ []))
    ↔ (encode (104 ∷ 105 ∷ []) ≡ 97 ∷ 71 ∷ 107 ∷ [])
canonical_base64url_iff_example =
    canonical_base64url_iff (104 ∷ 105 ∷ []) (omega arith, (omega arith, tt)) cons_not_empty
      (97 ∷ 71 ∷ 107 ∷ [])

-- An invite with two keys of 32 bytes, and a wire whose library calls succeed.
abbrev first_key : String
first_key = "AAAAAAAAAAAAAAAAAAAAAAAAAAAAAAAAAAAAAAAAAAA"

abbrev second_key : String
second_key = "EEEEEEEEEEEEEEEEEEEEEEEEEEEEEEEEEEEEEEEEEEE"

abbrev invite : PairingInvite
invite = record {
  relay_url = "wss://relay.example/v1";
  pair_id = "p";
  creator_side_id = "c";
  link_id = "l";
  join_token = first_key;
  psk = second_key;
  expires_at = 1300;
}

abbrev frame_body : Json
frame_body = object (field "payload" (text "aGk") object_end)

abbrev wire : Wire
wire = record {
  unmarshal_json = λ _. some (
      object (
        field "protocol" (text "remote-davinci.rendezvous")
          (field "type" (text "session.frame") (field "body" frame_body object_end))));
  marshal_json = λ _. some [];
  valid = λ _ _. true;
  decode_envelope = λ _. none;
  decode_control_request = λ _. none;
  decode_pair_commit = λ _. none;
  decode_identity = λ _. none;
  decode_invite = λ _. some invite;
  marshal_invite = λ _. some [];
  sha256 = λ bytes. bytes;
  parse_url = λ value. some (record {
    scheme = "wss";
    host = "relay.example";
    has_user = false;
    force_query = false;
    raw_query = "";
    fragment = "";
    printed = value;
  });
}

parse-payload_bounded_example :
    (decoded : List ℕ) × (canonical_base64url (codes "aGk") ≡ some decoded)
    × (length decoded ≤ max_relay_payload_bytes)
unfolding parse numbers_within_limits preflight_frame_payload canonical_base64url encode decode
    sextets bytes_of without_breaks
parse-payload_bounded_example =
    parse-payload_bounded wire server_schema 100 (1 ∷ [])
      (field "protocol" (text "remote-davinci.rendezvous")
        (field "type" (text "session.frame") (field "body" frame_body object_end)))
      "aGk" refl refl refl refl

validate_pairing_invite_at-Fresh_example :
    (1000 < 1300)
    × (1300 ≤ 1000 + 360)
    × ((read : PairingInvite) × (parse_pairing_invite wire (invite_value invite) ≡ parsed read)
        × SafeInvite wire read)
unfolding validate_pairing_invite_at parse_pairing_invite parse numbers_within_limits
    preflight_frame_payload valid_relay_url canonical_base64url encode decode sextets bytes_of
    without_breaks
validate_pairing_invite_at-Fresh_example = validate_pairing_invite_at-Fresh wire invite 1000 refl
