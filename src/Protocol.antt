-- ===== src/Protocol.antt =====
-- protocol/protocol.go: the error codes and device roles of the wire protocol.
pub mod Base64
pub mod RoundTrip
pub mod Json
pub mod Wire
pub mod Parse
pub mod Accepts
pub mod Normal
use remote_davinci.Base.{ℕ, Bool, true, false}

pub data ErrorCode : Type 0 where
  invalid_message unsupported_version unauthenticated forbidden pair_unavailable pair_full :
      ErrorCode
  pair_expired peer_offline peer_busy session_not_found payload_too_large rate_limited : ErrorCode
  conflict internal : ErrorCode

pub ErrorCode-discrete : Discrete ErrorCode
ErrorCode-discrete = hlevel

pub data DeviceRole : Type 0 where
  controller companion : DeviceRole

abbrev pub role_eq : DeviceRole → DeviceRole → Bool
role_eq controller controller = true
role_eq companion companion = true
role_eq _ _ = false

-- PairingTTLSeconds
abbrev pub pairing_ttl_seconds : ℕ
pairing_ttl_seconds = 300
