-- ===== src/Relay/Message.antt =====
-- services/rendezvous-relay/internal/relay/handler.go: the messages that the relay sends, with a
-- constructor for each shape of body that the code builds.
use remote_davinci.Base.{ℕ, String, Bool, Option}
use remote_davinci.Protocol.{ErrorCode, DeviceRole}
use remote_davinci.Relay.Model.{LinkStatus}

-- The `result` of a reply.
pub data Reply : Type 0 where
  hello_reply : ℕ → ℕ → Reply
  ping_reply : ℕ → Reply
  created_reply : String → String → ℕ → Option String → Reply
  joined_reply : String → String → ℕ → Reply
  pending_reply : Reply
  active_reply : String → Reply
  cancelled_reply : Reply
  link_reply : String → String → DeviceRole → LinkStatus → Option ℕ → Reply
  revoked_reply : Reply
  rotated_reply : Reply
  opened_reply : String → Reply
  closed_reply : Reply

pub data Body : Type 0 where
  ok_body : String → Reply → Body
  error_body : ErrorCode → Bool → Option ℕ → Body
  session_closed_body : String → String → Body
  session_opened_body : String → String → String → Body
  pair_closed_body : String → String → Body
  pair_ready_body : String → String → ℕ → Body
  pair_completed_body : String → String → String → DeviceRole → Body
  link_revoked_body : String → Body
  frame_body : String → Body

-- The protocol name and its version are the same in every message and are left out.
pub record Message : Type 0 where
  pub type : String
  pub id : String
  pub reply_to : String
  pub body : Body

abbrev pub response : String → Body → String → String → Message
response message_type body id reply_to = record {
  type = message_type;
  id = id;
  reply_to = reply_to;
  body = body;
}
