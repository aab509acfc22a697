-- ===== src/Companion/Link.antt =====
-- internal/companion/relay.go: the messages, the state and the events of the event loop of
-- `runRelayConnection`, and what the loop takes from the configuration and from libraries.
use remote_davinci.Base.{ℕ, String, Bool, false, ◌||◌, Option, List, [], ◌∷◌, codes}
use remote_davinci.Protocol.Base64.{bytes_eq}
use remote_davinci.Companion.Outcome.{Fault}
use remote_davinci.Companion.Operations.{ResolvePageObservation}
use remote_davinci.Companion.Reorder.{Window}
use remote_davinci.Companion.Channel.{Noise, SecureChannel}

pub record SessionOpened : Type 0 where
  pub session_id : String
  pub link_id : String
  pub peer_endpoint_id : String

pub record SessionFrame : Type 0 where
  pub session_id : String
  pub seq : ℕ
  pub payload : List ℕ

-- What the loop takes from the configuration and from libraries: `open_handshake` makes the handshake
-- state of a session, `write` gives a frame to the socket.
pub record Link (S : Type 0) (noise : Noise) : Type 0 where
  pub link_id : String
  pub controller_endpoint_id : String
  pub controller_noise_key : List ℕ
  pub permission_mask : ℕ
  pub open_handshake : String → Option noise.Handshake
  pub decode_opened : List ℕ → Option SessionOpened
  pub decode_frame : List ℕ → Option SessionFrame
  pub decode_closed : List ℕ → Option String
  pub write : S → SessionFrame → S × Bool

-- The session of the loop: none yet, or one with its channel; the computer's state with it.
pub data Secure (S : Type 0) (noise : Noise) : Type 0 where
  waiting : S → Secure S noise
  secured : Window (S × SecureChannel noise) → Secure S noise

pub record Loop (S : Type 0) (noise : Noise) : Type 0 where
  pub secure : Secure S noise
  pub monitoring : Bool

-- `RelayStatus` of a connected companion.
pub data Status : Type 0 where
  relay_connected controller_connected secure_session : Status

-- What one event makes the loop do: the frames that it gives to the socket, the statuses that it
-- reports, and the error with which it ends the connection, if it does.
pub record Turned (S : Type 0) (noise : Noise) : Type 0 where
  pub loop : Loop S noise
  pub frames : List SessionFrame
  pub statuses : List Status
  pub ended : Option Fault

pub data Event : Type 0 where
  received : List ℕ → Event
  reader_failed ping_failed context_done monitor_stopped : Event
  page_observed : ResolvePageObservation → Event

-- companion.go: `supportedResolvePage`.
unfoldable pub supported_resolve_page : List ℕ → List (String × String) → Bool
supported_resolve_page page [] = false
supported_resolve_page page ((operation, name) ∷ pages) =
    bytes_eq page (codes name) || supported_resolve_page page pages
