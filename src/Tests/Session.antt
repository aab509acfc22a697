-- ===== src/Tests/Session.antt =====
-- The theorems on the control session, the secure channel and the event loop of internal/companion at
-- concrete inputs.
use remote_davinci.Base.{
  Memᴰ, ℕ, zero, suc, ◌≤◌, ◌≡◌, refl, true, false, String, List, [], ◌∷◌, All, some, none, contains,
  length,
}
use remote_davinci.Protocol.{controller}
use remote_davinci.Protocol.Json.{null}
use remote_davinci.Protocol.Wire.{Wire, Envelope, ControlRequestBody}
use remote_davinci.Companion.Outcome.{Outcome, returned}
use remote_davinci.Companion.Operations.{page}
use remote_davinci.Companion.Control.{
  Host, Processor, handle, new_control_processor, handle_parsed, handle_envelope, handle_cached,
  handle_new_request, handle_decoded, handle_request, run_request, response, respond, remember,
  ended,
}
use remote_davinci.Companion.Rules.Session.{session}
use remote_davinci.Companion.Rules.Once.{Distinct, session-bounded, handle-replayed}
use remote_davinci.Companion.Rules.Valid.{ValidRequest, handle-Valid}
use remote_davinci.Companion.Channel.{
  Computer, Noise, SecureChannel, new_secure_channel, receive_packet, receive_with,
  receive_handshake, answer_handshake, greet,
}
use remote_davinci.Companion.Link.{Link, Loop, secured, received}
use remote_davinci.Protocol.Base64.{encode, decode, sextets, bytes_of, without_breaks}
use remote_davinci.Protocol.Json.{numbers_within_limits, normalize_integers}
use remote_davinci.Protocol.Parse.{
  parse, parse_envelope, preflight_frame_payload, rendezvous_semantics,
}
use remote_davinci.Companion.Session.{
  turn, relay_message, session_frame, after_receive, after_frames, report, send_packets,
}
use remote_davinci.Companion.Reorder.{Window, receive, receive_packet_at, buffer, payload_packet}
use remote_davinci.Companion.Reorder.{new_window}
use remote_davinci.Companion.Rules.Secured.{FromController, receive_packet-FromController}
use remote_davinci.Companion.Rules.Ready.{Settled, turn-Settled}

-- The message 0 is the controller's hello, every other one the request "a" for the cut page. The
-- state of the computer is its clock, which is 1000 throughout the session.
abbrev read : List ℕ → Outcome Envelope
read (zero ∷ _) = returned (record { type = "hello"; id = "h"; reply_to = ""; body = [] })
read _ = returned (record { type = "request"; id = "a"; reply_to = ""; body = [] })

abbrev cut_request : ControlRequestBody
cut_request = record { operation = "resolve.page.cut"; args = []; sent_at = 900; expires_at = 5000 }

abbrev host : Host ℕ
host = record {
  parse = read;
  decode_hello = λ _. some controller;
  decode_request = λ _. some cut_request;
  marshal_response = λ _. some (42 ∷ []);
  clock = λ s. (s, s);
  random_uuid = λ s. (s, some "r");
  execute = λ s operation. (s, returned (page "cut"));
}

abbrev granted : List String
granted = "resolve.page.cut" ∷ []

abbrev messages : List (List ℕ)
messages = (0 ∷ []) ∷ (1 ∷ []) ∷ (1 ∷ []) ∷ []

session-bounded_example :
    let (_, _, requests) = session host 1000 (new_control_processor granted) messages in
    Distinct requests × All (λ r. contains r.1 granted ≡ true) requests × (length requests ≤ 256)
session-bounded_example = session-bounded host 1000 granted messages

abbrev greeted : Processor
greeted = record { allowed = granted; peer_hello = true; cache = [] }

handle-Valid_example : ValidRequest host 1000 greeted (1 ∷ []) "a" "resolve.page.cut"
unfolding handle handle_parsed handle_envelope handle_cached handle_new_request handle_decoded
    handle_request run_request response respond remember
handle-Valid_example = handle-Valid host 1000 greeted (1 ∷ []) "a" "resolve.page.cut" refl

abbrev later : Processor
later = (session host 1000 (handle host 1000 greeted (1 ∷ [])).processor ((1 ∷ []) ∷ [])).1

handle-replayed_example :
    handle host 9000 later (1 ∷ []) ≡ ended host 9000 later (returned (some (42 ∷ [])))
unfolding handle handle_parsed handle_envelope handle_cached handle_new_request handle_decoded
    handle_request run_request response respond remember
handle-replayed_example =
    handle-replayed host 1000 greeted (1 ∷ [])
      (record { type = "request"; id = "a"; reply_to = ""; body = [] }) (42 ∷ []) refl refl refl
      refl ((1 ∷ []) ∷ []) 9000

-- A computer whose library calls succeed, and a Noise library that sends its payloads in the clear.
abbrev wire : Wire
wire = record {
  unmarshal_json = λ _. some null;
  marshal_json = λ _. some [];
  valid = λ _ _. true;
  decode_envelope =
      λ _. some (record { type = "session.frame"; id = "f"; reply_to = ""; body = [] });
  decode_control_request = λ _. some cut_request;
  decode_pair_commit = λ _. none;
  decode_identity = λ _. none;
  decode_invite = λ _. none;
  marshal_invite = λ _. none;
  sha256 = λ bytes. bytes;
  parse_url = λ _. none;
}

abbrev computer : Computer ℕ
computer = record {
  wire = wire;
  decode_hello = λ _. some controller;
  marshal_response = λ _. some (42 ∷ []);
  marshal_hello = λ _. some (1 ∷ []);
  marshal_page_event = λ _ page. some page;
  clock = λ s. (s, s);
  random_uuid = λ s. (suc s, some "r");
  output = λ s _. (s, none);
}

abbrev noise : Noise
noise = record {
  Handshake = ℕ;
  Cipher = ℕ;
  read_message = λ h packet. (suc h, some []);
  peer_static = λ _. 9 ∷ [];
  write_message = λ h. (suc h, some (3 ∷ [], 0, 0));
  encrypt = λ c bytes. (suc c, some bytes);
  decrypt = λ c bytes. (suc c, some bytes);
}

abbrev channel : SecureChannel noise
channel = new_secure_channel noise "s" (9 ∷ []) 0 1

receive_packet-FromController_example : FromController computer noise channel (7 ∷ [])
unfolding receive_packet receive_with receive_handshake answer_handshake greet
receive_packet-FromController_example =
    receive_packet-FromController computer noise 1000 channel (7 ∷ [])
      (record { packets = (3 ∷ []) ∷ (1 ∷ []) ∷ []; ready = false }) refl refl

abbrev link : Link ℕ noise
link = record {
  link_id = "l";
  controller_endpoint_id = "e";
  controller_noise_key = 9 ∷ [];
  permission_mask = 1;
  open_handshake = λ _. some 0;
  decode_opened = λ _. none;
  decode_frame = λ _. some (record { session_id = "s"; seq = 2; payload = 66 ∷ 81 ∷ [] });
  decode_closed = λ _. none;
  write = λ s _. (s, true);
}

-- A settled session, to which frame 2 comes before frame 1.
abbrev settled : SecureChannel noise
settled = record channel {
  ciphers = some (record { incoming = 0; outgoing = 0 });
  processor = record { allowed = granted; peer_hello = true; cache = [] };
}

abbrev running : Loop ℕ noise
running = record { secure = secured (new_window (1000, settled)); monitoring = false }

turn-Settled_example :
    (w : Window (ℕ × SecureChannel noise)) × ((turn computer noise link running
        (received (7 ∷ []))).loop.secure
      ≡ secured w)
    × Settled computer noise link w.state
unfolding turn relay_message parse_envelope parse numbers_within_limits normalize_integers
    preflight_frame_payload rendezvous_semantics session_frame after_receive after_frames report
    send_packets receive receive_packet_at buffer payload_packet encode decode sextets bytes_of
    without_breaks
turn-Settled_example = turn-Settled computer noise link running (received (7 ∷ [])) (Memᴰ.head refl)
