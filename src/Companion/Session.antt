-- ===== src/Companion/Session.antt =====
-- internal/companion/relay.go: the event loop of `runRelayConnection`, once the relay has confirmed the
-- link. What the socket, the timers and the page monitor bring are its events.
use remote_davinci.Base.{
  ltb, ◌==◌, length, str_eq, true, not, ℕ, suc, String, Bool, false, ◌||◌, Option, none, some, List,
  [], ◌∷◌, ◌++◌, if◌then◌else◌, is_none,
}
use remote_davinci.Protocol.Base64.{bytes_eq, encode}
use remote_davinci.Protocol.Wire.{Envelope}
use remote_davinci.Protocol.Parse.{parse_server}
use remote_davinci.Companion.Link.{
  SessionOpened, SessionFrame, Link, Secure, waiting, secured, Loop, relay_connected,
  controller_connected, secure_session, Turned, Event, received, reader_failed, ping_failed,
  context_done, monitor_stopped, page_observed, supported_resolve_page,
}
use remote_davinci.Companion.Outcome.{
  terminal, returned, failed, from_parsed, message, Outcome, Fault, external,
}
use remote_davinci.Companion.Operations.{page_operations, ResolvePageObservation}
use remote_davinci.Companion.Reorder.{Drained, new_window, Window}
use remote_davinci.Companion.Channel.{
  channel_receive, new_secure_channel, Ciphers, Computer, Noise, SecureChannel,
}

module _ {S : Type 0} (computer : Computer S) (noise : Noise) (link : Link S noise) where
  abbrev pub Channel : Type 0
  Channel = S × SecureChannel noise

  -- The frames that were written, and whether all packets were.
  pub record Sent : Type 0 where
    pub channel : Channel
    pub frames : List SessionFrame
    pub fault : Option Fault

  abbrev pub written : SessionFrame → S × Bool → SecureChannel noise → Sent
  written frame (s, ok) c = record {
    channel = (s, c);
    frames = frame ∷ [];
    fault = if ok then none else some external;
  }

  -- relay.go: `sendPacket`; the envelope's id is drawn first.
  unfoldable pub send_numbered : S × Option String → SecureChannel noise → List ℕ → Sent
  send_numbered (s, none) c packet = record { channel = (s, c); frames = []; fault = some external }
  send_numbered (s, some id) c packet =
      let frame : SessionFrame = record {
        session_id = c.session_id;
        seq = c.next_out;
        payload = encode packet;
      } in
      written frame (link.write s frame) (record c { next_out = suc c.next_out })

  unfoldable pub send_packet : Channel → List ℕ → Sent
  send_packet (s, c) packet = send_numbered (computer.random_uuid s) c packet

  abbrev pub sent_before : List SessionFrame → Sent → Sent
  sent_before frames r = record r { frames = frames ++ r.frames }

  -- The loop over the packets that `receive` returned.
  unfoldable pub send_packets : Channel → List (List ℕ) → Sent
  send_packets c [] = record { channel = c; frames = []; fault = none }
  send_packets c (packet ∷ packets) =
      let first = send_packet c packet in
      let rest = send_packets first.channel packets in
      if is_none first.fault then sent_before first.frames rest else first

  abbrev pub encrypted_event :
      S
      → SecureChannel noise
      → Ciphers noise.Cipher
      → Option (List ℕ)
      → Channel × Outcome (Option (List ℕ))
  encrypted_event s c keys none = ((s, c), failed external)
  encrypted_event s c keys (some plaintext) =
      let (outgoing, packet) = noise.encrypt keys.outgoing plaintext in
      let sent = record c { ciphers = some (record keys { outgoing = outgoing }) } in
      elim packet [
        | none ↦ ((s, sent), failed external)
        | some bytes ↦ ((s, sent), returned (some bytes))
      ]

  abbrev pub event_bytes : List ℕ → S × Option String → S × Option (List ℕ)
  event_bytes page (s, none) = (s, none)
  event_bytes page (s, some id) = (s, computer.marshal_page_event id page)

  -- A page that is new since the last command and since the last event.
  unfoldable pub announce_page :
      S → SecureChannel noise → Ciphers noise.Cipher → List ℕ → Channel × Outcome (Option (List ℕ))
  announce_page s c keys page =
      let seen = record c { last_resolve_page = page } in
      if bytes_eq page c.last_resolve_page
      then ((s, c), returned none)
      else if not (supported_resolve_page page page_operations)
      then ((s, seen), returned none)
      else let (after, plaintext) = event_bytes page (computer.random_uuid s) in
        encrypted_event after seen keys plaintext

  -- relay.go: `pageChangedEvent`; a time of 0 is the zero time.
  unfoldable pub page_changed_event :
      Channel → ResolvePageObservation → Channel × Outcome (Option (List ℕ))
  page_changed_event (s, c) observation = elim c.ciphers [
    | none ↦ ((s, c), failed (message "cannot send Resolve page event"))
    | some keys ↦
        if not c.processor.peer_hello
          || length observation.page == 0
          || observation.observed_at == 0
        then ((s, c), failed (message "cannot send Resolve page event"))
        else if not (ltb c.last_page_command_at observation.observed_at)
        then ((s, c), returned none)
        else announce_page s c keys observation.page
  ]

  abbrev pub quiet : Loop S noise → Turned S noise
  quiet l = record { loop = l; frames = []; statuses = []; ended = none }

  abbrev pub stop : Loop S noise → Fault → Turned S noise
  stop l fault = record { loop = l; frames = []; statuses = []; ended = some fault }

  abbrev pub computer_of : Secure S noise → S
  computer_of (waiting s) = s
  computer_of (secured w) = w.state.0

  abbrev pub with_channel : Loop S noise → Window Channel → Channel → Loop S noise
  with_channel l w c = record l { secure = secured (record w { state = c }) }

  -- `session.opened`: a new channel takes the place of the old one.
  unfoldable pub open_channel : Loop S noise → String → Option noise.Handshake → Turned S noise
  open_channel l session_id none =
      stop (record { secure = waiting (computer_of l.secure); monitoring = false }) external
  open_channel l session_id (some handshake) = record {
    loop = record {
      secure = secured (
          new_window (
            computer_of l.secure,
            new_secure_channel noise session_id link.controller_noise_key handshake
                link.permission_mask,
          ));
      monitoring = false;
    };
    frames = [];
    statuses = controller_connected ∷ [];
    ended = none;
  }

  unfoldable pub session_opened : Loop S noise → Option SessionOpened → Turned S noise
  session_opened l none = stop l (message "relay opened an unexpected session")
  session_opened l (some opened) =
      if not (str_eq opened.link_id link.link_id)
        || not (str_eq opened.peer_endpoint_id link.controller_endpoint_id)
      then stop l (message "relay opened an unexpected session")
      else open_channel l opened.session_id (link.open_handshake opened.session_id)

  -- A ready channel starts the page monitor and is reported as secure.
  unfoldable pub report : Loop S noise → List SessionFrame → Bool → Turned S noise
  report l frames true = record {
    loop = record l { monitoring = true };
    frames = frames;
    statuses = secure_session ∷ [];
    ended = none;
  }
  report l frames false = record { loop = l; frames = frames; statuses = []; ended = none }

  unfoldable pub after_frames : Loop S noise → Window Channel → Bool → Sent → Turned S noise
  after_frames l w ready sent =
      let after = with_channel l w sent.channel in
      if not (is_none sent.fault)
      then record { loop = after; frames = sent.frames; statuses = []; ended = sent.fault }
      else report after sent.frames ready

  -- `none` is the loop of `receive` out of its fuel, which does not happen.
  unfoldable pub after_receive : Loop S noise → Drained Channel → Turned S noise
  after_receive l none = quiet l
  after_receive l (some (w, failed fault)) = stop (record l { secure = secured w }) fault
  after_receive l (some (w, returned out)) =
      after_frames l w out.ready (send_packets w.state out.packets)

  -- relay.go: `currentSessionFrame` and the case "session.frame".
  unfoldable pub session_frame :
      Loop S noise → Secure S noise → Option SessionFrame → Turned S noise
  session_frame l secure none = stop l (message "relay returned an invalid session frame")
  session_frame l (waiting s) (some frame) = quiet l
  session_frame l (secured w) (some frame) =
      if not (str_eq frame.session_id w.state.1.session_id)
      then quiet l
      else after_receive l (channel_receive computer noise w frame.seq frame.payload)

  unfoldable pub session_closed : Loop S noise → Secure S noise → Option String → Turned S noise
  session_closed l secure none = stop l (message "relay closed an invalid session")
  session_closed l (waiting s) (some session_id) = quiet l
  session_closed l (secured w) (some session_id) =
      if not (str_eq session_id w.state.1.session_id) then quiet l else record {
        loop = record { secure = waiting w.state.0; monitoring = false };
        frames = [];
        statuses = relay_connected ∷ [];
        ended = none;
      }

  unfoldable pub relay_message : Loop S noise → Outcome Envelope → Turned S noise
  relay_message l (failed fault) = stop l fault
  relay_message l (returned envelope) =
      if str_eq envelope.type "session.opened"
      then session_opened l (link.decode_opened envelope.body)
      else if str_eq envelope.type "session.frame"
      then session_frame l l.secure (link.decode_frame envelope.body)
      else if str_eq envelope.type "session.closed"
      then session_closed l l.secure (link.decode_closed envelope.body)
      else if str_eq envelope.type "link.revoked"
      then stop l (terminal "controller link was revoked")
      else if str_eq envelope.type "error"
      then stop l (message "relay rejected a session message")
      else quiet l

  unfoldable pub after_page :
      Loop S noise → Window Channel → Channel × Outcome (Option (List ℕ)) → Turned S noise
  after_page l w (c, failed fault) = stop (with_channel l w c) fault
  after_page l w (c, returned none) = quiet (with_channel l w c)
  after_page l w (c, returned (some packet)) =
      let sent = send_packet c packet in
      record {
        loop = with_channel l w sent.channel;
        frames = sent.frames;
        statuses = [];
        ended = sent.fault;
      }

  -- A page is observed only while the monitor runs, which it does only with a channel.
  unfoldable pub page_turn : Loop S noise → Secure S noise → ResolvePageObservation → Turned S noise
  page_turn l (waiting s) observation = quiet l
  page_turn l (secured w) observation =
      if l.monitoring then after_page l w (page_changed_event w.state observation) else quiet l

  -- relay.go: one round of the `select` in `runRelayConnection`.
  unfoldable pub turn : Loop S noise → Event → Turned S noise
  turn l context_done = stop l external
  turn l ping_failed = stop l external
  turn l reader_failed = stop l external
  turn l monitor_stopped = quiet (record l { monitoring = false })
  turn l (page_observed observation) = page_turn l l.secure observation
  turn l (received raw) = relay_message l (from_parsed (parse_server computer.wire raw))
