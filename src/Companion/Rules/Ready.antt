-- ===== src/Companion/Rules/Ready.antt =====
-- What the event loop of `runRelayConnection` of internal/companion/relay.go reports of its channel.
use remote_davinci.Base.{
  ℕ, String, ◌≡◌, ◌≢◌, refl, Bool, true, false, not, Option, none, some, List, [], ◌∷◌, Bool-cases,
  inl, inr, is_none, if◌then◌else◌, Memᴰ, ◌||◌, str_eq,
}
use remote_davinci.Protocol.Wire.{Envelope}
use remote_davinci.Companion.Outcome.{Fault, Outcome, returned, failed, message, terminal}
use remote_davinci.Companion.Operations.{ResolvePageObservation}
use remote_davinci.Companion.Channel.{Computer, Noise, SecureChannel, receive_packet, is_settled}
use remote_davinci.Companion.Reorder.{Window, Drained}
use remote_davinci.Companion.Link.{
  SessionOpened, SessionFrame, Link, Secure, waiting, secured, Loop, Status, relay_connected,
  controller_connected, secure_session, Turned, Event, received, reader_failed, ping_failed,
  context_done, monitor_stopped, page_observed,
}
use remote_davinci.Companion.Session.{
  Sent, send_numbered, send_packet, send_packets, report, after_frames, after_receive,
  session_frame, session_opened, open_channel, session_closed, relay_message, after_page,
  page_changed_event, page_turn, turn, with_channel,
}
use remote_davinci.Companion.Rules.Secured.{receive_packet-Honest}
use remote_davinci.Companion.Rules.Truthful.{Truthful, receive-Truthful}

module _ {S : Type 0} (computer : Computer S) (noise : Noise) (link : Link S noise) where
  abbrev pub Settled : S × SecureChannel noise → Type 0
  Settled c = is_settled computer noise c ≡ true

  -- If the turn reports a secure session, its channel has keys and the controller's hello.
  unfoldable pub Faithful : Turned S noise → Type 0
  Faithful r =
      Memᴰ secure_session r.statuses
      → (w : Window (S × SecureChannel noise)) × (r.loop.secure ≡ secured w) × Settled w.state

  silent :
      (l : Loop S noise) (frames : List SessionFrame) (ended : Option Fault)
      → Faithful (record { loop = l; frames = frames; statuses = []; ended = ended })
  unfolding Faithful
  silent l frames ended m = elim m [ ]

  other_status :
      (l : Loop S noise) (frames : List SessionFrame) (ended : Option Fault) (status : Status)
      → secure_session ≢ status
      → Faithful (record { loop = l; frames = frames; statuses = status ∷ []; ended = ended })
  unfolding Faithful
  other_status l frames ended status apart (Memᴰ.head e) = elim (apart e) [ ]
  other_status l frames ended status apart (Memᴰ.tail m) = elim m [ ]

  choose :
      (b : Bool) (x y : Turned S noise) → Faithful x → Faithful y → Faithful (if b then x else y)
  choose true x y h k = h
  choose false x y h k = k

  send_numbered-Settled :
      (r : S × Option String) (s : S) (c : SecureChannel noise) (packet : List ℕ)
      → Settled (s, c)
      → Settled (send_numbered computer noise link r c packet).channel
  unfolding send_numbered
  send_numbered-Settled (after, none) s c packet h = h
  send_numbered-Settled (after, some id) s c packet h = h

  send_packet-Settled :
      (c : S × SecureChannel noise) (packet : List ℕ)
      → Settled c
      → Settled (send_packet computer noise link c packet).channel
  unfolding send_packet
  send_packet-Settled (s, c) packet h = send_numbered-Settled _ s c packet h

  send_packets-Settled :
      (packets : List (List ℕ)) (c : S × SecureChannel noise)
      → Settled c
      → Settled (send_packets computer noise link c packets).channel
  unfolding send_packets
  send_packets-Settled [] c h = h
  send_packets-Settled (packet ∷ packets) c h =
      let first = send_packet computer noise link c packet in
      let sent = send_packet-Settled c packet h in
      let rest = send_packets-Settled packets first.channel sent in
      elim (Bool-cases (is_none first.fault)) [ inl e ↦ rw e rest | inr e ↦ rw e sent ]

  report-Faithful :
      (l : Loop S noise) (frames : List SessionFrame) (w : Window (S × SecureChannel noise))
      (ready : Bool)
      → l.secure ≡ secured w
      → (ready ≡ true → Settled w.state)
      → Faithful (report computer noise link l frames ready)
  unfolding Faithful report
  report-Faithful l frames w true same h = λ m. (w, same, h refl)
  report-Faithful l frames w false same h = λ m. elim m [ ]

  after_frames-Faithful :
      (l : Loop S noise) (w : Window (S × SecureChannel noise)) (ready : Bool)
      (sent : Sent computer noise link)
      → (ready ≡ true → Settled sent.channel)
      → Faithful (after_frames computer noise link l w ready sent)
  unfolding after_frames
  after_frames-Faithful l w ready sent h =
      let after = with_channel computer noise link l w sent.channel in
      choose (not (is_none sent.fault)) _ _ (silent after sent.frames sent.fault)
        (report-Faithful after sent.frames (record w { state = sent.channel }) ready refl h)

  after_receive-Faithful :
      (l : Loop S noise) (r : Drained (S × SecureChannel noise))
      → Truthful
          (receive_packet computer noise)
          (is_settled computer noise)
          (λ t packet. receive_packet-Honest computer noise t packet)
          r
      → Faithful (after_receive computer noise link l r)
  unfolding after_receive
  after_receive-Faithful l none h = silent _ _ _
  after_receive-Faithful l (some (w, failed fault)) h = silent _ _ _
  after_receive-Faithful l (some (w, returned out)) h =
      after_frames-Faithful l w out.ready _
        (λ ready. send_packets-Settled out.packets w.state (h w out refl ready))

  session_frame-Faithful :
      (l : Loop S noise) (secure : Secure S noise) (o : Option SessionFrame)
      → Faithful (session_frame computer noise link l secure o)
  unfolding session_frame
  session_frame-Faithful l secure none = silent _ _ _
  session_frame-Faithful l (waiting s) (some frame) = silent _ _ _
  session_frame-Faithful l (secured w) (some frame) =
      choose (not (str_eq frame.session_id w.state.1.session_id)) _ _ (silent l [] none) (
        after_receive-Faithful l _ (
          receive-Truthful _ _ (λ t packet. receive_packet-Honest computer noise t packet) w
            frame.seq frame.payload))

  open_channel-Faithful :
      (l : Loop S noise) (session_id : String) (o : Option noise.Handshake)
      → Faithful (open_channel computer noise link l session_id o)
  unfolding open_channel
  open_channel-Faithful l session_id none = silent _ _ _
  open_channel-Faithful l session_id (some handshake) =
      other_status _ _ _ controller_connected (λ e. cc e)

  session_opened-Faithful :
      (l : Loop S noise) (o : Option SessionOpened)
      → Faithful (session_opened computer noise link l o)
  unfolding session_opened
  session_opened-Faithful l none = silent _ _ _
  session_opened-Faithful l (some opened) =
      choose
        (not (str_eq opened.link_id link.link_id)
          || not (str_eq opened.peer_endpoint_id link.controller_endpoint_id))
        _ _ (silent l [] (some (message "relay opened an unexpected session")))
        (open_channel-Faithful l opened.session_id (link.open_handshake opened.session_id))

  session_closed-Faithful :
      (l : Loop S noise) (secure : Secure S noise) (o : Option String)
      → Faithful (session_closed computer noise link l secure o)
  unfolding session_closed
  session_closed-Faithful l secure none = silent _ _ _
  session_closed-Faithful l (waiting s) (some session_id) = silent _ _ _
  session_closed-Faithful l (secured w) (some session_id) =
      choose (not (str_eq session_id w.state.1.session_id)) _ _ (silent l [] none) (
        other_status (record { secure = waiting w.state.0; monitoring = false }) [] none
          relay_connected (λ e. cc e))

  relay_message-Faithful :
      (l : Loop S noise) (o : Outcome Envelope) → Faithful (relay_message computer noise link l o)
  unfolding relay_message
  relay_message-Faithful l (failed fault) = silent _ _ _
  relay_message-Faithful l (returned envelope) =
      choose (str_eq envelope.type "session.opened") _ _
        (session_opened-Faithful l (link.decode_opened envelope.body))
        (choose (str_eq envelope.type "session.frame") _ _
          (session_frame-Faithful l l.secure (link.decode_frame envelope.body))
          (choose (str_eq envelope.type "session.closed") _ _
            (session_closed-Faithful l l.secure (link.decode_closed envelope.body))
            (choose (str_eq envelope.type "link.revoked") _ _
              (silent l [] (some (terminal "controller link was revoked")))
              (choose (str_eq envelope.type "error") _ _
                (silent l [] (some (message "relay rejected a session message")))
                (silent l [] none)))))

  after_page-Faithful :
      (l : Loop S noise) (w : Window (S × SecureChannel noise))
      (r : (S × SecureChannel noise) × Outcome (Option (List ℕ)))
      → Faithful (after_page computer noise link l w r)
  unfolding after_page
  after_page-Faithful l w (c, failed fault) = silent _ _ _
  after_page-Faithful l w (c, returned none) = silent _ _ _
  after_page-Faithful l w (c, returned (some packet)) = silent _ _ _

  page_turn-Faithful :
      (l : Loop S noise) (secure : Secure S noise) (observation : ResolvePageObservation)
      → Faithful (page_turn computer noise link l secure observation)
  unfolding page_turn
  page_turn-Faithful l (waiting s) observation = silent _ _ _
  page_turn-Faithful l (secured w) observation =
      choose l.monitoring _ _
        (after_page-Faithful l w (page_changed_event computer noise link w.state observation))
        (silent l [] none)

  turn-Faithful : (l : Loop S noise) (event : Event) → Faithful (turn computer noise link l event)
  unfolding turn
  turn-Faithful l context_done = silent _ _ _
  turn-Faithful l ping_failed = silent _ _ _
  turn-Faithful l reader_failed = silent _ _ _
  turn-Faithful l monitor_stopped = silent _ _ _
  turn-Faithful l (page_observed observation) = page_turn-Faithful l l.secure observation
  turn-Faithful l (received raw) = relay_message-Faithful l _

  -- A turn of the event loop that reports a secure session ends with a channel that has finished its
  -- handshake and has seen the controller's hello.
  pub turn-Settled :
      (l : Loop S noise) (event : Event)
      → Memᴰ secure_session (turn computer noise link l event).statuses
      → (w : Window (S × SecureChannel noise)) × ((turn computer noise link l event).loop.secure
          ≡ secured w)
        × Settled w.state
  unfolding Faithful
  turn-Settled l event reported = turn-Faithful l event reported
