-- ===== src/Lib.antt =====
-- Remote DaVinci: a controller (an app on a tablet) drives a companion (a program on the computer of
-- DaVinci Resolve) through a rendezvous relay. This library models the relay, which is a function
-- behind a WebSocket gateway with one table of a document database, the parsers of the protocol, and the
-- companion's control session with its secure channel.
--
-- A client connects either to pair or as an endpoint with a credential. Two clients that pair meet by a
-- locator or a join token, exchange frames, and commit to each other; the second commit makes a link
-- and the two endpoints. An endpoint opens a session on a link, and frames then go between the two
-- connections of the session. `Handle` (handler.go) takes one event of the gateway and calls the store
-- (store.go), which keeps all state in the table, in conditional and transactional requests.
-- Invocations run at once and meet only there.
--
-- The companion keeps one connection to the relay (relay.go). When the relay opens a session it makes a
-- `secureChannel`: frames arrive with numbers, are put in order, and their packets are decrypted by the
-- Noise library and handed to the `controlProcessor` (companion.go), which executes the controller's
-- requests and keeps the replies of the session, so that a request that is sent again gets the same
-- reply.
--
-- Which file models what (paths from services/rendezvous-relay/internal/relay where there is no other):
--   Protocol           protocol/protocol.go: the error codes and roles
--   Protocol/*         protocol/: `Base64` canonicalBase64URL with the codec, `Json` the values and their
--                      numbers, `Wire` the messages and what the parsers take from libraries, `Parse`
--                      the parsers; `RoundTrip`, `Accepts` and `Normal` have theorems on them
--   Companion/*        internal/companion: `Outcome` results and errors, `Operations` the operations and
--                      their output, `Permissions` the permission masks, `Control` the control
--                      processor (all companion.go); `Reorder` the order of frames, `Channel` the
--                      secure channel, `Link` and `Session` the event loop of a connection, `Relay` the
--                      waits of `RunRelay` (all relay.go); `Pairing` the attempt of pairing.go as a
--                      step relation, in which the web interface and the run take turns, `Frames` the
--                      order of its frames (pairing.go); `Config` the stored configuration
--                      (companion.go), `Storage` its migration (storage.go)
--   Companion/Rules/*  theorems: `Turns`, `Session`, `Once` and `Valid` on the control session,
--                      `Order/*` on the reorder window, `Secured` and `Ready` on the channel and the
--                      event loop, with `Truthful` on `receive`, `Backoff` on the waits,
--                      `Approval`, `Decision`, `Buffer` and `Delivered` on pairing, `Migration`
--                      on storage; `Cases` has lemmas they share
--   Relay/Model        model.go: the items, `ReciprocalCommits`, `LinkFromCommits`
--   Relay/Failure      the errors of model.go and store.go, and the tests that `errors.As` makes on them
--   Relay/Table        the kinds of items, a conditional write, and the database as an interface
--   Relay/Effect       a run of the code as a tree of calls to the database, the gateway, the clock and
--                      the random sources, with what the code does for each answer
--   Relay/Message      the messages that the relay sends
--   Relay/Store/*      store.go: `Writes` has its condition and update expressions, `Rates` the rate
--                      limits, `Sessions` and `Opening` sessions, `Connections` connections, `Pairs`
--                      and `Commits` pairs, `Links` links and credentials
--   Relay/Handler/*    handler.go: `Event` the events, `Notify` messages and cleanup, `Dispatch` and
--                      `Requests` the requests, `Connect` the connect route, `Routes` the other routes
--   Relay/Safety/*     the invariants of the table, one write at a time (`Writes`, `PairWrites`), one run
--                      at a time (`Calls`, `Requests`, and each `Soundness` beside its component), and
--                      over a history of requests (`History`, `Lifetimes`, `PairLifetimes`)
--   Relay/Rules/*      what single operations return and have done then: `Returns` is a run with any answers
--                      to its calls, `Runs` one with a record of what was answered
--   Tests/*            the theorems at concrete inputs
--
-- How the table changes. A request of the code is a list of writes, each with its key, a test on the
-- item (the condition expression) and a change of it (the update expression). The database is the
-- parameter `Database`: a request that it carries out changes an item only by the request's write at its
-- key, and only if the item satisfies the write's condition. Nothing is assumed of what the code reads:
-- a run may get any answer to any call, so a history (Relay/Safety/History) may interleave invocations in
-- any way, with stale reads and lost answers. One clause of a write stands for the attributes
-- that the code sets; an attribute that the code marks `omitempty` is absent exactly when its field is
-- "" or 0, so instants are taken to be positive.
--
-- Bounds. The retry loops make five rounds, as in the code (`max_attempts`, and five in `pair.create`).
-- A message to a connection that is gone cleans that connection up, which sends messages in turn; the
-- depth of this nesting is the argument `fuel` of the handler's functions, which a
-- history leaves open. The loop of `receive` in Companion/Reorder has one round of fuel for each waiting
-- packet and one for the packet in hand, which is enough since each further round takes a waiting packet
-- out. A rate key has at most 19 digits of the number of a window, as an `int64` has.
--
-- What the companion takes from outside is a parameter: the Noise library (`Noise`), the computer's clock,
-- random source and command runner and the JSON encoder (`Computer`, and `Host` for the processor), the
-- socket and the decoders of message bodies (`Link`), the two stores (`ConfigStore`, and `Storing` with
-- what they are relied on for), and for the parsers the JSON decoder, the compiled
-- schemas, the URL parser and SHA-256 (`Wire` of Protocol/Wire). A failing call of one of them is an
-- error of the model. The state of the computer is passed on from call to call. The random source of
-- `RunRelay` is `rand_int` of a `Connection` in Companion/Relay. Time is in nanoseconds for `Computer` and
-- `RunRelay` and in milliseconds for `Host`, and is not before 1970; a
-- number of a frame below 1 is an old one for the code, and is 0 in the model.
--
-- Not modelled: the text of messages; marshalling and its errors in the relay; log lines; the order in
-- which the relay goes over stale locks (a map; here the order in which they were put in); the removal of
-- expired items by the database. The relay's handler takes parsers and digests as a parameter of its
-- own (`Wire` of Relay/Handler/Event). Of the protocol package, `ParseWormhole`,
-- `ParseAuthorization`, the Noise prologues and the paths of schema errors are left out; of the
-- companion, the handshake and the commit of pairing, enrollment, the stores of the operating
-- system and the web interface, the request at the start of a connection, the ping and reader
-- goroutines (they are events). `strings.TrimSpace` is written for
-- ASCII. The command line programs, the apps and the deployment are not part of this library.
pub mod Base
pub mod Protocol
pub mod Relay
pub mod Companion
mod Tests
