-- ===== src/Companion/Relay.antt =====
-- internal/companion/relay.go: the waits of `RunRelay` between its connections. A connection is known by its
-- statuses and its end; the random source is a parameter of each wait.
use remote_davinci.Base.{
  not, ℕ, ◌+◌, ◌*◌, Bool, true, false, ◌||◌, Option, none, some, List, [], ◌∷◌, if◌then◌else◌, ltb,
  leb, is_none,
}

-- Times are in nanoseconds, as those of Go are.
abbrev pub second : ℕ
second = 1000000000

abbrev pub max_delay : ℕ
max_delay = 900000000000

abbrev pub relay_reconnect_stability : ℕ
relay_reconnect_stability = 30000000000

-- relay.go: `relayConnectionHadStableUptime`; `none` is the zero time.
unfoldable pub relay_connection_had_stable_uptime : Bool → Option ℕ → ℕ → Bool
relay_connection_had_stable_uptime already_stable none observed_at = already_stable
relay_connection_had_stable_uptime already_stable (some since) observed_at =
    already_stable || leb (since + relay_reconnect_stability) observed_at

-- relay.go: `resetRelayReconnectDelay`.
unfoldable pub reset_relay_reconnect_delay : ℕ → Bool → ℕ
reset_relay_reconnect_delay delay had_stable = if had_stable then second else delay

-- What `RunRelay` keeps of one connection: the time since it is connected, and whether it was
-- stable before.
pub record Uptime : Type 0 where
  pub connected_since : Option ℕ
  pub had_stable : Bool

-- The function that `RunRelay` gives to `runRelayConnection`: a status at the time `now`.
unfoldable pub observe : Uptime → Bool → ℕ → Uptime
observe u true now =
    if is_none u.connected_since then record u { connected_since = some now } else u
observe u false now = record {
  connected_since = none;
  had_stable = relay_connection_had_stable_uptime u.had_stable u.connected_since now;
}

unfoldable pub observe_all : Uptime → List (Bool × ℕ) → Uptime
observe_all u [] = u
observe_all u ((connected, now) ∷ statuses) = observe_all (observe u connected now) statuses

-- One connection as `RunRelay` sees it: its statuses with their times, the time at which it ended,
-- whether the enrolment was refused, and whether the context was done by then or during the wait
-- that followed. `rand_int` is what `rand.Int` answers to a bound, `none` an error of it.
pub record Connection : Type 0 where
  pub statuses : List (Bool × ℕ)
  pub ended_at : ℕ
  pub refused : Bool
  pub cancelled : Bool
  pub cancelled_asleep : Bool
  pub rand_int : ℕ → Option ℕ

abbrev pub no_uptime : Uptime
no_uptime = record { connected_since = none; had_stable = false }

unfoldable pub is_stable : Connection → Bool
is_stable connection =
    let u = observe_all no_uptime connection.statuses in
    relay_connection_had_stable_uptime u.had_stable u.connected_since connection.ended_at

-- One timer of `fullJitterSleep`: the maximum that it was given and the time that it was set to.
pub record Wait : Type 0 where
  pub maximum : ℕ
  pub timer : ℕ

-- relay.go: `fullJitterSleep`: the timer, and whether it returned no error.
unfoldable pub full_jitter_sleep : Connection → ℕ → Option Wait × Bool
full_jitter_sleep connection maximum = elim (connection.rand_int (maximum + 1)) [
  | none ↦ (none, false)
  | some value ↦
      (some (record { maximum = maximum; timer = value }), not connection.cancelled_asleep)
]

unfoldable pub next_delay : ℕ → ℕ
next_delay delay =
    if ltb delay max_delay
    then (if ltb max_delay (delay * 2) then max_delay else delay * 2)
    else delay

-- How `RunRelay` ended: the enrolment was refused, or it returned nil.
pub data RunEnd : Type 0 where
  revoked stopped : RunEnd

unfoldable pub after_wait :
    Option Wait × Bool → List Wait × Option RunEnd → List Wait × Option RunEnd
after_wait (none, went_on) rest = ([], some stopped)
after_wait (some w, false) rest = (w ∷ [], some stopped)
after_wait (some w, true) (waits, end) = (w ∷ waits, end)

-- One round of `RunRelay`, with its wait; `rest` is what followed.
unfoldable pub round :
    Connection → Option Wait × Bool → List Wait × Option RunEnd → List Wait × Option RunEnd
round connection slept rest =
    if connection.cancelled
    then ([], some stopped)
    else if connection.refused
    then ([], some revoked)
    else after_wait slept rest

-- relay.go: the loop of `RunRelay` over the connections that it makes, with the timers that it set.
unfoldable pub run_relay : ℕ → List Connection → List Wait × Option RunEnd
run_relay delay [] = ([], none)
run_relay delay (connection ∷ connections) =
    let maximum = reset_relay_reconnect_delay delay (is_stable connection) in
    let rest = run_relay (next_delay maximum) connections in
    round connection (full_jitter_sleep connection maximum) rest
