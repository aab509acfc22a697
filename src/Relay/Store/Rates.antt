-- ===== src/Relay/Store/Rates.antt =====
-- services/rendezvous-relay/internal/relay/store.go: the rate limits, a counter for each source,
-- action and window of time.
pub mod Soundness
use Prim.Native.String.{◌++◌}
use remote_davinci.Base.{
  ℕ, zero, suc, ◌+◌, ◌-◌, ◌*◌, ◌/◌, ◌%◌, min, String, true, some, ltb, ◌==◌, if◌then◌else◌,
}
use remote_davinci.Protocol.{rate_limited}
use remote_davinci.Relay.Failure.{Result, ok, err, service, conditional_failure}
use remote_davinci.Relay.Effect.{Prog, pure, fail, ◌>>=◌, update_item}
use remote_davinci.Relay.Table.{Write}
use remote_davinci.Relay.Store.Writes.{rate_hit}

abbrev pub minute_rate_window_seconds : ℕ
minute_rate_window_seconds = 60

abbrev pub hourly_rate_window_seconds : ℕ
hourly_rate_window_seconds = 3600

abbrev pub daily_rate_window_seconds : ℕ
daily_rate_window_seconds = 86400

abbrev pub default_pair_activations_per_source_hour : ℕ
default_pair_activations_per_source_hour = 10

abbrev pub pair_activations_per_day : ℕ
pair_activations_per_day = 10000

unfoldable pub digit : ℕ → String
digit n =
    if n == 0
    then "0"
    else if n == 1
    then "1"
    else if n == 2
    then "2"
    else if n == 3
    then "3"
    else if n == 4
    then "4"
    else if n == 5
    then "5"
    else if n == 6
    then "6"
    else if n == 7
    then "7"
    else if n == 8
    then "8"
    else "9"

-- `%d`: an `int64` has at most 19 digits.
unfoldable pub decimal_from : ℕ → ℕ → String
decimal_from zero n = ""
decimal_from (suc f) n =
    let rest = decimal_from f (n / 10) in if ltb n 10 then digit n else rest ++ digit (n % 10)

unfoldable pub decimal : ℕ → String
decimal n = decimal_from 19 n

unfoldable pub rate_key : String → String → ℕ → String
rate_key source_key action bucket = source_key ++ "#" ++ action ++ "#" ++ decimal bucket

-- The first part of `rateLimitUpdate`'s result.
unfoldable pub rate_limit_update : String → String → ℕ → ℕ → ℕ → Write
rate_limit_update source_key action limit window_seconds now =
    let bucket = now / window_seconds in
    rate_hit (rate_key source_key action bucket) limit ((bucket + 2) * window_seconds)

-- The second part. The end of the window is never before `now`.
unfoldable pub retry_after : ℕ → ℕ → ℕ
retry_after window_seconds now =
    min (((now / window_seconds + 1) * window_seconds - now) * 1000) 3600000

unfoldable pub rate_limit_answer : ℕ → Result (Unit {0}) → Prog (Unit {0})
rate_limit_answer after (ok done) = pure tt
rate_limit_answer after (err e) =
    if conditional_failure e
    then fail
        (service (record { code = rate_limited; retryable = true; retry_after_ms = some after }))
    else fail e

-- `rateLimit`
unfoldable pub rate_limit_in : String → String → ℕ → ℕ → ℕ → Prog (Unit {0})
rate_limit_in source_key action limit window_seconds now = do
  answer ← update_item (rate_limit_update source_key action limit window_seconds now)
  rate_limit_answer (retry_after window_seconds now) answer

-- `RateLimit`
unfoldable pub rate_limit : String → String → ℕ → ℕ → Prog (Unit {0})
rate_limit source_key action limit now =
    rate_limit_in source_key action limit minute_rate_window_seconds now
