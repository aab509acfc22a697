-- ===== src/Relay/Rules/Limits.antt =====
-- The rate limits of services/rendezvous-relay/internal/relay/store.go: when a client that is refused
-- may come again.
use remote_davinci.Base.{ℕ, ◌+◌, ◌*◌, ◌/◌, ◌≤◌, ◌<◌, ◌≡◌, arith}
use remote_davinci.Relay.Store.Rates.{retry_after}

-- After the limit of a minute, the time to wait is a whole number of seconds, from one to sixty, and
-- it ends just where the window of the limit does.
pub retry_after-minute :
    (now : ℕ)
    → (0 < retry_after 60 now)
      × (retry_after 60 now ≤ 60000)
      × (now * 1000 + retry_after 60 now ≡ (now / 60 + 1) * 60 * 1000)
unfolding retry_after
retry_after-minute now = (ground arith, ground arith, ground arith)

-- After the limits of an hour and of a day the time to wait is positive and one hour at most, and it
-- never ends after the window does.
retry_after-long :
    (now : ℕ)
    → (0 < retry_after 3600 now)
      × (retry_after 3600 now ≤ 3600000)
      × (now * 1000 + retry_after 3600 now ≡ (now / 3600 + 1) * 3600 * 1000)
      × (0 < retry_after 86400 now)
      × (retry_after 86400 now ≤ 3600000)
      × (now * 1000 + retry_after 86400 now ≤ (now / 86400 + 1) * 86400 * 1000)
unfolding retry_after
retry_after-long now =
    (ground arith, ground arith, ground arith, ground arith, ground arith, ground arith)
