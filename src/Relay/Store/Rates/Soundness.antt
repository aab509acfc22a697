-- ===== src/Relay/Store/Rates/Soundness.antt =====
-- The rate limits of services/rendezvous-relay/internal/relay/store.go, and the soundness of the
-- requests.
use remote_davinci.Base.{ℕ, String}
use remote_davinci.Relay.Failure.{Result, ok, err, conditional_failure}
use remote_davinci.Relay.Safety.Writes.{SoundWrite, rate_hit-SoundWrite}
use remote_davinci.Relay.Safety.Calls.{Sound, Sound-if, Sound-pure, Sound-fail, sound_rules}
use remote_davinci.Relay.Store.Rates.{
  rate_limit_update, rate_limit_answer, rate_limit_in, rate_limit,
}

pub rate_limit_update-SoundWrite :
    (source_key action : String) (limit window_seconds now : ℕ)
    → SoundWrite (rate_limit_update source_key action limit window_seconds now)
unfolding rate_limit_update
rate_limit_update-SoundWrite source_key action limit window_seconds now =
    rate_hit-SoundWrite _ limit _

rate_limit_answer-Sound : (after : ℕ) (r : Result (Unit {0})) → Sound (rate_limit_answer after r)
unfolding rate_limit_answer
rate_limit_answer-Sound after (ok done) = Sound-pure tt
rate_limit_answer-Sound after (err e) =
    Sound-if (conditional_failure e) _ _ (Sound-fail _) (Sound-fail e)

pub rate_limit-Sound :
    (source_key action : String) (limit now : ℕ) → Sound (rate_limit source_key action limit now)
unfolding rate_limit rate_limit_in
rate_limit-Sound source_key action limit now =
    search (sound_rules, rate_limit_update-SoundWrite, rate_limit_answer-Sound)
