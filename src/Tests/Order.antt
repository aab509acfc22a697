-- ===== src/Tests/Order.antt =====
-- The theorems on the reorder window, the delays and the permissions of internal/companion at
-- concrete inputs.
use remote_davinci.Base.{
  none, ltb, if◌then◌else◌, Option, ℕ, ◌≡◌, ◌<◌, refl, Bool, true, false, String, List, [], ◌∷◌,
  ◌++◌, All, some, arith, contains,
}
use remote_davinci.Companion.Outcome.{Outcome, returned}
use remote_davinci.Companion.Reorder.{
  Window, Outgoing, new_window, receive, receive_packet_at, payload_packet, buffer, drain,
  after_step, next_round, delete,
}
use remote_davinci.Companion.Permissions.{
  granted_permissions, requested_permission_mask, granted_permissions-requested, mask_of,
}
use remote_davinci.Companion.Relay.{
  relay_connection_had_stable_uptime, observe, observe_all, is_stable, reset_relay_reconnect_delay,
  next_delay, full_jitter_sleep, after_wait, round, Connection, run_relay,
}
use remote_davinci.Companion.Rules.Backoff.{backoff, BacksOff, run_relay-BacksOff}
use remote_davinci.Companion.Rules.Order.Delivery.{
  packets_of, nothing_yet, receive_all, EndsInOrder, receive_all-in_order,
}
use remote_davinci.Companion.Rules.Order.Arrival.{
  Completes, receive_all-progress, receive_all-confluent,
}
use remote_davinci.Protocol.Base64.{encode, decode, sextets, bytes_of, without_breaks}

-- A channel that keeps its packets and sends each of them back.
abbrev step : List (List ℕ) → List ℕ → List (List ℕ) × Outcome Outgoing
step packets packet =
    (packets ++ (packet ∷ []), returned (record { packets = packet ∷ []; ready = true }))

abbrev settled : List (List ℕ) → Bool
settled packets = true

-- The packets 5 and 7, as base64url.
abbrev five : List ℕ
five = 66 ∷ 81 ∷ []

abbrev seven : List ℕ
seven = 66 ∷ 119 ∷ []

abbrev in_turn : List (ℕ × List ℕ)
in_turn = (1, five) ∷ (2, seven) ∷ []

abbrev swapped : List (ℕ × List ℕ)
swapped = (2, seven) ∷ (1, five) ∷ []

abbrev both : List (List ℕ)
both = (5 ∷ []) ∷ (7 ∷ []) ∷ []

abbrev last : Window (List (List ℕ))
last = record { state = both; expected_in = 3; pending = []; pending_bytes = 0 }

receive_all-in_order_example :
    EndsInOrder step settled []
      (packets_of nothing_yet swapped)
      (receive_all step settled (new_window []) swapped [])
receive_all-in_order_example = receive_all-in_order step settled [] swapped

in_turn-Completes : Completes step settled [] in_turn last both
unfolding receive_all receive receive_packet_at payload_packet buffer drain after_step next_round
    delete encode decode sextets bytes_of without_breaks
in_turn-Completes = refl

swapped-Completes : Completes step settled [] swapped last both
unfolding receive_all receive receive_packet_at payload_packet buffer drain after_step next_round
    delete encode decode sextets bytes_of without_breaks
swapped-Completes = refl

five_packet : payload_packet five ≡ some (5 ∷ [])
unfolding payload_packet encode decode sextets bytes_of without_breaks
five_packet = refl

seven_packet : payload_packet seven ≡ some (7 ∷ [])
unfolding payload_packet encode decode sextets bytes_of without_breaks
seven_packet = refl

same_packets : (k : ℕ) → packets_of nothing_yet in_turn k ≡ packets_of nothing_yet swapped k
same_packets k = rw five_packet rw seven_packet ground arith

receive_all-confluent_example :
    (last.state ≡ last.state) × (last.expected_in ≡ last.expected_in) × (both ≡ both)
receive_all-confluent_example =
    receive_all-confluent step settled [] in_turn swapped last last both both in_turn-Completes
      swapped-Completes same_packets

receive_all-progress_example : 2 < 3
receive_all-progress_example =
    receive_all-progress step settled [] swapped 2 last both swapped-Completes
      (λ k low high. rw five_packet rw seven_packet ground arith)

-- A random source that answers 7 where it may.
abbrev sevens : ℕ → Option ℕ
sevens bound = if ltb 7 bound then some 7 else none

sevens-below : (bound value : ℕ) → sevens bound ≡ some value → value < bound
sevens-below bound value h = ground arith

-- A connection that was up for 40 seconds, and two that failed at once.
abbrev attempts : List Connection
attempts =
    record {
      statuses = (true, 10000000000) ∷ (false, 50000000000) ∷ [];
      ended_at = 50000000000;
      refused = false;
      cancelled = false;
      cancelled_asleep = false;
      rand_int = sevens;
    }
    ∷ record {
      statuses = [];
      ended_at = 60000000000;
      refused = false;
      cancelled = false;
      cancelled_asleep = false;
      rand_int = sevens;
    }
    ∷ record {
      statuses = [];
      ended_at = 70000000000;
      refused = false;
      cancelled = false;
      cancelled_asleep = false;
      rand_int = sevens;
    }
    ∷ []

-- The maxima are one, two and four seconds, after a start from eight.
attempts_maxima :
    (run_relay (backoff 3) attempts).0
    ≡ record { maximum = 1000000000; timer = 7 }
      ∷ record { maximum = 2000000000; timer = 7 }
      ∷ record { maximum = 4000000000; timer = 7 }
      ∷ []
unfolding run_relay round after_wait full_jitter_sleep next_delay reset_relay_reconnect_delay
    is_stable observe_all observe relay_connection_had_stable_uptime
attempts_maxima = refl

run_relay-BacksOff_example : BacksOff 3 attempts (run_relay (backoff 3) attempts).0
run_relay-BacksOff_example =
    run_relay-BacksOff attempts 3 (sevens-below, (sevens-below, (sevens-below, tt)))

abbrev wanted : List String
wanted = "resolve.page.cut" ∷ "host.reboot" ∷ []

wanted_mask : requested_permission_mask wanted ≡ 1
unfolding requested_permission_mask mask_of
wanted_mask = refl

granted_permissions-requested_example :
    All (λ o. contains o wanted ≡ true) (granted_permissions (requested_permission_mask wanted))
granted_permissions-requested_example =
    granted_permissions-requested wanted (λ empty. omega (arith, wanted_mask))
