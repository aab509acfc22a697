-- ===== src/Relay/Failure.antt =====
-- The `error` values of services/rendezvous-relay/internal/relay and the tests that the code makes
-- on them with `errors.As`.
use remote_davinci.Base.{
  ℕ, zero, suc, Bool, true, false, ◌&&◌, Option, none, some, List, [], ◌∷◌, if◌then◌else◌,
}
use remote_davinci.Protocol.{ErrorCode}
use remote_davinci.Relay.Model.{ServiceError}

-- The code of one entry of `CancellationReasons`: absent or "None", "ConditionalCheckFailed", or
-- any other.
pub data Reason : Type 0 where
  no_reason condition_reason other_reason : Reason

-- `joined` is `errors.Join`; `gone` is an API error with the code "GoneException"; `other` is any
-- error that the code does not tell apart.
pub data Failure : Type 0 where
  service : ServiceError → Failure
  validation : ErrorCode → Failure
  conditional_check_failed : Failure
  transaction_canceled : List Reason → Failure
  gone_exception : Failure
  joined : Failure → Failure → Failure
  other : Failure

pub data Result {ℓ} (A : Type ℓ) : Type ℓ where
  ok : A → Result A
  err : Failure → Result A

abbrev pub service_error : ErrorCode → Failure
service_error c = service (record { code = c; retryable = false; retry_after_ms = none })

abbrev pub retryable_error : ErrorCode → Failure
retryable_error c = service (record { code = c; retryable = true; retry_after_ms = none })

abbrev pub or_else {ℓ} : {A : Type ℓ} → Option A → Option A → Option A
or_else none y = y
or_else (some a) y = some a

-- `errors.As(err, &service)`: the first service error of the tree of errors.
abbrev pub as_service : Failure → Option ServiceError
as_service (service e) = some e
as_service (joined e f) = or_else (as_service e) (as_service f)
as_service _ = none

-- `errors.As(err, &validation)`
abbrev pub as_validation : Failure → Option ErrorCode
as_validation (validation c) = some c
as_validation (joined e f) = or_else (as_validation e) (as_validation f)
as_validation _ = none

-- `errors.As(err, &conditional)` and `errors.As(err, &cancelled)`
abbrev pub is_conditional : Failure → Bool
is_conditional conditional_check_failed = true
is_conditional (joined e f) = if is_conditional e then true else is_conditional f
is_conditional _ = false

abbrev pub as_cancelled : Failure → Option (List Reason)
as_cancelled (transaction_canceled rs) = some rs
as_cancelled (joined e f) = or_else (as_cancelled e) (as_cancelled f)
as_cancelled _ = none

-- The loop of `conditionalFailure` over the reasons, with its variable `found`.
abbrev pub only_conditions : Bool → List Reason → Bool
only_conditions found [] = found
only_conditions found (no_reason ∷ rs) = only_conditions found rs
only_conditions found (condition_reason ∷ rs) = only_conditions true rs
only_conditions found (other_reason ∷ rs) = false

abbrev pub cancelled_by_condition : Option (List Reason) → Bool
cancelled_by_condition none = false
cancelled_by_condition (some rs) = only_conditions false rs

unfoldable pub conditional_failure : Failure → Bool
conditional_failure e = if is_conditional e then true else cancelled_by_condition (as_cancelled e)

abbrev pub reason_at : ℕ → List Reason → Bool
reason_at i [] = false
reason_at zero (condition_reason ∷ rs) = true
reason_at zero (r ∷ rs) = false
reason_at (suc i) (r ∷ rs) = reason_at i rs

-- No reason but a failed condition, and none is needed.
abbrev no_other_reason : List Reason → Bool
no_other_reason rs = only_conditions true rs

abbrev pub condition_failed_at : ℕ → Option (List Reason) → Bool
condition_failed_at i none = false
condition_failed_at i (some rs) = reason_at i rs && no_other_reason rs

-- An index is never negative where the code calls this.
unfoldable pub transaction_conditional_failure_at : Failure → ℕ → Bool
transaction_conditional_failure_at e index = condition_failed_at index (as_cancelled e)

abbrev pub is_gone : Failure → Bool
is_gone gone_exception = true
is_gone (joined e f) = if is_gone e then true else is_gone f
is_gone _ = false
