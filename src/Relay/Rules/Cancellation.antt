-- ===== src/Relay/Rules/Cancellation.antt =====
-- The tests of services/rendezvous-relay/internal/relay/store.go on the error of a transaction.
use remote_davinci.Base.{
  Bool-cases, inl, inr, ℕ, zero, suc, ◌≡◌, refl, true, false, Option, none, some, List, [], ◌∷◌,
  arith,
}
use remote_davinci.Relay.Failure.{
  Failure, Reason, no_reason, condition_reason, other_reason, as_cancelled, only_conditions,
  reason_at, cancelled_by_condition, condition_failed_at, is_conditional, conditional_failure,
  transaction_conditional_failure_at,
}

-- A reason that is a failed condition, with no other reason, is found.
condition_found :
    (i : ℕ) (rs : List Reason)
    → reason_at i rs ≡ true
    → only_conditions true rs ≡ true
    → only_conditions false rs ≡ true
condition_found i [] h k = absurd (cc h)
condition_found zero (condition_reason ∷ rs) h k = k
condition_found zero (no_reason ∷ rs) h k = absurd (cc h)
condition_found zero (other_reason ∷ rs) h k = absurd (cc h)
condition_found (suc i) (condition_reason ∷ rs) h k = k
condition_found (suc i) (no_reason ∷ rs) h k = condition_found i rs h k
condition_found (suc i) (other_reason ∷ rs) h k = k

cancelled_found :
    (i : ℕ) (o : Option (List Reason))
    → condition_failed_at i o ≡ true
    → cancelled_by_condition o ≡ true
cancelled_found i none h = absurd (cc h)
cancelled_found i (some rs) h = condition_found i rs (ground (arith, h)) (ground (arith, h))

-- Whatever position of a transaction is asked about, a failed condition there is a failed condition of
-- the transaction: `activate`, which asks about two positions first, treats no error as a quota that
-- it would not otherwise treat as a lost race.
pub transaction_conditional_failure_at-conditional_failure :
    (e : Failure) (index : ℕ)
    → transaction_conditional_failure_at e index ≡ true
    → conditional_failure e ≡ true
unfolding transaction_conditional_failure_at conditional_failure
transaction_conditional_failure_at-conditional_failure e index h =
    let c = cancelled_found index (as_cancelled e) h in
    elim (Bool-cases (is_conditional e)) [ inl x ↦ rw x refl | inr x ↦ rw (x, c) refl ]
