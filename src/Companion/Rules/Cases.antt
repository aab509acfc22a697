-- ===== src/Companion/Rules/Cases.antt =====
-- Injectivity and separation of the constructors of the results in internal/companion.
use remote_davinci.Base.{◌≡◌, ◌≢◌, true, false, Option, none, some}
use remote_davinci.Companion.Outcome.{Fault, Outcome, returned, failed}

pub same_some {ℓ} : {A : Type ℓ} {x y : A} → some x ≡ some y → x ≡ y
same_some h = cc h

pub none≢some {ℓ} : {A : Type ℓ} {a : A} → ◌≢◌ {A = Option A} none (some a)
none≢some h = cc h

pub same_result {ℓ} : {A : Type ℓ} {x y : A} → returned x ≡ returned y → x ≡ y
same_result h = cc h

pub failed≢returned {ℓ} :
    {A : Type ℓ} {fault : Fault} {a : A} → ◌≢◌ {A = Outcome A} (failed fault) (returned a)
failed≢returned h = cc h

pub true≢false : true ≢ false
true≢false h = cc h

pub false≢true : false ≢ true
false≢true h = cc h
