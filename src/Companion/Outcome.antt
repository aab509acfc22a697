-- ===== src/Companion/Outcome.antt =====
-- The results of the code of internal/companion and the errors that it makes or tells apart.
use remote_davinci.Base.{String, Option, none, some, Bool, true, false}
use remote_davinci.Protocol.{ErrorCode}
use remote_davinci.Protocol.Wire.{Parsed, parsed, refused}

-- `message` is an `errors.New`, `operation_error` the type of companion.go with its code, `terminal`
-- an error that wraps `errEnrollmentTerminal`, `validation` a parser's error, and `external` any
-- error of a library.
pub data Fault : Type 0 where
  message : String → Fault
  operation_error : String → Fault
  terminal : String → Fault
  validation : ErrorCode → Fault
  external : Fault

pub data Outcome {ℓ} (A : Type ℓ) : Type ℓ where
  returned : A → Outcome A
  failed : Fault → Outcome A

infixl 5 ◌>>=◌ ◌>>◌
abbrev pub ◌>>=◌ {ℓ κ} : {A : Type ℓ} {B : Type κ} → Outcome A → (A → Outcome B) → Outcome B
returned a >>= f = f a
failed e >>= f = failed e

abbrev pub ◌>>◌ {ℓ} : {B : Type ℓ} → Outcome (Unit {0}) → Outcome B → Outcome B
m >> n = m >>= λ _. n

abbrev pub check : Bool → Fault → Outcome (Unit {0})
check true e = returned tt
check false e = failed e

abbrev pub present {ℓ} : {A : Type ℓ} → Option A → Fault → Outcome A
present none e = failed e
present (some a) e = returned a

abbrev pub from_parsed {ℓ} : {A : Type ℓ} → Parsed A → Outcome A
from_parsed (parsed a) = returned a
from_parsed (refused e) = failed (validation e)
