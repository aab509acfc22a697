-- ===== src/Companion/Storage.antt =====
-- internal/companion/storage.go: `MigrateConfigStore` over the interface `ConfigStore`. A store works on
-- the state `S` of the computer.
use remote_davinci.Base.{not, Option, none, some, if◌then◌else◌}
use remote_davinci.Companion.Outcome.{Fault, message, Outcome, returned, failed}
use remote_davinci.Companion.Config.{Config, config_eq}

-- The result of `Load`: a configuration, `os.ErrNotExist`, or another error.
pub data Loaded : Type 0 where
  found : Config → Loaded
  not_exist : Loaded
  load_failed : Fault → Loaded

pub record ConfigStore (S : Type 0) : Type 0 where
  pub load : S → S × Loaded
  pub save : S → Config → S × Option Fault
  pub delete : S → S × Option Fault

-- `ErrConfigStoreMismatch`
abbrev pub config_store_mismatch : Fault
config_store_mismatch = message "stored companion configurations do not match"

module _ {S : Type 0} (validate : Config → Outcome (Unit {0}))
    (legacy keychain : ConfigStore S) where
  -- A configuration that is not valid ends the migration.
  abbrev pub if_valid : S → Outcome (Unit {0}) → S × Option Fault → S × Option Fault
  if_valid s (failed fault) rest = (s, some fault)
  if_valid s (returned u) rest = rest

  -- The legacy record goes only if it equals the record `secure` of the Keychain.
  unfoldable pub remove_if_equal : S → Config → Config → S × Option Fault
  remove_if_equal s old secure =
      if not (config_eq old secure) then (s, some config_store_mismatch) else legacy.delete s

  unfoldable pub compare_legacy : Config → S × Loaded → S × Option Fault
  compare_legacy secure (s, not_exist) = (s, none)
  compare_legacy secure (s, load_failed fault) = (s, some fault)
  compare_legacy secure (s, found old) = if_valid s (validate old) (remove_if_equal s old secure)

  unfoldable pub verify_copy : Config → S × Loaded → S × Option Fault
  verify_copy old (s, not_exist) = (s, some (message "verify Keychain configuration"))
  verify_copy old (s, load_failed fault) = (s, some fault)
  verify_copy old (s, found verified) =
      if_valid s (validate verified) (remove_if_equal s old verified)

  unfoldable pub after_save : Config → S × Option Fault → S × Option Fault
  after_save old (s, some fault) = (s, some fault)
  after_save old (s, none) = verify_copy old (keychain.load s)

  unfoldable pub copy_legacy : S × Loaded → S × Option Fault
  copy_legacy (s, not_exist) = (s, none)
  copy_legacy (s, load_failed fault) = (s, some fault)
  copy_legacy (s, found old) = if_valid s (validate old) (after_save old (keychain.save s old))

  unfoldable pub migrate_loaded : S × Loaded → S × Option Fault
  migrate_loaded (s, found secure) =
      if_valid s (validate secure) (compare_legacy secure (legacy.load s))
  migrate_loaded (s, not_exist) = copy_legacy (legacy.load s)
  migrate_loaded (s, load_failed fault) = (s, some fault)

  -- storage.go: `MigrateConfigStore`; `none` is success.
  unfoldable pub migrate_config_store : S → S × Option Fault
  migrate_config_store s = migrate_loaded (keychain.load s)
