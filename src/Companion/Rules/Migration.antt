-- ===== src/Companion/Rules/Migration.antt =====
-- Where the configurations are after `MigrateConfigStore` of internal/companion/storage.go.
use remote_davinci.Base.{
  ℕ, String, ◌≡◌, refl, sym, ap, ◌∙◌, subst, Bool, true, false, ◌&&◌, Option, none, some, inl, inr,
  ◌⊎◌, Bool-cases, arith, str_eq, eq_iff, ◌==◌,
}
use remote_davinci.Companion.Outcome.{Fault, Outcome, returned, failed}
use remote_davinci.Companion.Config.{Config, config_eq, bool_eq}
use remote_davinci.Companion.Storage.{
  Loaded, found, not_exist, load_failed, ConfigStore, if_valid, remove_if_equal, compare_legacy,
  verify_copy, after_save, copy_legacy, migrate_loaded, migrate_config_store,
}
use remote_davinci.Companion.Rules.Cases.{none≢some}

both : {a b : Bool} → (a && b) ≡ true → (a ≡ true) × (b ≡ true)
both h = ground arith

same_bool : (a b : Bool) → bool_eq a b ≡ true → a ≡ b
same_bool true b h = sym h
same_bool false b h = ground arith

same_number : (a b : ℕ) → (a == b) ≡ true → a ≡ b
same_number a b h = ground arith

same_text : (a b : String) → str_eq a b ≡ true → a ≡ b
same_text a b h = ground (arith, eq_iff a b)

config_eq-same : (a b : Config) → config_eq a b ≡ true → a ≡ b
config_eq-same a b h =
    let (r12, h12) = both h in
    let e12 : a.link_revoked ≡ b.link_revoked = same_bool a.link_revoked b.link_revoked h12 in
    let (r11, h11) = both r12 in
    let e11 : a.activation_pending ≡ b.activation_pending =
      same_bool a.activation_pending b.activation_pending h11 in
    let (r10, h10) = both r11 in
    let e10 : a.permission_mask ≡ b.permission_mask =
      same_number a.permission_mask b.permission_mask h10 in
    let (r9, h9) = both r10 in
    let e9 : a.controller_label ≡ b.controller_label =
      same_text a.controller_label b.controller_label h9 in
    let (r8, h8) = both r9 in
    let e8 : a.controller_fingerprint ≡ b.controller_fingerprint =
      same_text a.controller_fingerprint b.controller_fingerprint h8 in
    let (r7, h7) = both r8 in
    let e7 : a.controller_noise_key ≡ b.controller_noise_key =
      same_text a.controller_noise_key b.controller_noise_key h7 in
    let (r6, h6) = both r7 in
    let e6 : a.controller_endpoint_id ≡ b.controller_endpoint_id =
      same_text a.controller_endpoint_id b.controller_endpoint_id h6 in
    let (r5, h5) = both r6 in
    let e5 : a.noise_private_key ≡ b.noise_private_key =
      same_text a.noise_private_key b.noise_private_key h5 in
    let (r4, h4) = both r5 in
    let e4 : a.secret ≡ b.secret = same_text a.secret b.secret h4 in
    let (r3, h3) = both r4 in
    let e3 : a.endpoint_id ≡ b.endpoint_id = same_text a.endpoint_id b.endpoint_id h3 in
    let (r2, h2) = both r3 in
    let e2 : a.link_id ≡ b.link_id = same_text a.link_id b.link_id h2 in
    let (r1, h1) = both r2 in
    let e1 : a.relay_url ≡ b.relay_url = same_text a.relay_url b.relay_url h1 in
    let e0 : a.v ≡ b.v = same_number a.v b.v r1 in
    cc (e0, e1, e2, e3, e4, e5, e6, e7, e8, e9, e10, e11, e12)

-- What the stores do: `legacy_of` and `keychain_of` are the configurations that they hold. A load
-- changes neither and tells the truth; saving to the Keychain leaves the legacy record alone, and
-- deleting the legacy record the Keychain; what a save writes is left open.
pub record Storing (S : Type 0) : Type 0 where
  pub legacy : ConfigStore S
  pub keychain : ConfigStore S
  pub legacy_of : S → Option Config
  pub keychain_of : S → Option Config
  pub legacy_load-kept :
      (s : S)
      → (legacy_of (legacy.load s).0 ≡ legacy_of s)
        × (keychain_of (legacy.load s).0 ≡ keychain_of s)
  pub keychain_load-kept :
      (s : S)
      → (legacy_of (keychain.load s).0 ≡ legacy_of s)
        × (keychain_of (keychain.load s).0 ≡ keychain_of s)
  pub legacy_load-found : (s : S) (c : Config) → (legacy.load s).1 ≡ found c → legacy_of s ≡ some c
  pub keychain_load-found :
      (s : S) (c : Config) → (keychain.load s).1 ≡ found c → keychain_of s ≡ some c
  pub keychain_load-missing : (s : S) → (keychain.load s).1 ≡ not_exist → keychain_of s ≡ none
  pub keychain_save-kept : (s : S) (c : Config) → legacy_of (keychain.save s c).0 ≡ legacy_of s
  pub legacy_delete-kept : (s : S) → keychain_of (legacy.delete s).0 ≡ keychain_of s

module _ {S : Type 0} (storing : Storing S) (validate : Config → Outcome (Unit {0}))
    (c : Config) where
  abbrev pub Held : S → Type 0
  Held s = (storing.legacy_of s ≡ some c) ⊎ (storing.keychain_of s ≡ some c)

  abbrev pub migrated : S → S
  migrated s = (migrate_config_store validate storing.legacy storing.keychain s).0

  if_valid-Held :
      (s : S) (o : Outcome (Unit {0})) (rest : S × Option Fault)
      → Held s
      → Held rest.0
      → Held (if_valid validate storing.legacy storing.keychain s o rest).0
  if_valid-Held s (failed fault) rest h k = h
  if_valid-Held s (returned u) rest h k = k

  remove-Held :
      (s : S) (old secure : Config)
      → storing.legacy_of s ≡ some old
      → storing.keychain_of s ≡ some secure
      → Held s
      → Held (remove_if_equal validate storing.legacy storing.keychain s old secure).0
  unfolding remove_if_equal
  remove-Held s old secure has_old has_secure held = elim (Bool-cases (config_eq old secure)) [
    | inr e ↦ rw e held
    | inl e ↦
        let same : old ≡ secure = config_eq-same old secure e in
        let kept : storing.keychain_of (storing.legacy.delete s).0 ≡ some secure =
          storing.legacy_delete-kept s ∙ has_secure in
        rw e (elim held [
          | inl l ↦ inr (kept ∙ ap some (sym same) ∙ sym has_old ∙ l)
          | inr k ↦ inr (storing.legacy_delete-kept s ∙ k)
        ])
  ]

  legacy_loaded : (s : S) (r : S × Loaded) → storing.legacy.load s ≡ r → Held s → Held r.0
  legacy_loaded s r e held =
      let (old_kept, keychain_kept) = storing.legacy_load-kept s in
      subst (λ (x : S × Loaded). Held x.0) e
        (elim held [ inl l ↦ inl (old_kept ∙ l) | inr k ↦ inr (keychain_kept ∙ k) ])

  keychain_loaded : (s : S) (r : S × Loaded) → storing.keychain.load s ≡ r → Held s → Held r.0
  keychain_loaded s r e held =
      let (old_kept, keychain_kept) = storing.keychain_load-kept s in
      subst (λ (x : S × Loaded). Held x.0) e
        (elim held [ inl l ↦ inl (old_kept ∙ l) | inr k ↦ inr (keychain_kept ∙ k) ])

  legacy_kept :
      (s : S) (r : S × Loaded) (old : Config)
      → storing.keychain.load s ≡ r
      → storing.legacy_of s ≡ some old
      → storing.legacy_of r.0 ≡ some old
  legacy_kept s r old e l =
      subst (λ (x : S × Loaded). storing.legacy_of x.0 ≡ some old) e
        ((storing.keychain_load-kept s).0 ∙ l)

  saved :
      (s : S) (new : Config) (r : S × Option Fault) (old : Config)
      → storing.keychain.save s new ≡ r
      → storing.legacy_of s ≡ some old
      → storing.legacy_of r.0 ≡ some old
  saved s new r old e l =
      subst (λ (x : S × Option Fault). storing.legacy_of x.0 ≡ some old) e
        (storing.keychain_save-kept s new ∙ l)

  legacy_only :
      (s s' : S)
      → storing.keychain.load s ≡ (s', not_exist)
      → Held s
      → storing.legacy_of s' ≡ some c
  legacy_only s s' e (inl l) = legacy_kept s (s', not_exist) c e l
  legacy_only s s' e (inr k) =
      elim (none≢some (sym (storing.keychain_load-missing s (ap (λ x. x.1) e)) ∙ k)) [ ]

  compare-Held :
      (s : S) (secure : Config) (r : S × Loaded)
      → storing.legacy.load s ≡ r
      → storing.keychain_of s ≡ some secure
      → Held s
      → Held (compare_legacy validate storing.legacy storing.keychain secure r).0
  unfolding compare_legacy
  compare-Held s secure (s', not_exist) e has held = legacy_loaded s (s', not_exist) e held
  compare-Held s secure (s', load_failed fault) e has held =
      legacy_loaded s (s', load_failed fault) e held
  compare-Held s secure (s', found old) e has held =
      let after = legacy_loaded s (s', found old) e held in
      let (old_kept, keychain_kept) = storing.legacy_load-kept s in
      if_valid-Held s' (validate old) _ after (
        remove-Held s' old secure
          (subst (λ (x : S × Loaded). storing.legacy_of x.0 ≡ some old) e
            (old_kept ∙ storing.legacy_load-found s old (ap (λ x. x.1) e)))
          (subst (λ (x : S × Loaded). storing.keychain_of x.0 ≡ some secure) e
            (keychain_kept ∙ has))
          after)

  verify-Held :
      (s : S) (old : Config) (r : S × Loaded)
      → storing.keychain.load s ≡ r
      → storing.legacy_of s ≡ some old
      → storing.legacy_of s ≡ some c
      → Held (verify_copy validate storing.legacy storing.keychain old r).0
  unfolding verify_copy
  verify-Held s old (s', not_exist) e has_old l = inl (legacy_kept s (s', not_exist) c e l)
  verify-Held s old (s', load_failed fault) e has_old l =
      inl (legacy_kept s (s', load_failed fault) c e l)
  verify-Held s old (s', found verified) e has_old l =
      let after = legacy_kept s (s', found verified) c e l in
      let (old_kept, keychain_kept) = storing.keychain_load-kept s in
      if_valid-Held s' (validate verified) _ (inl after) (
        remove-Held s' old verified (legacy_kept s (s', found verified) old e has_old)
          (subst (λ (x : S × Loaded). storing.keychain_of x.0 ≡ some verified) e
            (keychain_kept ∙ storing.keychain_load-found s verified (ap (λ x. x.1) e)))
          (inl after))

  after_save-Held :
      (s : S) (old : Config) (r : S × Option Fault)
      → storing.keychain.save s old ≡ r
      → storing.legacy_of s ≡ some old
      → storing.legacy_of s ≡ some c
      → Held (after_save validate storing.legacy storing.keychain old r).0
  unfolding after_save
  after_save-Held s old (s', some fault) e has_old l = inl (saved s old (s', some fault) c e l)
  after_save-Held s old (s', none) e has_old l =
      verify-Held s' old _ refl (saved s old (s', none) old e has_old)
        (saved s old (s', none) c e l)

  copy-Held :
      (s : S) (r : S × Loaded)
      → storing.legacy.load s ≡ r
      → storing.legacy_of s ≡ some c
      → Held (copy_legacy validate storing.legacy storing.keychain r).0
  unfolding copy_legacy
  copy-Held s (s', not_exist) e l = legacy_loaded s (s', not_exist) e (inl l)
  copy-Held s (s', load_failed fault) e l = legacy_loaded s (s', load_failed fault) e (inl l)
  copy-Held s (s', found old) e l =
      let (old_kept, keychain_kept) = storing.legacy_load-kept s in
      let here = subst (λ (x : S × Loaded). storing.legacy_of x.0 ≡ some c) e (old_kept ∙ l) in
      let has_old =
        subst (λ (x : S × Loaded). storing.legacy_of x.0 ≡ some old) e
          (old_kept ∙ storing.legacy_load-found s old (ap (λ x. x.1) e)) in
      if_valid-Held s' (validate old) _ (inl here) (after_save-Held s' old _ refl has_old here)

  migrate_loaded-Held :
      (s : S) (r : S × Loaded)
      → storing.keychain.load s ≡ r
      → Held s
      → Held (migrate_loaded validate storing.legacy storing.keychain r).0
  unfolding migrate_loaded
  migrate_loaded-Held s (s', load_failed fault) e held =
      keychain_loaded s (s', load_failed fault) e held
  migrate_loaded-Held s (s', not_exist) e held = copy-Held s' _ refl (legacy_only s s' e held)
  migrate_loaded-Held s (s', found secure) e held =
      let after = keychain_loaded s (s', found secure) e held in
      let (old_kept, keychain_kept) = storing.keychain_load-kept s in
      if_valid-Held s' (validate secure) _ after (
        compare-Held s' secure _ refl
          (subst (λ (x : S × Loaded). storing.keychain_of x.0 ≡ some secure) e
            (keychain_kept ∙ storing.keychain_load-found s secure (ap (λ x. x.1) e)))
          after)

  -- A configuration that the legacy store or the Keychain holds is held by one of them after
  -- `MigrateConfigStore`, whatever it returns and whatever a failed or a wrong save has written.
  pub migrate_config_store-Held : (s : S) → Held s → Held (migrated s)
  unfolding migrate_config_store
  migrate_config_store-Held s held = migrate_loaded-Held s _ refl held
