-- ===== src/Companion/Permissions.antt =====
-- internal/companion/companion.go: the mask of a pairing's permissions. A mask is a uint8; bit `i`
-- stands for the operation at place `i` of `supportedOperations`.
use remote_davinci.Base.{
  ◌≢◌, inr, inl, Bool-cases, ℕ, zero, suc, ◌+◌, ◌*◌, ◌/◌, ◌%◌, ◌<◌, ◌≡◌, refl, String, Bool, true,
  false, ◌&&◌, List, [], ◌∷◌, if◌then◌else◌, ◌==◌, contains, All, arith,
}

abbrev pub supported_operations : List String
supported_operations =
    "resolve.page.cut" ∷ "resolve.page.edit" ∷ "resolve.page.fusion" ∷ "resolve.page.color"
    ∷ "host.volume.toggle-mute" ∷ "resolve.page.media" ∷ "resolve.page.fairlight"
    ∷ "resolve.page.deliver" ∷ []

abbrev pub all_permission_bits : ℕ
all_permission_bits = 255

-- The operations whose bit is set: the lowest bit stands for the first operation.
unfoldable pub selected : ℕ → List String → List String
selected mask [] = []
selected mask (operation ∷ operations) =
    let rest = selected (mask / 2) operations in if mask % 2 == 1 then operation ∷ rest else rest

-- companion.go: `grantedPermissions`.
unfoldable pub granted_permissions : ℕ → List String
granted_permissions mask =
    selected (if mask == 0 then all_permission_bits else mask) supported_operations

unfoldable pub mask_of : List String → List String → ℕ
mask_of requested [] = 0
mask_of requested (supported ∷ operations) =
    (if contains supported requested then 1 else 0) + 2 * mask_of requested operations

-- companion.go: `requestedPermissionMask`.
unfoldable pub requested_permission_mask : List String → ℕ
requested_permission_mask requested = mask_of requested supported_operations

-- A test that holds for all numbers below `n`, and what it says of one of them.
unfoldable all_below : (ℕ → Bool) → ℕ → Bool
all_below p zero = true
all_below p (suc n) = p n && all_below p n

and_split : (a b : Bool) → (a && b) ≡ true → (a ≡ true) × (b ≡ true)
and_split a b h = ground arith

all_below-at : (p : ℕ → Bool) (n m : ℕ) → all_below p n ≡ true → m < n → p m ≡ true
unfolding all_below
all_below-at p zero m h lt = ground arith
all_below-at p (suc n) m h lt = elim (Bool-cases (m == n)) [
  | inl e ↦ let same : m ≡ n = ground arith in rw same (and_split _ _ h).0
  | inr e ↦ all_below-at p n m (and_split _ _ h).1 (ground arith)
]

unfoldable round_trips : ℕ → Bool
round_trips m = requested_permission_mask (granted_permissions m) == (if m == 0 then 255 else m)

round_trips-all : all_below round_trips 256 ≡ true
unfolding all_below round_trips requested_permission_mask granted_permissions selected mask_of
round_trips-all = refl

same_mask : (a b : ℕ) → (a == b) ≡ true → a ≡ b
same_mask a b h = ground arith

-- The mask that a pairing stores is read back as itself: asking for exactly the operations that a
-- mask grants gives that mask again, and mask 0, which grants every operation, gives 255.
pub requested_permission_mask-granted :
    (mask : ℕ)
    → mask < 256
    → requested_permission_mask (granted_permissions mask) ≡ (if mask == 0 then 255 else mask)
unfolding round_trips
requested_permission_mask-granted mask h =
    same_mask _ _ (all_below-at round_trips 256 mask round_trips-all h)

low_bit : (b : Bool) (k : ℕ) → (((if b then 1 else 0) + 2 * k) % 2 == 1) ≡ b
low_bit true k = ground arith
low_bit false k = ground arith

high_bits : (b : Bool) (k : ℕ) → ((if b then 1 else 0) + 2 * k) / 2 ≡ k
high_bits true k = omega arith
high_bits false k = omega arith

kept :
    (requested : List String) (o : String) (rest : List String) (b : Bool)
    → contains o requested ≡ b
    → All (λ x. contains x requested ≡ true) rest
    → All (λ x. contains x requested ≡ true) (if b then o ∷ rest else rest)
kept requested o rest true e h = (e, h)
kept requested o rest false e h = h

mask_of-selected :
    (requested operations : List String)
    → All (λ o. contains o requested ≡ true) (selected (mask_of requested operations) operations)
unfolding selected mask_of
mask_of-selected requested [] = tt
mask_of-selected requested (o ∷ operations) =
    let k = mask_of requested operations in
    rw (low_bit (contains o requested) k) rw (high_bits (contains o requested) k)
      (kept requested o _ (contains o requested) refl (mask_of-selected requested operations))

-- A request that names a supported operation is granted nothing that it does not name.
pub granted_permissions-requested :
    (requested : List String)
    → requested_permission_mask requested ≢ 0
    → All
        (λ o. contains o requested ≡ true)
        (granted_permissions (requested_permission_mask requested))
unfolding granted_permissions requested_permission_mask
granted_permissions-requested requested h =
    let nonzero : (mask_of requested supported_operations == 0) ≡ false = ground arith in
    rw nonzero (mask_of-selected requested supported_operations)
