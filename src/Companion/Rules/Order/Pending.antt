-- ===== src/Companion/Rules/Order/Pending.antt =====
-- The map `pending` of internal/companion/relay.go and the packets that are delivered, by their number.
use remote_davinci.Base.{
  ℕ, suc, ◌+◌, ◌≤◌, ◌<◌, ◌≡◌, refl, ap, false, Option, none, some, List, [], ◌∷◌, ◌++◌,
  if◌then◌else◌, ◌==◌, length, arith, is_none, Bool-cases, inl, inr,
}
use remote_davinci.Companion.Reorder.{find, delete}

-- Packet `k` of a list whose first packet has the number `first`.
abbrev pub packet_at : ℕ → List (List ℕ) → ℕ → Option (List ℕ)
packet_at first [] k = none
packet_at first (p ∷ ps) k = if first == k then some p else packet_at (suc first) ps k

pub packet_at-append :
    (first : ℕ) (ps : List (List ℕ)) (p : List ℕ) (k : ℕ)
    → packet_at first (ps ++ (p ∷ [])) k
      ≡ (if first + length ps == k then some p else packet_at first ps k)
packet_at-append first [] p k = ground arith
packet_at-append first (q ∷ ps) p k = ground (arith, packet_at-append (suc first) ps p k)

pub packet_at-beyond :
    (first : ℕ) (ps : List (List ℕ)) (k : ℕ) → first + length ps ≤ k → packet_at first ps k ≡ none
packet_at-beyond first [] k h = refl
packet_at-beyond first (q ∷ ps) k h = ground (arith, packet_at-beyond (suc first) ps k)

pub packet_at-below :
    (first : ℕ) (ps : List (List ℕ)) (k : ℕ)
    → first ≤ k
    → k < first + length ps
    → is_none (packet_at first ps k) ≡ false
packet_at-below first [] k lo hi = ground arith
packet_at-below first (q ∷ ps) k lo hi = ground (arith, packet_at-below (suc first) ps k)

pub packet_at-before :
    (first : ℕ) (ps : List (List ℕ)) (k : ℕ) → k < first → packet_at first ps k ≡ none
packet_at-before first [] k h = refl
packet_at-before first (q ∷ ps) k h = ground (arith, packet_at-before (suc first) ps k)

pub length-append : (ps : List (List ℕ)) (p : List ℕ) → length (ps ++ (p ∷ [])) ≡ suc (length ps)
length-append [] p = refl
length-append (q ∷ ps) p = ap suc (length-append ps p)

-- No number stands twice in the map.
abbrev pub Unique : List (ℕ × List ℕ) → Type 0
Unique [] = Unit
Unique ((k, p) ∷ m) = (find k m ≡ none) × Unique m

abbrev pub total : List (ℕ × List ℕ) → ℕ
total [] = 0
total ((k, p) ∷ m) = length p + total m

pub find-delete :
    (j k : ℕ) (m : List (ℕ × List ℕ))
    → Unique m
    → find k (delete j m) ≡ (if j == k then none else find k m)
unfolding delete
find-delete j k [] h = ground arith
find-delete j k ((i, p) ∷ m) (h0, h1) = ground (arith, find-delete j k m h1)

still_absent :
    (j i : ℕ) (m : List (ℕ × List ℕ)) → find i m ≡ none → Unique m → find i (delete j m) ≡ none
still_absent j i m absent h = ground (arith, find-delete j i m h)

pub delete-Unique : (j : ℕ) (m : List (ℕ × List ℕ)) → Unique m → Unique (delete j m)
unfolding delete
delete-Unique j [] h = tt
delete-Unique j ((i, p) ∷ m) h = elim (Bool-cases (i == j)) [
  | inl e ↦ rw e h.1
  | inr e ↦ rw e (still_absent j i m h.0 h.1, delete-Unique j m h.1)
]

pub length-delete :
    (j : ℕ) (m : List (ℕ × List ℕ)) (p : List ℕ)
    → find j m ≡ some p
    → suc (length (delete j m)) ≡ length m
unfolding delete
length-delete j [] p h = ground arith
length-delete j ((i, q) ∷ m) p h = ground (arith, length-delete j m p)

pub total-delete :
    (j : ℕ) (m : List (ℕ × List ℕ)) (p : List ℕ)
    → find j m ≡ some p
    → total m ≡ length p + total (delete j m)
unfolding delete
total-delete j [] p h = ground arith
total-delete j ((i, q) ∷ m) p h = ground (arith, total-delete j m p)

pub find-delete_self : (j : ℕ) (m : List (ℕ × List ℕ)) → Unique m → find j (delete j m) ≡ none
find-delete_self j m h = ground (arith, find-delete j j m h)

pub delete-kept :
    (j k : ℕ) (m : List (ℕ × List ℕ))
    → Unique m
    → is_none (find k (delete j m)) ≡ false
    → is_none (find k m) ≡ false
delete-kept j k m h has = ground (arith, find-delete j k m h)
