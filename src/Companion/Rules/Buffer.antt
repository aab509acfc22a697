-- ===== src/Companion/Rules/Buffer.antt =====
-- The buffer of early frames of a pairing attempt (`pending` and `pendingBytes` in
-- internal/companion/pairing.go) and its limits.
use remote_davinci.Base.{
  ℕ, suc, ◌+◌, ◌-◌, ◌≤◌, ◌≡◌, true, false, some, List, leb, ltb, ◌==◌, length, arith,
}
use remote_davinci.Companion.Reorder.{
  find, delete, max_relay_reorder_frames, max_relay_reorder_bytes,
}
use remote_davinci.Companion.Frames.{Frames}
use remote_davinci.Companion.Rules.Order.Pending.{
  Unique, total, find-delete, length-delete, total-delete,
}

-- The buffer holds at most eight packets and 131072 bytes, each number once, and counts its bytes.
pub record Fits (f : Frames) : Type 0 where
  pub unique : Unique f.pending
  pub counted : f.pending_bytes ≡ total f.pending
  pub few : length f.pending ≤ max_relay_reorder_frames
  pub small : f.pending_bytes ≤ max_relay_reorder_bytes

pub same_number : (a b : ℕ) → (a == b) ≡ true → a ≡ b
same_number a b h = ground arith

pub keep_few : (n : ℕ) → leb max_relay_reorder_frames n ≡ false → suc n ≤ max_relay_reorder_frames
keep_few n h = ground arith

pub keep_small : (n : ℕ) → ltb max_relay_reorder_bytes n ≡ false → n ≤ max_relay_reorder_bytes
keep_small n h = ground arith

pub keep_counted :
    (f : Frames) (packet : List ℕ)
    → f.pending_bytes ≡ total f.pending
    → f.pending_bytes + length packet ≡ length packet + total f.pending
keep_counted f packet h = omega arith

pub take_counted :
    (f : Frames) (k : ℕ) (packet : List ℕ)
    → find k f.pending ≡ some packet
    → f.pending_bytes ≡ total f.pending
    → f.pending_bytes - length packet ≡ total (delete k f.pending)
take_counted f k packet e h = let t = total-delete k f.pending packet e in omega arith

pub take_few :
    (f : Frames) (k : ℕ) (packet : List ℕ)
    → find k f.pending ≡ some packet
    → length f.pending ≤ max_relay_reorder_frames
    → length (delete k f.pending) ≤ max_relay_reorder_frames
take_few f k packet e h = let t = length-delete k f.pending packet e in omega arith

pub take_small :
    (f : Frames) (packet : List ℕ)
    → f.pending_bytes ≤ max_relay_reorder_bytes
    → f.pending_bytes - length packet ≤ max_relay_reorder_bytes
take_small f packet h = omega arith

pub still :
    (k j : ℕ) (m : List (ℕ × List ℕ)) (p : List ℕ)
    → Unique m
    → find j (delete k m) ≡ some p
    → find j m ≡ some p
still k j m p u e = ground (arith, find-delete k j m u)
