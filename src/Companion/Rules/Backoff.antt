-- ===== src/Companion/Rules/Backoff.antt =====
-- The waits of `RunRelay` of internal/companion/relay.go between its connections.
use remote_davinci.Base.{
  ◌⊎◌, inl, inr, ℕ, zero, suc, ◌+◌, ◌*◌, ◌<◌, ◌≤◌, ◌≡◌, refl, sym, Bool, true, false, Option, none,
  some, List, [], ◌∷◌, All, arith, if◌then◌else◌, ltb, not, ap, ◌∙◌, subst,
}
use remote_davinci.Companion.Relay.{
  second, max_delay, Connection, RunEnd, revoked, stopped, is_stable, Wait, full_jitter_sleep,
  after_wait, next_delay, round, run_relay, reset_relay_reconnect_delay,
}

-- The documented behaviour of `rand.Int`: its value is below the bound.
abbrev pub InRange : Connection → Type 0
InRange c = (bound value : ℕ) → c.rand_int bound ≡ some value → value < bound

-- The longest wait after `n` connections in a row that were not stable: 2 to the `n` seconds, 15 minutes
-- at most.
abbrev pub backoff : ℕ → ℕ
backoff zero = second
backoff (suc n) = let longer = backoff n * 2 in if ltb max_delay longer then max_delay else longer

-- The number of connections in a row that were not stable, after one more.
abbrev pub failures : ℕ → Connection → ℕ
failures n c = if is_stable c then 0 else n

-- The end of `RunRelay` after the connection `c`, without a wait.
abbrev pub EndsAt : ℕ → Connection → Type 0
EndsAt n c =
    (c.cancelled ≡ true) ⊎ ((c.refused ≡ true) ⊎ (c.rand_int (backoff (failures n c) + 1) ≡ none))

-- Each connection is followed by a wait, which is at most the backoff for the connections so far, of
-- which `n` in a row were not stable, unless the connection or its wait ended the loop.
abbrev pub BacksOff : ℕ → List Connection → List Wait → Type 0
BacksOff n [] [] = Unit
BacksOff n [] (w ∷ ws) = ⊥
BacksOff n (c ∷ cs) [] = EndsAt n c
BacksOff n (c ∷ cs) (w ∷ ws) =
    (w.maximum ≡ backoff (failures n c))
    × (w.timer ≤ w.maximum)
    × (BacksOff (suc (failures n c)) cs ws ⊎ ((c.cancelled_asleep ≡ true) × (ws ≡ [])))

backoff-bounded : (n : ℕ) → backoff n ≤ max_delay
backoff-bounded zero = omega arith
backoff-bounded (suc n) = ground arith

next_delay-backoff : (n : ℕ) → next_delay (backoff n) ≡ backoff (suc n)
unfolding next_delay
next_delay-backoff n = let h = backoff-bounded n in ground arith

reset-backoff :
    (n : ℕ) (c : Connection) (b : Bool)
    → reset_relay_reconnect_delay (backoff n) b ≡ backoff (if b then 0 else n)
unfolding reset_relay_reconnect_delay
reset-backoff n c true = refl
reset-backoff n c false = refl

waited :
    (n : ℕ) (c : Connection) (cs : List Connection) (maximum : ℕ) (drawn : Option ℕ) (asleep : Bool)
    (rest : List Wait × Option RunEnd)
    → maximum ≡ backoff (failures n c)
    → c.rand_int (maximum + 1) ≡ drawn
    → c.cancelled_asleep ≡ asleep
    → ((value : ℕ) → drawn ≡ some value → value ≤ maximum)
    → BacksOff (suc (failures n c)) cs rest.0
    → BacksOff n
        (c ∷ cs)
        (after_wait
          (elim drawn [
            | none ↦ (none, false)
            | some value ↦ (some (record { maximum = maximum; timer = value }), not asleep)
          ])
          rest).0
unfolding after_wait
waited n c cs maximum none asleep rest e drawn cut low more =
    inr (inr (subst (λ (m : ℕ). c.rand_int (m + 1) ≡ none) e drawn))
waited n c cs maximum (some value) true rest e drawn cut low more =
    (e, low value refl, inr (cut, refl))
waited n c cs maximum (some value) false rest e drawn cut low more = (e, low value refl, inl more)

round-BacksOff :
    (n : ℕ) (c : Connection) (cs : List Connection) (rest : List Wait × Option RunEnd)
    (w : Option Wait × Bool) (cancelled refused : Bool)
    → c.cancelled ≡ cancelled
    → c.refused ≡ refused
    → BacksOff n (c ∷ cs) (after_wait w rest).0
    → BacksOff n
        (c ∷ cs)
        (if◌then◌else◌ {A = List Wait × Option RunEnd} cancelled
          ([], some stopped)
          (if refused then ([], some revoked) else after_wait w rest)).0
round-BacksOff n c cs rest w true refused f g h = inl f
round-BacksOff n c cs rest w false true f g h = inr (inl g)
round-BacksOff n c cs rest w false false f g h = h

-- If `rand.Int` answers below its bound, each wait of `RunRelay` is a time from 0 to a maximum, which is one
-- second after a stable connection and otherwise doubles from one second with each connection since
-- the start or the last stable one, up to 15 minutes; `n` is the number of these connections
-- before, which is 0 at the start. Each connection has such a wait unless the loop ended with it: the
-- context was done, the enrolment was refused, or the random source failed.
pub run_relay-BacksOff :
    (connections : List Connection) (n : ℕ)
    → All InRange connections
    → BacksOff n connections (run_relay (backoff n) connections).0
unfolding run_relay round full_jitter_sleep
run_relay-BacksOff [] n h = tt
run_relay-BacksOff (c ∷ cs) n (low, rest) =
    let maximum : ℕ = reset_relay_reconnect_delay (backoff n) (is_stable c) in
    let e : maximum ≡ backoff (failures n c) = reset-backoff n c (is_stable c) in
    let next : next_delay maximum ≡ backoff (suc (failures n c)) =
      ap next_delay e ∙ next_delay-backoff (failures n c) in
    let more : BacksOff (suc (failures n c)) cs (run_relay (next_delay maximum) cs).0 =
      subst (λ (d : ℕ). BacksOff (suc (failures n c)) cs (run_relay d cs).0) (sym next)
        (run_relay-BacksOff cs (suc (failures n c)) rest) in
    round-BacksOff n c cs (run_relay (next_delay maximum) cs) (full_jitter_sleep c maximum)
      c.cancelled c.refused refl refl
      (waited n c cs maximum (c.rand_int (maximum + 1)) c.cancelled_asleep
        (run_relay (next_delay maximum) cs) e refl refl
        (λ value drawn. let b = low _ value drawn in omega arith) more)
