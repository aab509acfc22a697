-- ===== src/Companion/Rules/Approval.antt =====
-- The stop of a pairing attempt of internal/companion/pairing.go and the begin of its commit.
use remote_davinci.Base.{
  ◌≡◌, ◌≢◌, refl, subst, Bool, true, false, ◌||◌, some, ◌∷◌, if◌then◌else◌, arith,
}
use remote_davinci.Companion.Pairing.{
  Phase, showing_qr, handshaking, awaiting_approval, committing, expired, cancelled, rejected,
  broken, Attempt, set_state, decide, stop, begin_commit, Position, waiting, shaking, deciding,
  approved, past_begin, ended, World, take_decision, start_commit, Step, decides, stops, cancels,
  times_out, joined, identified, takes, begins, breaks, completes, Steps, here, after,
}
use remote_davinci.Companion.Rules.Cases.{false≢true}

abbrev pub is_cancelled : Phase → Bool
is_cancelled cancelled = true
is_cancelled _ = false

-- The attempt can no longer begin its commit: it is over; or its context is done before a decision
-- was taken; or it was stopped while it awaited the approval or had just got it.
abbrev pub halted : Position → Bool → Phase → Bool
halted waiting done phase = done
halted shaking done phase = done
halted deciding done phase = done || is_cancelled phase
halted approved done phase = is_cancelled phase
halted past_begin done phase = false
halted ended done phase = true

abbrev pub Halted : World → Type 0
Halted w = halted w.position w.attempt.context_done w.attempt.phase ≡ true

halted-done :
    (p : Position) (done : Bool) (phase : Phase)
    → halted p done phase ≡ true
    → halted p true phase ≡ true
halted-done waiting done phase h = refl
halted-done shaking done phase h = refl
halted-done deciding done phase h = refl
halted-done approved done phase h = h
halted-done past_begin done phase h = h
halted-done ended done phase h = refl

halted-cancelled :
    (p : Position) (done : Bool) (phase : Phase)
    → halted p done phase ≡ true
    → halted p done cancelled ≡ true
halted-cancelled waiting done phase h = h
halted-cancelled shaking done phase h = h
halted-cancelled deciding true phase h = refl
halted-cancelled deciding false phase h = refl
halted-cancelled approved done phase h = refl
halted-cancelled past_begin done phase h = h
halted-cancelled ended done phase h = refl

decide-kept :
    (b : Bool) (a taken : Attempt)
    → taken.context_done ≡ a.context_done
    → taken.phase ≡ a.phase
    → (p : Position) → halted p a.context_done a.phase ≡ true
    → halted p
        (if◌then◌else◌ {A = Attempt × Bool} b (a, false) (taken, true)).0.context_done
        (if◌then◌else◌ {A = Attempt × Bool} b (a, false) (taken, true)).0.phase
      ≡ true
decide-kept true a taken d e p h = h
decide-kept false a taken d e p h = rw d rw e h

stop-kept :
    (b : Bool) (a : Attempt) (p : Position)
    → halted p a.context_done a.phase ≡ true
    → halted p
        (if◌then◌else◌ {A = Attempt × Bool} b
          (a, false)
          (set_state cancelled a, true)).0.context_done
        (if◌then◌else◌ {A = Attempt × Bool} b (a, false) (set_state cancelled a, true)).0.phase
      ≡ true
stop-kept true a p h = h
stop-kept false a p h = halted-cancelled p a.context_done a.phase h

take-Halted :
    (w : World) (approve done : Bool) (phase : Phase)
    → w.attempt.context_done ≡ done
    → halted deciding done w.attempt.phase ≡ true
    → Halted (take_decision approve phase w)
unfolding take_decision
take-Halted w approve true phase e h = rw e refl
take-Halted w true false phase e h = rw e h
take-Halted w false false phase e h = rw e refl

begin-Halted :
    (w : World) (old done : Phase)
    → w.attempt.phase ≡ old
    → is_cancelled old ≡ true
    → Halted (start_commit done w)
unfolding start_commit begin_commit
begin-Halted w cancelled done e h = rw e refl
begin-Halted w showing_qr done e h = ground arith
begin-Halted w handshaking done e h = ground arith
begin-Halted w awaiting_approval done e h = ground arith
begin-Halted w committing done e h = ground arith
begin-Halted w expired done e h = ground arith
begin-Halted w rejected done e h = ground arith
begin-Halted w broken done e h = ground arith

at :
    (w : World) (p : Position)
    → w.position ≡ p
    → Halted w
    → halted p w.attempt.context_done w.attempt.phase ≡ true
at w p e h = subst (λ q. halted q w.attempt.context_done w.attempt.phase ≡ true) e h

step-Halted : (w v : World) → Step w v → Halted w → Halted v
unfolding decide stop
step-Halted w _ (decides approve pair_id) h =
    decide-kept _ w.attempt
      (record w.attempt {
        decided = true;
        decision = some approve;
        accepted = approve ∷ w.attempt.accepted;
      })
      refl refl w.position h
step-Halted w _ (stops pair_id ok) h = stop-kept _ w.attempt w.position h
step-Halted w _ (cancels pending) h =
    halted-done w.position w.attempt.context_done w.attempt.phase h
step-Halted w _ times_out h = halted-done w.position w.attempt.context_done w.attempt.phase h
step-Halted w _ (joined e) h = at w waiting e h
step-Halted w _ (identified e) h = rw (at w shaking e h) refl
step-Halted w _ (takes approve cause now expires_at e d) h =
    take-Halted w approve w.attempt.context_done _ refl (at w deciding e h)
step-Halted w _ (begins now expires_at e) h =
    begin-Halted w w.attempt.phase _ refl (at w approved e h)
step-Halted w _ (breaks cause now expires_at e) h = refl
step-Halted w _ (completes e) h = refl

steps-Halted : (w v : World) → Steps w v → Halted w → Halted v
steps-Halted w _ here h = h
steps-Halted w v (after {v = u} steps step) h = step-Halted u v step (steps-Halted w u steps h)

-- An attempt that is halted never begins its commit, however the web interface and the run
-- interleave: its context is done before a decision was taken, or `stop` set its phase while it
-- awaited the approval or before `beginCommit`, or it is over.
pub steps-uncommitted : (w v : World) → Steps w v → Halted w → v.position ≢ past_begin
steps-uncommitted w v steps h e = false≢true (at v past_begin e (steps-Halted w v steps h))
