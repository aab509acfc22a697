-- ===== src/Companion/Rules/Decision.antt =====
-- The decision of a pairing attempt of internal/companion/pairing.go and the begin of its commit.
use remote_davinci.Base.{
  String, ◌≡◌, ◌≢◌, refl, sym, ap, ◌∙◌, subst, Bool, true, false, ◌||◌, Option, none, some, List,
  [], ◌∷◌, if◌then◌else◌, arith,
}
use remote_davinci.Companion.Pairing.{
  Phase, cancelled, is_awaiting, Attempt, set_state, decide, stop, begin_commit, Position, approved,
  past_begin, World, start, take_decision, start_commit, Step, decides, stops, cancels, times_out,
  joined, identified, takes, begins, breaks, completes, Steps, here, after,
}
use remote_davinci.Companion.Rules.Cases.{same_some, none≢some, false≢true}

-- No decision has been accepted, or one has, which is still in the channel or has been taken.
pub data Agrees : Bool → Option Bool → List Bool → Type 0 where
  undecided : Agrees false none []
  unread : (b : Bool) → Agrees true (some b) (b ∷ [])
  read : (b : Bool) → Agrees true none (b ∷ [])

abbrev pub is_approved : Position → Bool
is_approved approved = true
is_approved past_begin = true
is_approved _ = false

abbrev pub Sound : World → Type 0
Sound w =
    Agrees w.attempt.decided w.attempt.decision w.attempt.accepted
    × (is_approved w.position ≡ true → w.attempt.accepted ≡ true ∷ [])

nil≢cons : {b : Bool} {bs : List Bool} → ◌≢◌ {A = List Bool} [] (b ∷ bs)
nil≢cons h = cc h

last_false : (a b : Bool) → (a || b) ≡ false → b ≡ false
last_false a b h = ground arith

no_decision :
    (decided : Bool) (decision : Option Bool) (accepted : List Bool)
    → Agrees decided decision accepted
    → decided ≡ false
    → accepted ≡ []
no_decision _ _ _ undecided e = refl
no_decision _ _ _ (unread b) e = elim (false≢true (sym e)) [ ]
no_decision _ _ _ (read b) e = elim (false≢true (sym e)) [ ]

-- A decision that is accepted is the first: the flag `decided` is looked at.
decide-Sound :
    (w : World) (refuse approve : Bool)
    → Sound w
    → (refuse ≡ false → w.attempt.decided ≡ false)
    → Sound (record w {
      attempt =
          (if◌then◌else◌ {A = Attempt × Bool} refuse
            (w.attempt, false)
            (
              record w.attempt {
                decided = true;
                decision = some approve;
                accepted = approve ∷ w.attempt.accepted;
              },
              true,
            )).0;
    })
decide-Sound w true approve h first = h
decide-Sound w false approve (agrees, approval) first =
    let empty = no_decision _ _ _ agrees (first refl) in
    (
      subst (λ (l : List Bool). Agrees true (some approve) (approve ∷ l)) (sym empty)
          (unread approve),
      λ e. elim (nil≢cons (sym empty ∙ approval e)) [ ],
    )

taken :
    (decided : Bool) (decision : Option Bool) (accepted : List Bool) (b : Bool)
    → Agrees decided decision accepted
    → decision ≡ some b
    → Agrees decided none accepted × (accepted ≡ b ∷ [])
taken _ _ _ b undecided e = elim (none≢some e) [ ]
taken _ _ _ b (unread c) e = (read c, ap (λ (x : Bool). x ∷ []) (same_some e))
taken _ _ _ b (read c) e = elim (none≢some e) [ ]

take-Sound :
    (w : World) (approve done : Bool) (phase : Phase)
    → w.attempt.context_done ≡ done
    → Sound w
    → w.attempt.decision ≡ some approve
    → Sound (take_decision approve phase w)
unfolding take_decision
take-Sound w approve true phase e (agrees, approval) d =
    rw e ((taken _ _ _ approve agrees d).0, λ bad. elim (false≢true bad) [ ])
take-Sound w true false phase e (agrees, approval) d =
    let (left, yea) = taken _ _ _ true agrees d in rw e (left, λ _. yea)
take-Sound w false false phase e (agrees, approval) d =
    rw e ((taken _ _ _ false agrees d).0, λ bad. elim (false≢true bad) [ ])

begin-Sound :
    (w : World) (awaiting : Bool) (done : Phase)
    → is_awaiting w.attempt.phase ≡ awaiting
    → w.position ≡ approved
    → Sound w
    → Sound (start_commit done w)
unfolding start_commit begin_commit
begin-Sound w true done e p (agrees, approval) = rw e (agrees, λ _. approval (ap is_approved p))
begin-Sound w false done e p (agrees, approval) = rw e (agrees, λ bad. elim (false≢true bad) [ ])

stop-Sound :
    (w : World) (refuse : Bool)
    → Sound w
    → Sound (record w {
      attempt =
          (if◌then◌else◌ {A = Attempt × Bool} refuse
            (w.attempt, false)
            (set_state cancelled w.attempt, true)).0;
      stopping = true;
    })
stop-Sound w true h = h
stop-Sound w false h = h

step-Sound : (w v : World) → Step w v → Sound w → Sound v
unfolding decide stop
step-Sound w _ (decides approve pair_id) h =
    decide-Sound w _ approve h (λ e. last_false _ w.attempt.decided e)
step-Sound w _ (stops pair_id ok) h = stop-Sound w _ h
step-Sound w _ (cancels pending) h = h
step-Sound w _ times_out h = h
step-Sound w _ (joined e) h = (h.0, λ bad. elim (false≢true bad) [ ])
step-Sound w _ (identified e) h = (h.0, λ bad. elim (false≢true bad) [ ])
step-Sound w _ (takes approve cause now expires_at e d) h =
    take-Sound w approve w.attempt.context_done _ refl h d
step-Sound w _ (begins now expires_at e) h = begin-Sound w _ _ refl e h
step-Sound w _ (breaks cause now expires_at e) h = (h.0, λ bad. elim (false≢true bad) [ ])
step-Sound w _ (completes e) h = (h.0, λ bad. elim (false≢true bad) [ ])

steps-Sound : (w v : World) → Steps w v → Sound w → Sound v
steps-Sound w _ here h = h
steps-Sound w v (after {v = u} steps step) h = step-Sound u v step (steps-Sound w u steps h)

-- A pairing attempt begins its commit only if exactly one decision was accepted, and it was an
-- approval, however the web interface and the run interleave.
pub steps-approved :
    (pair_id : String) (v : World)
    → Steps (start pair_id) v
    → v.position ≡ past_begin
    → v.attempt.accepted ≡ true ∷ []
steps-approved pair_id v steps e =
    (steps-Sound (start pair_id) v steps (undecided, λ bad. elim (false≢true bad) [ ])).1
      (ap is_approved e)
