-- ===== src/Companion/Rules/Delivered.antt =====
-- The packets that `nextPairPacket` of internal/companion/pairing.go returns, and its buffer.
use remote_davinci.Base.{
  ℕ, ◌+◌, ◌-◌, ◌≡◌, refl, ap, ◌∙◌, subst, String, Bool, true, false, not, ◌||◌, Option, none, some,
  List, [], ◌∷◌, if◌then◌else◌, leb, ltb, ◌==◌, length, is_none, str_eq, Bool-cases, inl, inr, Memᴰ,
}
use remote_davinci.Protocol.Wire.{Envelope}
use remote_davinci.Companion.Outcome.{Fault, Outcome, returned, failed}
use remote_davinci.Companion.Reorder.{find, max_relay_reorder_frames, max_relay_reorder_bytes}
use remote_davinci.Companion.Frames.{
  PairFrame, Frames, Answer, Got, pair_packet, stop_with, passed, keep, place, pair_frame,
  after_message, take_waiting, pair_message, read_packet, taken_or_read, next_pair_packet,
}
use remote_davinci.Companion.Rules.Order.Pending.{delete-Unique}
use remote_davinci.Companion.Rules.Cases.{same_some, none≢some, same_result, failed≢returned}
use remote_davinci.Companion.Rules.Buffer.{
  Fits, same_number, keep_few, keep_small, keep_counted, take_counted, take_few, take_small, still,
}

module _ (decode : List ℕ → Option PairFrame) (pair_id : String)
    (all : List (Outcome Envelope)) where
  -- One of the messages `all` is a frame of the pair with the number `k` and the packet `p`.
  pub record Arrived (k : ℕ) (p : List ℕ) : Type 0 where
    pub envelope : Envelope
    pub frame : PairFrame
    pub came : Memᴰ {A = Outcome Envelope} (returned envelope) all
    pub decoded : decode envelope.body ≡ some frame
    pub of_pair : str_eq frame.pair_id pair_id ≡ true
    pub numbered : frame.seq ≡ k
    pub carried : pair_packet frame.payload ≡ some p

  pub record Sound (f : Frames) : Type 0 where
    pub fits : Fits f
    pub genuine : (k : ℕ) (p : List ℕ) → find k f.pending ≡ some p → Arrived k p

  -- An answer for the number `k` is sound.
  abbrev pub SoundAnswer : ℕ → Answer → Type 0
  SoundAnswer k (f, result) = Sound f × ((p : List ℕ) → result ≡ some (returned p) → Arrived k p)

  abbrev pub SoundGot : ℕ → Got → Type 0
  SoundGot k got = Sound got.frames × ((p : List ℕ) → got.result ≡ some (returned p) → Arrived k p)

  fails : (k : ℕ) (f : Frames) (fault : Fault) → Sound f → SoundAnswer k (f, some (failed fault))
  fails k f fault h = (h, λ p e. elim (failed≢returned (same_some e)) [ ])

  either :
      (b : Bool) (k : ℕ) (x y : Answer)
      → SoundAnswer k x
      → SoundAnswer k y
      → SoundAnswer k (if b then x else y)
  either true k x y h h' = h
  either false k x y h h' = h'

  kept_at :
      (seq : ℕ) (packet : List ℕ) (j : ℕ) (p : List ℕ) (b : Bool)
      → (seq == j) ≡ b
      → (o : Option (List ℕ)) → Arrived seq packet
      → (o ≡ some p → Arrived j p)
      → (if b then some packet else o) ≡ some p
      → Arrived j p
  kept_at seq packet j p true same o arrived h e =
      subst (λ (x : ℕ). Arrived x p) (same_number seq j same)
        (subst (λ (x : List ℕ). Arrived seq x) (same_some e) arrived)
  kept_at seq packet j p false same o arrived h e = h e

  kept :
      (seq : ℕ) (packet : List ℕ) (m : List (ℕ × List ℕ)) (j : ℕ) (p : List ℕ)
      → Arrived seq packet
      → (find j m ≡ some p → Arrived j p)
      → find j ((seq, packet) ∷ m) ≡ some p
      → Arrived j p
  kept seq packet m j p arrived h e = kept_at seq packet j p (seq == j) refl (find j m) arrived h e

  keep-Sound :
      (f : Frames) (seq : ℕ) (packet : List ℕ)
      → Sound f
      → find seq f.pending ≡ none
      → leb max_relay_reorder_frames (length f.pending) ≡ false
      → ltb max_relay_reorder_bytes (f.pending_bytes + length packet) ≡ false
      → Arrived seq packet
      → Sound (keep f seq packet)
  keep-Sound f seq packet h absent few small arrived = record {
    fits = record {
      unique = (absent, h.fits.unique);
      counted = keep_counted f packet h.fits.counted;
      few = keep_few (length f.pending) few;
      small = keep_small (f.pending_bytes + length packet) small;
    };
    genuine = λ j p e. kept seq packet f.pending j p arrived (h.genuine j p) e;
  }

  passed-Sound : (f : Frames) → Sound f → Sound (passed f)
  passed-Sound f h = record {
    fits = record {
      unique = h.fits.unique;
      counted = h.fits.counted;
      few = h.fits.few;
      small = h.fits.small;
    };
    genuine = h.genuine;
  }

  store-Sound :
      (k : ℕ) (f : Frames) (seq : ℕ) (packet : List ℕ) (full : Bool)
      → leb max_relay_reorder_frames (length f.pending) ≡ full
      → (big : Bool) → ltb max_relay_reorder_bytes (f.pending_bytes + length packet) ≡ big
      → Sound f
      → find seq f.pending ≡ none
      → Arrived seq packet
      → SoundAnswer k (
          if full || big
          then stop_with f "pairing frame reorder buffer full"
          else (keep f seq packet, none))
  store-Sound k f seq packet true _ big _ h absent arrived = fails k f _ h
  store-Sound k f seq packet false _ true _ h absent arrived = fails k f _ h
  store-Sound k f seq packet false few false small h absent arrived =
      (keep-Sound f seq packet h absent few small arrived, λ p e. elim (none≢some e) [ ])

  place-Sound :
      (k : ℕ) (f : Frames) (seq : ℕ) (o : Option (List ℕ))
      → Sound f
      → find seq f.pending ≡ none
      → ((p : List ℕ) → o ≡ some p → Arrived seq p)
      → SoundAnswer k (place k f seq o)
  unfolding place
  place-Sound k f seq none h absent arrived = fails k f _ h
  place-Sound k f seq (some packet) h absent arrived = elim (Bool-cases (seq == k)) [
    | inl e ↦ rw e (
      passed-Sound f h,
      λ p e'.
          subst (λ (x : ℕ). Arrived x p) (same_number seq k e)
            (arrived p (ap some (same_result (same_some e')))),
    )
    | inr e ↦ rw e (store-Sound k f seq packet _ refl _ refl h absent (arrived packet refl))
  ]

  placed :
      (k : ℕ) (f : Frames) (frame : PairFrame) (o : Option (List ℕ))
      → find frame.seq f.pending ≡ o
      → Sound f
      → ((p : List ℕ) → pair_packet frame.payload ≡ some p → Arrived frame.seq p)
      → SoundAnswer k (
          if not (is_none o) || ltb max_relay_reorder_frames (frame.seq - k)
          then stop_with f "unexpected pairing frame"
          else place k f frame.seq (pair_packet frame.payload))
  placed k f frame (some p) e h arrived = fails k f _ h
  placed k f frame none e h arrived =
      either (ltb max_relay_reorder_frames (frame.seq - k)) k _ _ (fails k f _ h)
        (place-Sound k f frame.seq _ h e arrived)

  pair_frame-Sound :
      (k : ℕ) (f : Frames) (o : Option PairFrame) (envelope : Envelope)
      → Sound f
      → Memᴰ {A = Outcome Envelope} (returned envelope) all
      → decode envelope.body ≡ o
      → SoundAnswer k (pair_frame pair_id k f o)
  unfolding pair_frame
  pair_frame-Sound k f none envelope h m d = fails k f _ h
  pair_frame-Sound k f (some frame) envelope h m d =
      elim (Bool-cases (str_eq frame.pair_id pair_id)) [
        | inr e ↦ rw e (fails k f _ h)
        | inl e ↦ rw e (
            either (ltb frame.seq k) k _ _ (fails k f _ h) (
              placed k f frame (find frame.seq f.pending) refl h (λ p c. record {
                envelope = envelope;
                frame = frame;
                came = m;
                decoded = d;
                of_pair = e;
                numbered = refl;
                carried = c;
              })))
      ]

  pair_message-Sound :
      (k : ℕ) (f : Frames) (o : Outcome Envelope)
      → Sound f
      → Memᴰ o all
      → SoundAnswer k (pair_message decode pair_id k f o)
  unfolding pair_message
  pair_message-Sound k f (failed fault) h m = fails k f fault h
  pair_message-Sound k f (returned envelope) h m =
      either (str_eq envelope.type "pair.frame") k _ _ (pair_frame-Sound k f _ envelope h m refl) (
        either (str_eq envelope.type "pair.closed" || str_eq envelope.type "error") k _ _
          (fails k f _ h) (fails k f _ h))

  after_message-Sound :
      (k : ℕ) (again : Frames → Got) (rest : List (Outcome Envelope)) (answer : Answer)
      → ((f : Frames) → Sound f → SoundGot k (again f))
      → SoundAnswer k answer
      → SoundGot k (after_message again rest answer)
  after_message-Sound k again rest (f, none) ih h = ih f h.0
  after_message-Sound k again rest (f, some result) ih h = h

  read_packet-Sound :
      (k : ℕ) (ms : List (Outcome Envelope)) (f : Frames)
      → ((m : Outcome Envelope) → Memᴰ m ms → Memᴰ m all)
      → Sound f
      → SoundGot k (read_packet decode pair_id k f ms)
  unfolding read_packet
  read_packet-Sound k [] f among h = (h, λ p e. elim (none≢some e) [ ])
  read_packet-Sound k (m ∷ ms) f among h =
      after_message-Sound k (λ f'. read_packet decode pair_id k f' ms) ms _
        (λ f' h'. read_packet-Sound k ms f' (λ m' x. among m' (Memᴰ.tail x)) h')
        (pair_message-Sound k f m h (among m (Memᴰ.head refl)))

  take_waiting-Sound :
      (f : Frames) (k : ℕ) (packet : List ℕ)
      → find k f.pending ≡ some packet
      → Sound f
      → Sound (take_waiting f k packet)
  take_waiting-Sound f k packet e h = record {
    fits = record {
      unique = delete-Unique k f.pending h.fits.unique;
      counted = take_counted f k packet e h.fits.counted;
      few = take_few f k packet e h.fits.few;
      small = take_small f packet h.fits.small;
    };
    genuine = λ j p e'. h.genuine j p (still k j f.pending p h.fits.unique e');
  }

  taken-Sound :
      (k : ℕ) (ms : List (Outcome Envelope)) (f : Frames) (o : Option (List ℕ))
      → find k f.pending ≡ o
      → ((m : Outcome Envelope) → Memᴰ m ms → Memᴰ m all)
      → Sound f
      → SoundGot k (taken_or_read decode pair_id k f ms o)
  unfolding taken_or_read
  taken-Sound k ms f none e among h = read_packet-Sound k ms f among h
  taken-Sound k ms f (some packet) e among h = (
    take_waiting-Sound f k packet e h,
    λ p e'. h.genuine k p (e ∙ ap some (same_result (same_some e'))),
  )

  next_pair_packet-Sound :
      (k : ℕ) (ms : List (Outcome Envelope)) (f : Frames)
      → ((m : Outcome Envelope) → Memᴰ m ms → Memᴰ m all)
      → Sound f
      → SoundGot k (next_pair_packet decode pair_id k f ms)
  unfolding next_pair_packet
  next_pair_packet-Sound k ms f among h = elim (Bool-cases (k == f.next_in)) [
    | inl e ↦ rw e (taken-Sound k ms f _ refl among h)
    | inr e ↦ rw e (h, λ p e'. elim (failed≢returned (same_some e')) [ ])
  ]

  -- Whatever messages come, a packet that nextPairPacket returns is one that the relay delivered for
  -- this pair under the number asked for, and the buffer of early frames is again within its limits
  -- and has only delivered packets, if it was so before.
  pub next_pair_packet-Arrived :
      (k : ℕ) (ms : List (Outcome Envelope)) (f : Frames) (p : List ℕ)
      → ((m : Outcome Envelope) → Memᴰ m ms → Memᴰ m all)
      → Sound f
      → (next_pair_packet decode pair_id k f ms).result ≡ some (returned p)
      → Arrived k p × Sound (next_pair_packet decode pair_id k f ms).frames
  next_pair_packet-Arrived k ms f p among h e =
      let sound = next_pair_packet-Sound k ms f among h in (sound.1 p e, sound.0)
