-- ===== src/Companion/Rules/Secured.antt =====
-- When a channel of internal/companion/relay.go is authenticated and is reported as secure.
use remote_davinci.Base.{
  ℕ, suc, ◌≡◌, refl, sym, ap, ◌∙◌, subst, Bool, true, false, ◌&&◌, Option, none, some, List, [],
  ◌∷◌, length, arith, ◌==◌, if◌then◌else◌,
}
use remote_davinci.Protocol.Base64.{bytes_eq}
use remote_davinci.Companion.Outcome.{Fault, Outcome, returned, failed, message, external}
use remote_davinci.Companion.Channel.{
  Computer, Noise, Ciphers, SecureChannel, greet, answer_handshake, is_paired_peer,
  receive_handshake, send_reply, receive_plaintext, receive_packet, receive_with, is_settled,
  sending, Step,
}
use remote_davinci.Companion.Reorder.{Outgoing}
use remote_davinci.Companion.Rules.Cases.{failed≢returned, same_result, true≢false}

nonempty : (n : ℕ) (b : Bool) → ((suc n == 0) && b) ≡ false
nonempty n b = ground arith

module _ {S : Type 0} (computer : Computer S) (noise : Noise) where
  -- The packet is the handshake message of the paired controller: the Noise library reads it, its
  -- payload is empty and the sender's static key is the one of the configuration.
  abbrev pub FromController : SecureChannel noise → List ℕ → Type 0
  FromController c packet =
      let (handshake, payload) = noise.read_message c.handshake packet in
      (payload ≡ some []) × (bytes_eq (noise.peer_static handshake) c.peer_key ≡ true)

  paired :
      (c : SecureChannel noise) (handshake : noise.Handshake) (payload : Option (List ℕ))
      → is_paired_peer computer noise c handshake payload ≡ true
      → (payload ≡ some []) × (bytes_eq (noise.peer_static handshake) c.peer_key ≡ true)
  paired c handshake none h = elim (true≢false (sym h)) [ ]
  paired c handshake (some []) h = (refl, ground arith)
  paired c handshake (some (b ∷ bs)) h =
      elim (true≢false
        (sym h ∙ nonempty (length bs) (bytes_eq (noise.peer_static handshake) c.peer_key))) [ ]

  accepted_handshake :
      (b : Bool) (x y : Step computer noise) {out : Outgoing} {fault : Fault}
      → y.1 ≡ failed fault
      → (if b then x else y).1 ≡ returned out
      → b ≡ true
  accepted_handshake true x y e h = refl
  accepted_handshake false x y e h = elim (failed≢returned (sym e ∙ h)) [ ]

  -- A channel that has no keys yet accepts a packet only if it is from the paired controller.
  pub receive_packet-FromController :
      (s : S) (c : SecureChannel noise) (packet : List ℕ) (out : Outgoing)
      → c.ciphers ≡ none
      → (receive_packet computer noise (s, c) packet).1 ≡ returned out
      → FromController c packet
  unfolding receive_packet receive_with receive_handshake
  receive_packet-FromController s c packet out fresh h =
      let first =
        subst (λ o. (receive_with computer noise s c packet o).1 ≡ returned out) fresh h in
      paired c _ _ (accepted_handshake _ _ _ refl first)

  -- `ready` is reported only by a channel that has keys and the controller's hello.
  abbrev pub Honest : Step computer noise → Type 0
  Honest r =
      (out : Outgoing)
      → r.1 ≡ returned out
      → out.ready ≡ true
      → is_settled computer noise r.0 ≡ true

  failed-Honest : (x : S × SecureChannel noise) (fault : Fault) → Honest (x, failed fault)
  failed-Honest x fault out h ready = elim (failed≢returned h) [ ]

  sending-Honest :
      (s : S) (c : SecureChannel noise) (packets : List (List ℕ)) (ready : Bool)
      → (ready ≡ true → is_settled computer noise (s, c) ≡ true)
      → Honest ((s, c), sending computer noise packets ready)
  sending-Honest s c packets ready h out same is_ready =
      h (ap (λ (o : Outgoing). o.ready) (same_result same) ∙ is_ready)

  greet-Honest :
      (s : S) (c : SecureChannel noise) (response : List ℕ) (keys : Ciphers noise.Cipher)
      (hello : Option (List ℕ))
      → Honest (greet computer noise s c response keys hello)
  unfolding greet
  greet-Honest s c response keys none = failed-Honest (s, c) external
  greet-Honest s c response keys (some hello) = go (noise.encrypt keys.outgoing hello).1
    where
      greeted : SecureChannel noise
      greeted = record c {
        ciphers = some (record keys { outgoing = (noise.encrypt keys.outgoing hello).0 });
      }

      go :
          (o : Option (List ℕ))
          → Honest (elim o [
            | none ↦ ((s, greeted), failed external)
            | some packet ↦ ((s, greeted), sending computer noise (response ∷ packet ∷ []) false)
          ])
      go none = failed-Honest (s, greeted) external
      go (some packet) =
          sending-Honest s greeted (response ∷ packet ∷ []) false
            (λ bad. elim (true≢false (sym bad)) [ ])

  answer_handshake-Honest :
      (s : S) (c : SecureChannel noise)
      (r : noise.Handshake × Option (List ℕ × noise.Cipher × noise.Cipher))
      → Honest (answer_handshake computer noise s c r)
  unfolding answer_handshake
  answer_handshake-Honest s c (handshake, none) =
      failed-Honest (s, record c { handshake = handshake }) external
  answer_handshake-Honest s c (handshake, some (response, incoming, outgoing)) =
      greet-Honest _ _ response _ _

  branch-Honest :
      (b : Bool) (x y : Step computer noise) → Honest x → Honest y → Honest (if b then x else y)
  branch-Honest true x y h k = h
  branch-Honest false x y h k = k

  send_reply-Honest :
      (s : S) (c : SecureChannel noise) (keys : Ciphers noise.Cipher)
      → c.ciphers ≡ some keys
      → (reply : Outcome (Option (List ℕ))) → Honest (send_reply computer noise s c keys reply)
  unfolding send_reply
  send_reply-Honest s c keys has (failed fault) = failed-Honest (s, c) fault
  send_reply-Honest s c keys has (returned none) =
      sending-Honest s c [] c.processor.peer_hello (λ h. rw has h)
  send_reply-Honest s c keys has (returned (some response)) =
      go (noise.encrypt keys.outgoing response).1
    where
      sent : SecureChannel noise
      sent = record c {
        ciphers = some (record keys { outgoing = (noise.encrypt keys.outgoing response).0 });
      }

      go :
          (o : Option (List ℕ))
          → Honest (elim o [
            | none ↦ ((s, sent), failed external)
            | some packet ↦ ((s, sent), sending computer noise (packet ∷ []) c.processor.peer_hello)
          ])
      go none = failed-Honest (s, sent) external
      go (some packet) = sending-Honest s sent (packet ∷ []) c.processor.peer_hello (λ h. h)

  receive_plaintext-Honest :
      (s : S) (c : SecureChannel noise) (keys : Ciphers noise.Cipher)
      → c.ciphers ≡ some keys
      → (o : Option (List ℕ)) → Honest (receive_plaintext computer noise s c keys o)
  unfolding receive_plaintext
  receive_plaintext-Honest s c keys has none = failed-Honest (s, c) external
  receive_plaintext-Honest s c keys has (some plaintext) = send_reply-Honest _ _ keys has _

  receive_with-Honest :
      (s : S) (c : SecureChannel noise) (packet : List ℕ) (o : Option (Ciphers noise.Cipher))
      → Honest (receive_with computer noise s c packet o)
  unfolding receive_with receive_handshake
  receive_with-Honest s c packet none = branch-Honest _ _ _ (answer_handshake-Honest _ _ _) (
      failed-Honest (s, record c { handshake = (noise.read_message c.handshake packet).0 })
        (message "controller Noise identity check failed"))
  receive_with-Honest s c packet (some keys) = receive_plaintext-Honest _ _ _ refl _

  pub receive_packet-Honest :
      (x : S × SecureChannel noise) (packet : List ℕ)
      → Honest (receive_packet computer noise x packet)
  unfolding receive_packet
  receive_packet-Honest (s, c) packet = receive_with-Honest s c packet c.ciphers
