-- ===== src/Relay/Rules/Peers.antt =====
-- The peers that services/rendezvous-relay/internal/relay/handler.go sends frames to: `peerConnection` and
-- `sessionPeer`.
use remote_davinci.Base.{
  String, ◌≡◌, refl, sym, ◌⊎◌, inl, inr, Bool, true, false, Option, some, none, is_empty, str_eq,
  eq_iff, if◌then◌else◌, ap,
}
use remote_davinci.Relay.Model.{Pair, PairSide, Session}
use remote_davinci.Relay.Failure.{Failure, Result, ok, err}
use remote_davinci.Relay.Handler.Event.{
  peer_connection, peer_of_joiner, joiner_connection, session_peer,
}

ok_eq : {a b : String} → ok a ≡ ok b → a ≡ b
ok_eq h = cc h

err≢ok : {e : Failure} {a : String} {P : Type 0} → ◌≡◌ {A = Result String} (err e) (ok a) → P
err≢ok h = absurd (cc h)

-- The connections `c` and `d` are the two connections `a` and `b`, in this order or the other.
abbrev pub Opposite : String → String → String → String → Type 0
Opposite a b c d = ((c ≡ a) × (d ≡ b)) ⊎ ((c ≡ b) × (d ≡ a))

chosen-Opposite :
    (a b c d : String) (e : Failure) (first second : Bool)
    → str_eq a c ≡ first
    → str_eq b c ≡ second
    → (if first then ok b else if second then ok a else err e) ≡ ok d
    → Opposite a b c d
chosen-Opposite a b c d e true second f g h = inl (sym ((eq_iff a c).0 f), sym (ok_eq h))
chosen-Opposite a b c d e false true f g h = inr (sym ((eq_iff b c).0 g), sym (ok_eq h))
chosen-Opposite a b c d e false false f g h = err≢ok h

pub session_peer-Opposite :
    (s : Session) (c d : String)
    → session_peer s c ≡ ok d
    → Opposite s.controller_connection_id s.companion_connection_id c d
unfolding session_peer
session_peer-Opposite s c d h = chosen-Opposite _ _ c d _ _ _ refl refl h

peer_by :
    (a c d : String) (side : Option PairSide) (first : Bool)
    → str_eq a c ≡ first
    → (if first then ok (joiner_connection side) else peer_of_joiner side a c) ≡ ok d
    → is_empty d ≡ false
    → (s : PairSide) × (side ≡ some s) × Opposite a s.connection_id c d
unfolding peer_of_joiner
peer_by a c d none true f h full = absurd (cc (ap is_empty (ok_eq h), full))
peer_by a c d none false f h full = err≢ok h
peer_by a c d (some s) true f h full = (s, refl, inl (sym ((eq_iff a c).0 f), sym (ok_eq h)))
peer_by a c d (some s) false f h full =
    (s, refl, chosen-Opposite a s.connection_id c d _ false _ f refl h)

pub peer_connection-Opposite :
    (p : Pair) (c d : String)
    → peer_connection p c ≡ ok d
    → is_empty d ≡ false
    → (s : PairSide) × (p.side_b ≡ some s) × Opposite p.side_a.connection_id s.connection_id c d
unfolding peer_connection
peer_connection-Opposite p c d h full = peer_by p.side_a.connection_id c d p.side_b _ refl h full
