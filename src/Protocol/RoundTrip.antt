-- ===== src/Protocol/RoundTrip.antt =====
-- The round trip of `base64.RawURLEncoding` and what `canonicalBase64URL` of protocol/protocol.go
-- accepts.
use remote_davinci.Base.{
  subst, ℕ, ◌+◌, ◌*◌, ◌/◌, ◌%◌, ◌<◌, ◌≡◌, refl, sym, ap, map, Bool, true, false, ◌||◌, Option, none,
  some, List, [], ◌∷◌, if◌then◌else◌, ◌==◌, length, All, arith, ◌≢◌, ◌↔◌, ◌>>=◌,
}
use remote_davinci.Protocol.Base64.{
  letter, sextet, encoded_len, encode, without_breaks, sextets, bytes_of, decode, bytes_eq,
  canonical_base64url,
}

abbrev pub Bytes : List ℕ → Type 0
Bytes = All (λ b. b < 256)

sextet-letter : (n : ℕ) → n < 64 → sextet (letter n) ≡ some n
sextet-letter n h = ground arith

letter-kept :
    (n : ℕ) → n < 64 → (cs : List ℕ) → without_breaks (letter n ∷ cs) ≡ letter n ∷ without_breaks cs
unfolding without_breaks
letter-kept n h cs = ground arith

first_byte : (a b : ℕ) → a < 256 → b < 256 → a / 4 * 4 + (a % 4 * 16 + b / 16) / 16 ≡ a
first_byte a b ha hb = omega arith

second_byte :
    (a b c : ℕ)
    → b < 256
    → c < 256
    → (a % 4 * 16 + b / 16) % 16 * 16 + (b % 16 * 4 + c / 64) / 4 ≡ b
second_byte a b c hb hc = omega arith

third_byte : (b c : ℕ) → c < 256 → (b % 16 * 4 + c / 64) % 4 * 64 + c % 64 ≡ c
third_byte b c hc = omega arith

sextets-letter :
    (n : ℕ)
    → n < 64
    → (cs : List ℕ)
    → sextets (without_breaks (letter n ∷ cs))
      ≡ (sextets (without_breaks cs) >>= λ rest. some (n ∷ rest))
unfolding sextets
sextets-letter n h cs = rw (letter-kept n h cs) rw (sextet-letter n h) refl

unfoldable encoded_sextets : List ℕ → List ℕ
encoded_sextets [] = []
encoded_sextets (a ∷ []) = (a / 4) ∷ (a % 4 * 16) ∷ []
encoded_sextets (a ∷ b ∷ []) = (a / 4) ∷ (a % 4 * 16 + b / 16) ∷ (b % 16 * 4) ∷ []
encoded_sextets (a ∷ b ∷ c ∷ bs) =
    (a / 4) ∷ (a % 4 * 16 + b / 16) ∷ (b % 16 * 4 + c / 64) ∷ (c % 64) ∷ encoded_sextets bs

encode_lem : (bs : List ℕ) → encode bs ≡ map letter (encoded_sextets bs)
unfolding encode encoded_sextets
encode_lem [] = refl
encode_lem (a ∷ []) = refl
encode_lem (a ∷ b ∷ []) = refl
encode_lem (a ∷ b ∷ c ∷ bs) = rw (encode_lem bs) refl

unfoldable Sextets : List ℕ → Type 0
Sextets = All (λ n. n < 64)

encoded_sextets-Sextets : (bs : List ℕ) → Bytes bs → Sextets (encoded_sextets bs)
unfolding encoded_sextets Sextets
encoded_sextets-Sextets [] h = tt
encoded_sextets-Sextets (a ∷ []) (ha, _) = (omega arith, (omega arith, tt))
encoded_sextets-Sextets (a ∷ b ∷ []) (ha, (hb, _)) = (omega arith, (omega arith, (omega arith, tt)))
encoded_sextets-Sextets (a ∷ b ∷ c ∷ bs) (ha, (hb, (hc, h))) =
    (omega arith, (omega arith, (omega arith, (omega arith, encoded_sextets-Sextets bs h))))

sextets-map : (ss : List ℕ) → Sextets ss → sextets (without_breaks (map letter ss)) ≡ some ss
unfolding Sextets sextets without_breaks
sextets-map [] h = refl
sextets-map (n ∷ ss) h = rw (sextets-letter n h.0 (map letter ss)) rw (sextets-map ss h.1) refl

bytes_of-encoded : (bs : List ℕ) → Bytes bs → bytes_of (encoded_sextets bs) ≡ some bs
unfolding bytes_of encoded_sextets
bytes_of-encoded [] h = refl
bytes_of-encoded (a ∷ []) (ha, _) = ap (λ x. some (x ∷ [])) (omega arith)
bytes_of-encoded (a ∷ b ∷ []) (ha, (hb, _)) =
    rw (first_byte a b ha hb) (ap (λ x. some (a ∷ x ∷ [])) (omega arith))
bytes_of-encoded (a ∷ b ∷ c ∷ bs) (ha, (hb, (hc, h))) =
    rw (bytes_of-encoded bs h) rw (first_byte a b ha hb) rw (second_byte a b c hb hc)
      (ap (λ x. some (a ∷ b ∷ x ∷ bs)) (third_byte b c hc))

decode-encode : (bs : List ℕ) → Bytes bs → decode (encode bs) ≡ some bs
unfolding decode
decode-encode bs h =
    rw (encode_lem bs) rw (sextets-map (encoded_sextets bs) (encoded_sextets-Sextets bs h))
      (bytes_of-encoded bs h)

bytes_eq_refl : (bs : List ℕ) → bytes_eq bs bs ≡ true
bytes_eq_refl [] = refl
bytes_eq_refl (b ∷ bs) = rw (bytes_eq_refl bs) ground arith

bytes_eq_iff : (xs ys : List ℕ) → bytes_eq xs ys ≡ true → xs ≡ ys
bytes_eq_iff [] [] h = refl
bytes_eq_iff [] (y ∷ ys) h = ground arith
bytes_eq_iff (x ∷ xs) [] h = ground arith
bytes_eq_iff (x ∷ xs) (y ∷ ys) h =
    let tail : xs ≡ ys = bytes_eq_iff xs ys (ground arith) in
    let head : x ≡ y = ground arith in rw head rw tail refl

encode-nonempty : (bs : List ℕ) → bs ≢ [] → length (encode bs) ≢ 0
unfolding encode
encode-nonempty [] h = λ e. elim (h refl) [ ]
encode-nonempty (a ∷ []) h = λ e. omega arith
encode-nonempty (a ∷ b ∷ []) h = λ e. omega arith
encode-nonempty (a ∷ b ∷ c ∷ bs) h = λ e. omega arith

length-encode : (bs : List ℕ) → length (encode bs) ≡ encoded_len (length bs)
unfolding encode
length-encode [] = refl
length-encode (a ∷ []) = refl
length-encode (a ∷ b ∷ []) = refl
length-encode (a ∷ b ∷ c ∷ bs) = let ih = length-encode bs in omega arith

canonical_base64url-encode :
    (bs : List ℕ) → Bytes bs → bs ≢ [] → canonical_base64url (encode bs) ≡ some bs
unfolding canonical_base64url
canonical_base64url-encode bs h ne =
    let nonempty = encode-nonempty bs ne in
    let len = length-encode bs in
    rw (decode-encode bs h) rw (bytes_eq_refl (encode bs)) ground arith

kept_when_equal :
    (value bs d : List ℕ) (b : Bool)
    → bytes_eq (encode d) value ≡ b
    → (if b then some d else none) ≡ some bs
    → encode bs ≡ value
kept_when_equal value bs d true e h =
    let same : d ≡ bs = cc h in rw (sym same) (bytes_eq_iff (encode d) value e)
kept_when_equal value bs d false e h = ground arith

accepted :
    (value bs : List ℕ) (refused : Bool) (o : Option (List ℕ))
    → (if refused then none else (o >>= λ d. if bytes_eq (encode d) value then some d else none))
      ≡ some bs
    → encode bs ≡ value
accepted value bs true o h = ground arith
accepted value bs false none h = ground arith
accepted value bs false (some d) h = kept_when_equal value bs d (bytes_eq (encode d) value) refl h

encode-canonical_base64url :
    (value bs : List ℕ) → canonical_base64url value ≡ some bs → encode bs ≡ value
unfolding canonical_base64url
encode-canonical_base64url value bs h =
    accepted value bs (length value == 0 || length value % 4 == 1) (decode value) h

-- `canonicalBase64URL` accepts a string with the bytes `bs` as its result exactly if the string is
-- the encoding of `bs`: the encoding of every nonempty byte string is read back, and no other
-- spelling of it (line breaks, padding, bits left over) is accepted.
pub canonical_base64url_iff :
    (bs : List ℕ)
    → Bytes bs
    → bs ≢ []
    → (value : List ℕ) → (canonical_base64url value ≡ some bs) ↔ (encode bs ≡ value)
canonical_base64url_iff bs h ne value = (
  λ e. encode-canonical_base64url value bs e,
  λ e. subst (λ v. canonical_base64url v ≡ some bs) e (canonical_base64url-encode bs h ne),
)
