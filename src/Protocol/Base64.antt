-- ===== src/Protocol/Base64.antt =====
-- protocol/protocol.go: `canonicalBase64URL`, with `base64.RawURLEncoding` of the Go library as the
-- code uses it. A byte string is a list of numbers below 256; a string is the list of its bytes.
use remote_davinci.Base.{
  ℕ, ◌+◌, ◌-◌, ◌*◌, ◌/◌, ◌%◌, Bool, true, false, ◌&&◌, ◌||◌, Option, none, some, List, [], ◌∷◌,
  if◌then◌else◌, ltb, leb, ◌==◌, length, ◌>>=◌,
}

-- The alphabet: A-Z, a-z, 0-9, `-` and `_`.
abbrev pub letter : ℕ → ℕ
letter n =
    if ltb n 26
    then 65 + n
    else if ltb n 52
    then 71 + n
    else if ltb n 62
    then n - 4
    else if n == 62
    then 45
    else 95

abbrev pub sextet : ℕ → Option ℕ
sextet c =
    if leb 65 c && leb c 90
    then some (c - 65)
    else if leb 97 c && leb c 122
    then some (c - 71)
    else if leb 48 c && leb c 57
    then some (c + 4)
    else if c == 45
    then some 62
    else if c == 95
    then some 63
    else none

-- `EncodeToString`, three bytes to four letters, without padding.
unfoldable pub encode : List ℕ → List ℕ
encode [] = []
encode (a ∷ []) = letter (a / 4) ∷ letter (a % 4 * 16) ∷ []
encode (a ∷ b ∷ []) = letter (a / 4) ∷ letter (a % 4 * 16 + b / 16) ∷ letter (b % 16 * 4) ∷ []
encode (a ∷ b ∷ c ∷ bs) =
    letter (a / 4)
    ∷ letter (a % 4 * 16 + b / 16)
    ∷ letter (b % 16 * 4 + c / 64)
    ∷ letter (c % 64)
    ∷ encode bs

-- `EncodedLen`
abbrev pub encoded_len : ℕ → ℕ
encoded_len n = n / 3 * 4 + (n % 3 * 8 + 5) / 6

-- The decoder skips line breaks.
unfoldable pub without_breaks : List ℕ → List ℕ
without_breaks [] = []
without_breaks (c ∷ cs) =
    let rest = without_breaks cs in if c == 10 || c == 13 then rest else c ∷ rest

unfoldable pub sextets : List ℕ → Option (List ℕ)
sextets [] = some []
sextets (c ∷ cs) = do s ← sextet c; rest ← sextets cs; some (s ∷ rest)

-- The bits that the last letter has over are dropped, and one letter alone is an error.
unfoldable pub bytes_of : List ℕ → Option (List ℕ)
bytes_of [] = some []
bytes_of (s ∷ []) = none
bytes_of (s ∷ t ∷ []) = some ((s * 4 + t / 16) ∷ [])
bytes_of (s ∷ t ∷ u ∷ []) = some ((s * 4 + t / 16) ∷ (t % 16 * 16 + u / 4) ∷ [])
bytes_of (s ∷ t ∷ u ∷ v ∷ ss) = do
  rest ← bytes_of ss
  some ((s * 4 + t / 16) ∷ (t % 16 * 16 + u / 4) ∷ (u % 4 * 64 + v) ∷ rest)

-- `DecodeString`
unfoldable pub decode : List ℕ → Option (List ℕ)
decode cs = do ss ← sextets (without_breaks cs); bytes_of ss

abbrev pub bytes_eq : List ℕ → List ℕ → Bool
bytes_eq [] [] = true
bytes_eq (a ∷ xs) (b ∷ ys) = (a == b) && bytes_eq xs ys
bytes_eq _ _ = false

-- protocol.go: `canonicalBase64URL`.
unfoldable pub canonical_base64url : List ℕ → Option (List ℕ)
canonical_base64url value =
    if length value == 0 || length value % 4 == 1
    then none
    else do decoded ← decode value; if bytes_eq (encode decoded) value then some decoded else none
