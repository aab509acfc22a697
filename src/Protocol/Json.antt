-- ===== src/Protocol/Json.antt =====
-- protocol/validate.go: the JSON values that `jsonschema.UnmarshalJSON` returns, with the limits and
-- the normal form of their numbers. A number is the list of its bytes, as in `json.Number`.
use remote_davinci.Base.{
  str_eq, ℕ, suc, ◌+◌, ◌-◌, ◌*◌, ◌%◌, ◌/◌, ◌^◌, String, Bool, true, false, ◌&&◌, ◌||◌, not, Option,
  none, some, List, [], ◌∷◌, if◌then◌else◌, ltb, leb, ◌==◌, length, ◌>>=◌,
}

-- `integer` is the int64 that `normalizeIntegers` puts in place of a number: whether it is
-- negative, and its magnitude.
mutual
  pub data Json : Type 0 where
    null : Json
    boolean : Bool → Json
    number : List ℕ → Json
    integer : Bool → ℕ → Json
    text : String → Json
    array : Items → Json
    object : Fields → Json

  pub data Items : Type 0 where
    array_end : Items
    item : Json → Items → Items

  pub data Fields : Type 0 where
    object_end : Fields
    field : String → Json → Fields → Fields

abbrev pub max_json_number_bytes : ℕ
max_json_number_bytes = 128

abbrev pub max_json_number_exponent : ℕ
max_json_number_exponent = 4096

abbrev pub two_63 : ℕ
two_63 = 9223372036854775808

abbrev pub is_digit : ℕ → Bool
is_digit c = leb 48 c && leb c 57

unfoldable pub digits_from : ℕ → List ℕ → Option ℕ
digits_from n [] = some n
digits_from n (c ∷ cs) =
    let rest = digits_from (n * 10 + (c - 48)) cs in if is_digit c then rest else none

abbrev pub digits : List ℕ → Option ℕ
digits [] = none
digits (c ∷ cs) = digits_from 0 (c ∷ cs)

-- `strconv.ParseInt(s, 10, 64)`: an optional sign, digits, and the range of an int64.
unfoldable pub in_int64 : Bool → ℕ → Option (Bool × ℕ)
in_int64 true n = if leb n two_63 then some (true, n) else none
in_int64 false n = if ltb n two_63 then some (false, n) else none

unfoldable pub parse_int : List ℕ → Option (Bool × ℕ)
parse_int [] = none
parse_int (c ∷ cs) =
    if c == 45
    then (digits cs >>= in_int64 true)
    else if c == 43
    then (digits cs >>= in_int64 false)
    else (digits (c ∷ cs) >>= in_int64 false)

-- `literal[marker+1:]` for the first `e` or `E`.
unfoldable pub after_marker : List ℕ → Option (List ℕ)
after_marker [] = none
after_marker (c ∷ cs) = let rest = after_marker cs in if c == 101 || c == 69 then some cs else rest

unfoldable pub exponent_within_limits : Option (Bool × ℕ) → Bool
exponent_within_limits none = false
exponent_within_limits (some (negative, n)) = leb n max_json_number_exponent

unfoldable pub number_within_limits : List ℕ → Bool
number_within_limits literal =
    if ltb max_json_number_bytes (length literal) then false else elim (after_marker literal) [
      | none ↦ true
      | some exponent ↦ exponent_within_limits (parse_int exponent)
    ]

-- validate.go: `numbersWithinLimits`.
unfoldable mutual
  pub numbers_within_limits : Json → Bool
  numbers_within_limits (number literal) = number_within_limits literal
  numbers_within_limits (array items) = items_within_limits items
  numbers_within_limits (object fields) = fields_within_limits fields
  numbers_within_limits null = true
  numbers_within_limits (boolean b) = true
  numbers_within_limits (integer negative n) = true
  numbers_within_limits (text s) = true

  pub items_within_limits : Items → Bool
  items_within_limits array_end = true
  items_within_limits (item value items) = numbers_within_limits value && items_within_limits items

  pub fields_within_limits : Fields → Bool
  fields_within_limits object_end = true
  fields_within_limits (field name value fields) =
      numbers_within_limits value && fields_within_limits fields

-- `new(big.Rat).SetString` of the literal of a JSON number: the digits `n` read so far, and how many
-- of them stand after the point.
unfoldable pub scan : ℕ → ℕ → Bool → List ℕ → ℕ × ℕ
scan n places point [] = (n, places)
scan n places point (c ∷ cs) =
    let next = if is_digit c then n * 10 + (c - 48) else n in
    let after = if is_digit c && point then suc places else places in
    let rest = scan next after (point || (c == 46)) cs in
    if c == 101 || c == 69 then (n, places) else rest

abbrev pub scale_down : ℕ → ℕ → Option ℕ
scale_down n places = if n % 10 ^ places == 0 then some (n / 10 ^ places) else none

unfoldable pub scaled : ℕ → ℕ → Option (List ℕ) → Option ℕ
scaled n places none = scale_down n places
scaled n places (some exponent) = parse_int exponent >>= λ (negative, e).
    if negative
    then scale_down n (places + e)
    else if leb places e
    then some (n * 10 ^ (e - places))
    else scale_down n (places - e)

abbrev pub magnitude : List ℕ → Option ℕ
magnitude literal =
    let (n, places) = scan 0 0 false literal in scaled n places (after_marker literal)

-- `number.IsInt() && number.Num().IsInt64()`, with -0 as 0.
unfoldable pub integer_of : List ℕ → Option (Bool × ℕ)
unfolding scan scaled
integer_of [] = none
integer_of (c ∷ cs) =
    if c == 45
    then (magnitude cs >>= λ n. in_int64 (not (n == 0)) n)
    else (magnitude (c ∷ cs) >>= in_int64 false)

unfoldable pub normal_number : List ℕ → Option (Bool × ℕ) → Json
normal_number literal none = number literal
normal_number literal (some (negative, n)) = integer negative n

-- validate.go: `normalizeIntegers`.
unfoldable mutual
  pub normalize_integers : Json → Json
  normalize_integers (number literal) = normal_number literal (integer_of literal)
  normalize_integers (array items) = array (normalize_items items)
  normalize_integers (object fields) = object (normalize_fields fields)
  normalize_integers null = null
  normalize_integers (boolean b) = boolean b
  normalize_integers (integer negative n) = integer negative n
  normalize_integers (text s) = text s

  pub normalize_items : Items → Items
  normalize_items array_end = array_end
  normalize_items (item value items) = item (normalize_integers value) (normalize_items items)

  pub normalize_fields : Fields → Fields
  normalize_fields object_end = object_end
  normalize_fields (field name value fields) =
      field name (normalize_integers value) (normalize_fields fields)

abbrev pub member : String → Fields → Option Json
member name object_end = none
member name (field other value fields) =
    if str_eq other name then some value else member name fields
