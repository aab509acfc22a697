-- ===== src/Protocol/Normal.antt =====
-- `normalizeIntegers` of protocol/validate.go, applied twice.
use remote_davinci.Base.{ap, ℕ, ◌≡◌, refl, Bool, Option, none, some, List}
use remote_davinci.Protocol.Json.{
  normal_number, Json, Items, Fields, null, boolean, number, integer, text, array, object,
  array_end, item, object_end, field, normalize_integers, normalize_items, normalize_fields,
  integer_of,
}

normal_number_idem :
    (literal : List ℕ) (o : Option (Bool × ℕ))
    → integer_of literal ≡ o
    → normalize_integers (normal_number literal o) ≡ normal_number literal o
unfolding normalize_integers normal_number
normal_number_idem literal none e = rw e refl
normal_number_idem literal (some (negative, n)) e = refl

-- Normalising twice is normalising once.
mutual
  unfolding normalize_integers

  pub normalize_idem :
      (value : Json) → normalize_integers (normalize_integers value) ≡ normalize_integers value
  normalize_idem (number literal) = normal_number_idem literal (integer_of literal) refl
  normalize_idem (array items) = ap array (items_idem items)
  normalize_idem (object fields) = ap object (fields_idem fields)
  normalize_idem null = refl
  normalize_idem (boolean b) = refl
  normalize_idem (integer negative n) = refl
  normalize_idem (text s) = refl

  items_idem : (items : Items) → normalize_items (normalize_items items) ≡ normalize_items items
  items_idem array_end = refl
  items_idem (item value items) = rw (normalize_idem value) rw (items_idem items) refl

  fields_idem :
      (fields : Fields) → normalize_fields (normalize_fields fields) ≡ normalize_fields fields
  fields_idem object_end = refl
  fields_idem (field name value fields) = rw (normalize_idem value) rw (fields_idem fields) refl
