-- ===== src/Search/Order.antt =====
-- The order of hits: `value_cmp`, `hit_sort_value`, `compare_sorted_hits` and `hit_is_after` of
-- src/main.rs. `to_string` is the text of a JSON value that is no string, as serde_json prints it.
pub mod Sign
pub mod Numbers
pub mod Cursor
mod Tests
use qdrant_es_gateway.Prelude.{
  ℕ, ◌+◌, ◌-◌, ◌/◌, ◌%◌, ◌^◌, min, String, Bool, true, false, List, [], ◌∷◌, Option, none, some,
  if◌then◌else◌, codes, lex, ◌==◌, map,
}
use Prim.Native.Nat.{Ordering}
use qdrant_es_gateway.Json.{
  Number, pos_int, neg_int, float, Value, null, number, string, Map, get, as_str, is_number,
}
use qdrant_es_gateway.Json.Float.{Float, as_f64, scale}
use qdrant_es_gateway.Query.Fields.{source_field, compatibility_field}
use qdrant_es_gateway.Search.Window.{Sorts}
use qdrant_es_gateway.Search.Order.Sign.{Signed, cmp, then_with, reverse}

-- An integer of JSON as `i128`.
unfoldable pub integer : Value → Option Signed
integer (number (pos_int n)) = some (false, n)
integer (number (neg_int n)) = some (true, n + 1)
integer _ = none

-- `float as i128` saturates, and `fract` has the sign of the float.
abbrev pub truncate : Float → Signed
truncate f = (f.negative, min (f.magnitude / scale) (if f.negative then 2 ^ 127 else 2 ^ 127 - 1))

abbrev pub fract : Float → Signed
fract f = (f.negative, f.magnitude % scale)

-- The closure `integer_float`.
unfoldable pub integer_float : Signed → Float → Ordering
integer_float i f = then_with (cmp i (truncate f)) (cmp (false, 0) (fract f))

abbrev pub float_cmp : Float → Float → Ordering
float_cmp a b = cmp (a.negative, a.magnitude) (b.negative, b.magnitude)

-- The last match of `value_cmp`: two numbers, or the texts.
abbrev pub floats_or : Option Float → Option Float → Ordering → Ordering
floats_or (some a) (some b) texts = float_cmp a b
floats_or (some a) none texts = texts
floats_or none b texts = texts

-- An integer against a value that is none.
abbrev pub mixed_cmp : (Ordering → Ordering) → Signed → Option Float → Ordering → Ordering
mixed_cmp turn a none other = other
mixed_cmp turn a (some f) other = turn (integer_float a f)

abbrev pub integers_or :
    Option Signed → Option Signed → Option Float → Option Float → Ordering → Ordering
integers_or (some a) (some b) f g other = cmp a b
integers_or (some a) none f g other = mixed_cmp (λ o. o) a g other
integers_or none (some b) f g other = mixed_cmp reverse b f other
integers_or none none f g other = other

abbrev pub value_or_null : Option Value → Value
value_or_null none = null
value_or_null (some v) = v

unfoldable pub sortable_source_field : Value → String → Option Value
sortable_source_field source field = source_field source (compatibility_field field)

unfoldable pub hit_sort_value : Value → String → Value
hit_sort_value hit field =
    if field == "_score"
    then value_or_null (get "_score" hit)
    else if field == "_id"
    then value_or_null (get "_id" hit)
    else elim (get "_source" hit) [
      | none ↦ null
      | some source ↦ value_or_null (sortable_source_field source field)
    ]

-- The `sort` array that a hit of the page is returned with, and that serves as a cursor.
unfoldable pub sort_values : Value → Sorts → List Value
sort_values hit sorts = map (λ (s : String × String). hit_sort_value hit s.0) sorts

abbrev pub directed : String → Ordering → Ordering
directed direction order = if direction == "desc" then reverse order else order

abbrev pub is_lt : Ordering → Bool
is_lt Ordering.lt = true
is_lt _ = false

abbrev pub is_gt : Ordering → Bool
is_gt Ordering.gt = true
is_gt _ = false

abbrev pub beyond : String → Ordering → Bool → Bool
beyond direction Ordering.eq rest = rest
beyond direction order rest = if direction == "desc" then is_lt order else is_gt order

module _ (to_string : Value → String) where
  abbrev pub text_of : Value → String
  text_of v = elim (as_str v) [ none ↦ to_string v | some s ↦ s ]

  unfoldable pub other_cmp : Value → Value → Ordering
  other_cmp left right =
      floats_or (as_f64 left) (as_f64 right) (lex (codes (text_of left)) (codes (text_of right)))

  unfoldable pub value_cmp : Value → Value → Ordering
  value_cmp left right =
      integers_or (integer left) (integer right) (as_f64 left) (as_f64 right) (other_cmp left right)

  unfoldable pub compare_sorted_hits : Value → Value → Sorts → Ordering
  compare_sorted_hits a b [] = value_cmp (hit_sort_value a "_id") (hit_sort_value b "_id")
  compare_sorted_hits a b ((field, direction) ∷ sorts) =
      let order = value_cmp (hit_sort_value a field) (hit_sort_value b field) in
      then_with (directed direction order) (compare_sorted_hits a b sorts)

  -- `zip` ends with the shorter of the two.
  unfoldable pub hit_is_after : Value → List Value → Sorts → Bool
  hit_is_after hit cursor [] = false
  hit_is_after hit [] ((field, direction) ∷ sorts) = false
  hit_is_after hit (value ∷ cursor) ((field, direction) ∷ sorts) =
      beyond direction (value_cmp (hit_sort_value hit field) value) (hit_is_after hit cursor sorts)
