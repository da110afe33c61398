-- ===== src/Query/Fields.antt =====
-- Fields of a source document: `source_field`, `compatibility_field`, `source_value_exists`,
-- `source_value_matches` and `single_filter_field`.
use qdrant_es_gateway.Prelude.{
  String, Bool, true, false, not, ◌||◌, List, [], ◌∷◌, Option, none, some, if◌then◌else◌, any,
}
use qdrant_es_gateway.Errors.{Result, ok, err, bad, ◌>>=◌, ok_or}
use qdrant_es_gateway.Parse.{split, strip_suffix, is_empty_str}
use qdrant_es_gateway.Json.{
  Value, null, bool, number, string, array, object, Items, nil, cons, Map, elems, get, as_object,
  is_null,
}

-- `try_fold` over the parts of a path.
unfoldable pub get_path : List String → Value → Option Value
get_path [] value = some value
get_path (part ∷ parts) value = elim (get part value) [
  | none ↦ none
  | some child ↦ get_path parts child
]

unfoldable pub source_field : Value → String → Option Value
unfolding get_path split
source_field source field = get_path (split b'.' field) source

unfoldable pub compatibility_field : String → String
unfolding strip_suffix
compatibility_field field = elim (strip_suffix ".keyword" field) [ none ↦ field | some base ↦ base ]

abbrev pub value_exists : Value → Bool
value_exists null = false
value_exists (array values) = any (λ v. not (is_null v)) (elems values)
value_exists _ = true

unfoldable pub source_value_exists : Value → String → Bool
unfolding source_field
source_value_exists source field = elim (source_field source field) [
  | none ↦ false
  | some value ↦ value_exists value
]

unfoldable mutual
  pub source_value_matches : (Value → Bool) → Value → Bool
  source_value_matches predicate null = predicate null
  source_value_matches predicate (bool b) = predicate (bool b)
  source_value_matches predicate (number n) = predicate (number n)
  source_value_matches predicate (string s) = predicate (string s)
  source_value_matches predicate (array values) = any_value_matches predicate values
  source_value_matches predicate (object fs) = predicate (object fs)

  pub any_value_matches : (Value → Bool) → Items → Bool
  any_value_matches predicate nil = false
  any_value_matches predicate (cons v vs) =
      source_value_matches predicate v || any_value_matches predicate vs

abbrev pub one_field : String → Map → Result (String × Value)
one_field feature [] = err (bad feature "filter must contain exactly one field")
one_field feature ((field, value) ∷ []) =
    if is_empty_str field
    then err (bad feature "filter field must not be empty")
    else ok (field, value)
one_field feature (a ∷ b ∷ m) = err (bad feature "filter must contain exactly one field")

unfoldable pub single_filter_field : Value → String → Result (String × Value)
single_filter_field value feature = do
  fields ← ok_or (as_object value) (bad feature "filter body must be an object")
  one_field feature fields
