-- ===== src/Query/PostFilter.antt =====
-- `validate_post_filter` of src/main.rs: which filters the gateway evaluates itself.
pub mod Laws
use qdrant_es_gateway.Prelude.{
  ℕ, ◌≡◌, String, Bool, true, false, not, ◌&&◌, ◌||◌, List, [], ◌∷◌, Option, none, some,
  if◌then◌else◌, leb, length, any, eqb, ◌==◌,
}
use qdrant_es_gateway.Prelude.Fixpoint.{fix}
use qdrant_es_gateway.Errors.{Result, ok, err, bad, ◌>>=◌, ◌>>◌, refuse, ok_or, for_each}
use qdrant_es_gateway.Parse.{concat, parse_unsigned, strip_suffix, u64_limit, is_empty_str}
use qdrant_es_gateway.Json.{
  Value, Map, lookup, keys, as_object, as_array, as_str, as_u64, is_object, is_array, is_null,
  is_number, is_boolean,
}
use qdrant_es_gateway.Json.Size.{size}
use qdrant_es_gateway.Query.Fields.{single_filter_field}
use qdrant_es_gateway.Query.Bool.{clause_list}

abbrev pub is_none {ℓ} : {A : Type ℓ} → Option A → Bool
is_none none = true
is_none (some a) = false

abbrev pub is_some_and {ℓ} : {A : Type ℓ} → Option A → (A → Bool) → Bool
is_some_and none p = false
is_some_and (some a) p = p a

abbrev pub is_none_or {ℓ} : {A : Type ℓ} → Option A → (A → Bool) → Bool
is_none_or none p = true
is_none_or (some a) p = p a

abbrev pub as_str_of : Option Value → Option String
as_str_of none = none
as_str_of (some v) = as_str v

unfoldable pub validate_match_all : String → Value → Result (Unit {0})
validate_match_all feature value =
    refuse (not (is_object value))
      (bad (concat feature ".match_all") "match_all body must be an object")

abbrev term_options_refused : Map → Bool
term_options_refused options =
    is_none (lookup "value" options)
    || any (λ key. not (key == "value") && not (key == "boost")) (keys options)
    || is_some_and (lookup "boost" options) (λ boost. not (is_number boost))

validate_term_options : String → Value → Result (Unit {0})
validate_term_options feature expected = elim (as_object expected) [
  | none ↦ ok tt
  | some options ↦
      refuse (term_options_refused options)
        (bad (concat feature ".term") "term options require value and support only a numeric boost")
]

unfoldable pub validate_term : String → Value → Result (Unit {0})
unfolding validate_term_options
validate_term feature value = do
  (field, expected) ← single_filter_field value (concat feature ".term")
  refuse (is_array expected || is_null expected)
      (bad (concat feature ".term") "term value must be a scalar or an options object")
  validate_term_options feature expected

unfoldable pub validate_terms : String → Value → Result (Unit {0})
validate_terms feature value = do
  (field, values) ← single_filter_field value (concat feature ".terms")
  refuse (not (is_array values)) (bad (concat feature ".terms") "terms value must be an array")

abbrev pub is_bound_operator : String → Bool
is_bound_operator op =
    op == "gt" || op == "gte" || op == "lt" || op == "lte" || op == "from" || op == "to"

abbrev pub is_include_option : String → Bool
is_include_option op = op == "include_lower" || op == "include_upper"

unfoldable pub validate_bound : String → String × Value → Result (Unit {0})
validate_bound feature (op, value) =
    if is_bound_operator op && is_number value
    then ok tt
    else if is_include_option op && is_boolean value
    then ok tt
    else if op == "boost" && is_number value
    then ok tt
    else if is_bound_operator op
    then err (bad (concat feature (concat ".range." op)) "post_filter range bounds must be numeric")
    else if is_include_option op || op == "boost"
    then err (bad (concat feature (concat ".range." op)) "invalid range option value")
    else err (bad (concat feature (concat ".range." op)) "unsupported range operator")

unfoldable pub validate_range : String → Value → Result (Unit {0})
validate_range feature value = do
  (field, body) ← single_filter_field value (concat feature ".range")
  bounds ← ok_or (as_object body) (bad (concat feature ".range") "range body must be an object")
  for_each (validate_bound feature) bounds

unfoldable pub validate_exists : String → Value → Result (Unit {0})
validate_exists feature value = do
  options ← ok_or (as_object value) (bad (concat feature ".exists") "exists body must be an object")
  refuse
      (not (eqb (length options) 1) || is_none_or (as_str_of (lookup "field" options)) is_empty_str)
      (bad (concat feature ".exists") "exists requires exactly one non-empty field")

unfoldable pub minimum_supported : Value → Bool
minimum_supported clauses =
    is_some_and (as_u64 clauses) (λ n. true)
    || is_some_and (as_str clauses) (λ value.
      is_some_and (parse_unsigned u64_limit value) (λ n. true)
      || is_some_and (strip_suffix "%" value)
          (λ percent. is_some_and (parse_unsigned u64_limit percent) (λ n. leb n 100)))

abbrev pub is_clause_key : String → Bool
is_clause_key key = key == "must" || key == "filter" || key == "must_not" || key == "should"

-- One entry of a bool filter; `validate` is the recursive call on a clause.
unfoldable pub validate_bool_entry :
    (Value → String → Result (Unit {0})) → String → String × Value → Result (Unit {0})
validate_bool_entry validate feature (key, clauses) =
    if is_clause_key key
    then for_each (λ clause. validate clause (concat feature (concat ".bool." key)))
        (clause_list clauses)
    else if key == "minimum_should_match"
    then refuse (not (minimum_supported clauses)) (
        bad (concat feature ".bool.minimum_should_match")
          "minimum_should_match must be a non-negative integer or percentage from 0% to 100%")
    else err (bad (concat feature (concat ".bool." key)) "unsupported bool filter option")

unfoldable pub validate_bool :
    (Value → String → Result (Unit {0})) → String → Value → Result (Unit {0})
validate_bool validate feature value = do
  bool_query ←
      ok_or (as_object value) (bad (concat feature ".bool") "bool filter must be an object")
  for_each (validate_bool_entry validate feature) bool_query

unfoldable pub validate_kind :
    (Value → String → Result (Unit {0})) → String → String → Value → Result (Unit {0})
validate_kind validate feature kind value =
    if kind == "match_all"
    then validate_match_all feature value
    else if kind == "term"
    then validate_term feature value
    else if kind == "terms"
    then validate_terms feature value
    else if kind == "range"
    then validate_range feature value
    else if kind == "exists"
    then validate_exists feature value
    else if kind == "bool"
    then validate_bool validate feature value
    else err
        (bad (concat feature (concat "." kind)) (concat kind " is not supported in post_filter"))

abbrev pub one_clause : String → Map → Result (String × Value)
one_clause feature (clause ∷ []) = ok clause
one_clause feature _ = err (bad feature "filter clause must contain exactly one query type")

-- The body of `validate`: the recursive call is `validate`.
unfoldable pub validate_clause :
    (Value → String → Result (Unit {0})) → Value → String → Result (Unit {0})
validate_clause validate query feature = do
  clauses ← ok_or (as_object query) (bad feature "filter clause must be an object")
  (kind, value) ← one_clause feature clauses
  validate_kind validate feature kind value

unfoldable pub validate : Value → String → Result (Unit {0})
validate = fix size (λ feature. ok tt) validate_clause

unfoldable pub validate_post_filter : Value → Result (Unit {0})
validate_post_filter query = validate query "post_filter"
