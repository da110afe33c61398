-- ===== src/Aggregations/Plan.antt =====
-- The parsing of a request's aggregations: `Plan::parse` of src/aggregations.rs. `parse_zone` stands
-- for chrono's reading of the name of a time zone. The keys of a JSON object are distinct and in
-- order, so a map that is built over them has its entries in the same order.
pub mod Laws
use qdrant_es_gateway.Prelude.{
  ℕ, zero, String, Bool, true, false, not, ◌&&◌, ◌||◌, List, [], ◌∷◌, length, Option, none, some,
  if◌then◌else◌, ltb, leb, eqb, any, ◌==◌,
}
use qdrant_es_gateway.Errors.{GatewayError, Result, ok, err, bad, ◌>>=◌, ◌>>◌, refuse, ok_or}
use qdrant_es_gateway.Parse.{concat, is_empty_str}
use qdrant_es_gateway.Json.{Value, Map, get, keys, as_object, as_str, as_u64}
use qdrant_es_gateway.Query.Fields.{compatibility_field}
use qdrant_es_gateway.Query.PostFilter.{validate_post_filter}
use qdrant_es_gateway.Aggregations.{
  Reduction, metric, matching, filters, terms, histogram, max_buckets,
}

abbrev pub refusal : String → GatewayError
refusal message = bad "aggs" message

abbrev unsupported_option : List String → List String → Option String
unsupported_option allowed [] = none
unsupported_option allowed (key ∷ rest) =
    if any (λ k. k == key) allowed then unsupported_option allowed rest else some key

abbrev option_result : Option String → Result (Unit {0})
option_result none = ok tt
option_result (some key) = err (refusal (concat "unsupported aggregation option: " key))

unfoldable pub only_options : Value → List String → Result (Unit {0})
only_options value allowed = do
  object' ← ok_or (as_object value) (refusal "aggregation options must be an object")
  option_result (unsupported_option allowed (keys object'))

-- A text that the options have under a key.
abbrev pub text_option : String → Value → Option String
text_option key options = elim (get key options) [ none ↦ none | some v ↦ as_str v ]

abbrev named : Option String → Option String
named none = none
named (some name) = if is_empty_str name then none else some (compatibility_field name)

unfoldable pub field_option : Value → Result String
field_option options =
    ok_or (named (text_option "field" options)) (refusal "aggregation requires a field")

abbrev pub keyed_filters : Option Value → Option Map
keyed_filters none = none
keyed_filters (some v) = as_object v

unfoldable pub filter_counts : Map → Result (List (String × Value × ℕ))
filter_counts [] = ok []
filter_counts ((name, query) ∷ queries) = do
  validate_post_filter query
  rest ← filter_counts queries
  ok ((name, query, 0) ∷ rest)

abbrev within_thousand : Option ℕ → Option ℕ
within_thousand none = none
within_thousand (some n) = if leb 1 n && leb n 1000 then some n else none

unfoldable pub terms_size : Option Value → Result ℕ
terms_size none = ok 10
terms_size (some size) =
    ok_or (within_thousand (as_u64 size)) (refusal "terms size must be between 1 and 1000")

unfoldable pub calendar_interval : String → Option String
calendar_interval name =
    if name == "day" || name == "1d"
    then some "day"
    else if name == "week" || name == "1w"
    then some "week"
    else if name == "month" || name == "1M"
    then some "month"
    else if name == "year" || name == "1y"
    then some "year"
    else none

abbrev pub zone_name : Option Value → Result String
zone_name none = ok "UTC"
zone_name (some v) = ok_or (as_str v) (refusal "time_zone must be an IANA name")

abbrev pub is_one : Option ℕ → Bool
is_one none = false
is_one (some n) = eqb n 1

abbrev pub u64_option : Option Value → Option ℕ
u64_option none = none
u64_option (some v) = as_u64 v

module _ {Zone : Type 0} (parse_zone : String → Option Zone) where
  unfoldable pub parse_metric : Bool → Value → Result (Reduction Zone)
  parse_metric minimum options = do
    only_options options ("field" ∷ [])
    name ← field_option options
    ok (metric name minimum none)

  unfoldable pub parse_filters : Value → Result (Reduction Zone)
  parse_filters options = do
    only_options options ("filters" ∷ [])
    queries ←
        ok_or (keyed_filters (get "filters" options))
          (refusal "filters requires a keyed filters object")
    refuse (ltb max_buckets (length queries)) (refusal "too many keyed filters")
    counts ← filter_counts queries
    ok (filters counts)

  unfoldable pub parse_terms : Value → Result (Reduction Zone)
  parse_terms options = do
    only_options options ("field" ∷ "size" ∷ [])
    size ← terms_size (get "size" options)
    name ← field_option options
    ok (terms name size [])

  unfoldable pub parse_histogram : Value → Result (Reduction Zone)
  parse_histogram options = do
    only_options options ("field" ∷ "calendar_interval" ∷ "time_zone" ∷ "min_doc_count" ∷ [])
    refuse (not (is_one (u64_option (get "min_doc_count" options))))
        (refusal "date_histogram requires min_doc_count: 1; empty bucket generation is unsupported")
    written ←
        ok_or (text_option "calendar_interval" options)
          (refusal "date_histogram requires calendar_interval")
    interval ←
        ok_or (calendar_interval written)
          (refusal "supported calendar intervals are day, week, month, and year")
    zone ← zone_name (get "time_zone" options)
    timezone ← ok_or (parse_zone zone) (refusal "time_zone must be a known IANA name")
    name ← field_option options
    ok (histogram name interval timezone [])

  unfoldable pub parse_filter : Value → Result (Reduction Zone)
  parse_filter options = do validate_post_filter options; ok (matching options 0)

  unfoldable pub parse_reducer : String → Value → Result (Reduction Zone)
  parse_reducer kind options =
      if kind == "min" || kind == "max"
      then parse_metric (kind == "min") options
      else if kind == "filter"
      then parse_filter options
      else if kind == "filters"
      then parse_filters options
      else if kind == "terms"
      then parse_terms options
      else if kind == "date_histogram"
      then parse_histogram options
      else err (refusal (concat "unsupported aggregation: " kind))

  abbrev pub parse_single : Map → Result (Reduction Zone)
  parse_single ((kind, options) ∷ []) = parse_reducer kind options
  parse_single other = err (
      refusal
        "each aggregation must contain one supported reducer; nested aggregations are unsupported")

  unfoldable pub parse_specs : Map → Result (List (String × Reduction Zone))
  parse_specs [] = ok []
  parse_specs ((name, spec) ∷ specs) = do
    kinds ← ok_or (as_object spec) (refusal "aggregation must be an object")
    reducer ← parse_single kinds
    rest ← parse_specs specs
    ok ((name, reducer) ∷ rest)

  unfoldable pub parse : Option Value → Result (Option (List (String × Reduction Zone)))
  parse none = ok none
  parse (some value) = do
    specs ← ok_or (as_object value) (refusal "aggregations must be an object")
    refuse (ltb 100 (length specs)) (refusal "at most 100 aggregations are supported")
    plan ← parse_specs specs
    ok (some plan)
