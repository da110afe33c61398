-- ===== src/Source/Filter.antt =====
-- `_source` filters of src/main.rs: `parse_source_filter`, and the projection of a document by
-- `project_source`.
pub mod Laws
use qdrant_es_gateway.Prelude.{
  ℕ, ◌≡◌, String, Bool, true, false, not, ◌&&◌, ◌||◌, List, [], ◌∷◌, ◌++◌, Option, none, some,
  if◌then◌else◌, all, any, is_empty, ◌==◌, map, codes,
}
use qdrant_es_gateway.Errors.{Result, ok, err, bad, ◌>>=◌, ◌>>◌, refuse}
use qdrant_es_gateway.Parse.{concat, contains, strip_prefix, is_empty_str}
use qdrant_es_gateway.Json.{
  Value, null, bool, number, string, array, object, Items, nil, cons, Fields, end, field, Map,
  elems, entries, keys, lookup, is_string,
}
use qdrant_es_gateway.Source.Glob.{glob_matches}

pub record SourceFilter : Type 0 where
  pub enabled : Bool
  pub includes : List String
  pub excludes : List String

-- `filter_map(Value::as_str)`.
abbrev pub strings : List Value → List String
strings [] = []
strings (string s ∷ vs) = s ∷ strings vs
strings (_ ∷ vs) = strings vs

unfoldable pub patterns : Value → String → Result (List String)
patterns (string pattern) feature = ok (pattern ∷ [])
patterns (array values) feature =
    if all is_string (elems values)
    then ok (strings (elems values))
    else err (bad feature "source filters must be a string or an array of strings")
patterns _ feature = err (bad feature "source filters must be a string or an array of strings")

abbrev is_option : String → Bool
is_option option =
    option == "include" || option == "includes" || option == "exclude" || option == "excludes"

-- `keys().find(…)`.
abbrev pub find_key : (String → Bool) → Map → Option String
find_key p [] = none
find_key p ((k, v) ∷ m) = if p k then some k else find_key p m

-- The patterns under one spelling of an option; none without it.
abbrev option_patterns : String → Map → String → Result (List String)
option_patterns feature options option = elim (lookup option options) [
  | none ↦ ok []
  | some value ↦ patterns value (concat feature (concat "." option))
]

abbrev both_patterns : String → Map → String → String → Result (List String)
both_patterns feature options first second = do
  a ← option_patterns feature options first
  b ← option_patterns feature options second
  ok (a ++ b)

unfoldable pub parse_options : Map → String → Result (Option SourceFilter)
unfolding patterns
parse_options options feature = elim (find_key (λ k. not (is_option k)) options) [
  | some option ↦ err (bad (concat feature (concat "." option)) "unsupported source filter option")
  | none ↦ both_patterns feature options "include" "includes" >>= λ includes.
      both_patterns feature options "exclude" "excludes" >>= λ excludes.
      ok (some (record { enabled = true; includes = includes; excludes = excludes }))
]

abbrev only_includes : List String → Option SourceFilter
only_includes includes = some (record { enabled = true; includes = includes; excludes = [] })

unfoldable pub parse_spec : Value → String → Result (Option SourceFilter)
unfolding patterns
parse_spec (bool enabled) feature =
    ok (some (record { enabled = enabled; includes = []; excludes = [] }))
parse_spec (string s) feature =
    patterns (string s) feature >>= λ includes. ok (only_includes includes)
parse_spec (array values) feature =
    patterns (array values) feature >>= λ includes. ok (only_includes includes)
parse_spec (object options) feature = parse_options (entries options) feature
parse_spec _ feature =
    err (
      bad feature
        "_source must be a boolean, string, array of strings, or includes/excludes object")

unfoldable pub parse_source_filter : Option Value → String → Result (Option SourceFilter)
parse_source_filter none feature = ok none
parse_source_filter (some spec) feature = parse_spec spec feature

abbrev starts_with : String → String → Bool
starts_with prefix s = elim (strip_prefix prefix s) [ none ↦ false | some rest ↦ true ]

-- One pattern covers a path: as a pattern, or as the path of an object above it.
unfoldable pub covers : String → String → Bool
covers path pattern =
    glob_matches pattern path
    || (not (contains b'*' pattern)
        && (not (contains b'?' pattern) && starts_with (concat pattern ".") path))

abbrev pub excluded : SourceFilter → String → Bool
excluded filter path = any (covers path) filter.excludes

abbrev pub explicitly_included : SourceFilter → String → Bool
explicitly_included filter path = is_empty filter.includes || any (covers path) filter.includes

abbrev pub child_path : String → String → String
child_path path key = if is_empty_str path then key else concat path (concat "." key)

abbrev pub then_some {ℓ} : {A : Type ℓ} → Bool → A → Option A
then_some b a = if b then some a else none

abbrev pub no_fields : Fields → Bool
no_fields end = true
no_fields (field k v fs) = false

abbrev pub no_items : Items → Bool
no_items nil = true
no_items (cons v vs) = false

abbrev pub keep_field : String → Option Value → Fields → Fields
keep_field key none fs = fs
keep_field key (some v) fs = field key v fs

abbrev pub keep_item : Option Value → Items → Items
keep_item none vs = vs
keep_item (some v) vs = cons v vs

unfoldable pub project_scalar : Value → String → SourceFilter → Option Value
project_scalar v path filter =
    if excluded filter path then none else then_some (explicitly_included filter path) v

-- The keys of an object are in order, so that inserting the kept ones into a new object one after
-- another keeps their order.
unfoldable mutual
  pub project_source_value : Value → String → SourceFilter → Option Value
  project_source_value (object fs) path filter =
      let result = project_fields fs path filter in
      if excluded filter path
      then none
      else then_some
          (not (no_fields result)
            || (is_empty_str path || (no_fields fs && explicitly_included filter path)))
          (object result)
  project_source_value (array vs) path filter =
      let projected = project_items vs path filter in
      if excluded filter path
      then none
      else then_some (not (no_items projected) || (no_items vs && explicitly_included filter path))
          (array projected)
  project_source_value null path filter = project_scalar null path filter
  project_source_value (bool b) path filter = project_scalar (bool b) path filter
  project_source_value (number n) path filter = project_scalar (number n) path filter
  project_source_value (string s) path filter = project_scalar (string s) path filter

  pub project_fields : Fields → String → SourceFilter → Fields
  project_fields end path filter = end
  project_fields (field key child fs) path filter =
      keep_field key (project_source_value child (child_path path key) filter)
        (project_fields fs path filter)

  pub project_items : Items → String → SourceFilter → Items
  project_items nil path filter = nil
  project_items (cons v vs) path filter =
      keep_item (project_source_value v path filter) (project_items vs path filter)

unfoldable pub project_source : Value → Option SourceFilter → Option Value
project_source source none = some source
project_source source (some filter) =
    if not filter.enabled then none else project_source_value source "" filter
