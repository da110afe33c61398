-- ===== src/Query/Bool.antt =====
-- Bool queries: `bool_clauses` and `minimum_should_match`.
pub mod Minimum
pub mod Sizes
use qdrant_es_gateway.Prelude.{
  ℕ, ◌+◌, ◌*◌, ◌/◌, ◌%◌, min, max, String, Bool, true, false, List, [], ◌∷◌, Option, none, some,
  if◌then◌else◌, eqb,
}
use qdrant_es_gateway.Parse.{parse_unsigned, strip_suffix, u64_limit}
use qdrant_es_gateway.Json.{Value, Map, array, elems, lookup, as_u64, as_str}

abbrev pub clause_list : Value → List Value
clause_list (array values) = elems values
clause_list value = value ∷ []

unfoldable pub bool_clauses : Map → String → List Value
bool_clauses bool_query key = elim (lookup key bool_query) [
  | none ↦ []
  | some value ↦ clause_list value
]

-- `u64::div_ceil(100)`.
abbrev div_ceil_100 : ℕ → ℕ
div_ceil_100 n = (n + 99) / 100

-- A percentage of the clauses; the product of two `u64` wraps around in a release build.
abbrev pub percent_of : ℕ → ℕ → ℕ
percent_of should_len percent = div_ceil_100 (should_len * percent % u64_limit)

-- The minimum that a text states.
unfoldable pub minimum_text : ℕ → String → Option ℕ
minimum_text should_len text = elim (parse_unsigned u64_limit text) [
  | some n ↦ some n
  | none ↦ elim (strip_suffix "%" text) [
    | none ↦ none
    | some digits ↦ elim (parse_unsigned u64_limit digits) [
      | none ↦ none
      | some percent ↦ some (percent_of should_len percent)
    ]
  ]
]

-- The minimum that a `minimum_should_match` value states, if it is one.
unfoldable pub minimum_value : ℕ → Value → Option ℕ
minimum_value should_len value = elim (as_u64 value) [
  | some n ↦ some n
  | none ↦ elim (as_str value) [ none ↦ none | some text ↦ minimum_text should_len text ]
]

unfoldable pub explicit_minimum : Map → ℕ → Option ℕ
explicit_minimum bool_query should_len = elim (lookup "minimum_should_match" bool_query) [
  | none ↦ none
  | some value ↦ minimum_value should_len value
]

abbrev pub default_minimum : Bool → ℕ
default_minimum has_required_clause = if has_required_clause then 0 else 1

abbrev unwrap_or : ℕ → Option ℕ → ℕ
unwrap_or d none = d
unwrap_or d (some n) = n

unfoldable pub minimum_should_match : Map → ℕ → Bool → ℕ
minimum_should_match bool_query should_len has_required_clause =
    if eqb should_len 0
    then 0
    else min
        (max
          (unwrap_or (default_minimum has_required_clause) (explicit_minimum bool_query should_len))
          (default_minimum has_required_clause))
        should_len
