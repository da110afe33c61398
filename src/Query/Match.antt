-- ===== src/Query/Match.antt =====
-- Evaluation of a query on a source document in the gateway: `source_matches_query`.
pub mod Laws
pub mod Rules
pub mod Bounds
use qdrant_es_gateway.Prelude.{
  ℕ, String, Bool, true, false, not, ◌&&◌, ◌||◌, List, [], ◌∷◌, ◌++◌, Option, none, some,
  if◌then◌else◌, leb, length, all, any, count, is_empty, head?,
}
use qdrant_es_gateway.Prelude.Fixpoint.{fix}
use qdrant_es_gateway.Json.{Value, Map, get, lookup, contains_key, as_object, as_array, as_str}
use qdrant_es_gateway.Json.Equality.{value_eq}
use qdrant_es_gateway.Json.Size.{size}
use qdrant_es_gateway.Json.Float.{Float, as_f64, f64_lt, f64_le}
use qdrant_es_gateway.Query.Fields.{
  source_field, compatibility_field, source_value_exists, source_value_matches,
}
use qdrant_es_gateway.Query.Bool.{bool_clauses, minimum_should_match}

-- `Option::and_then`.
infixl 5 ◌>>=◌
abbrev pub ◌>>=◌ {ℓ κ} : {A : Type ℓ} {B : Type κ} → Option A → (A → Option B) → Option B
none >>= f = none
some a >>= f = f a

abbrev pub is_some_and {ℓ} : {A : Type ℓ} → Option A → (A → Bool) → Bool
is_some_and none p = false
is_some_and (some a) p = p a

abbrev pub unwrap_or {ℓ} : {A : Type ℓ} → Option A → A → A
unwrap_or none d = d
unwrap_or (some a) d = a

-- Some value of the field, itself or in an array, satisfies the predicate.
abbrev pub field_matches : Value → String → (Value → Bool) → Bool
field_matches source field predicate =
    is_some_and (source_field source (compatibility_field field)) (source_value_matches predicate)

unfoldable pub term_matches : Value → Map → Bool
term_matches source term = is_some_and (head? term) (λ entry.
    field_matches source entry.0
      (λ actual. value_eq actual (unwrap_or (get "value" entry.1) entry.1)))

unfoldable pub terms_matches : Value → Map → Bool
terms_matches source terms = is_some_and (head? terms) (λ entry.
    is_some_and (as_array entry.1)
      (λ values. field_matches source entry.0 (λ actual. any (λ v. value_eq v actual) values)))

-- One bound of a range; a missing one holds.
abbrev bound_holds : Map → String → (Float → Bool) → Bool
bound_holds bounds op holds = elim (lookup op bounds >>= as_f64) [
  | none ↦ true
  | some bound ↦ holds bound
]

unfoldable pub in_bounds : Map → Float → Bool
in_bounds bounds actual =
    bound_holds bounds "gt" (λ bound. f64_lt bound actual)
    && (bound_holds bounds "gte" (λ bound. f64_le bound actual)
        && (bound_holds bounds "lt" (λ bound. f64_lt actual bound)
            && bound_holds bounds "lte" (λ bound. f64_le actual bound)))

unfoldable pub range_matches : Value → Map → Bool
range_matches source range = is_some_and (head? range) (λ entry.
    is_some_and (source_field source (compatibility_field entry.0)) (λ actual.
      is_some_and (as_object entry.1)
        (λ bounds. source_value_matches (λ v. is_some_and (as_f64 v) (in_bounds bounds)) actual)))

unfoldable pub exists_matches : Value → Value → Bool
exists_matches source exists =
    is_some_and (get "field" exists >>= as_str)
      (λ field. source_value_exists source (compatibility_field field))

-- A bool query; `matches` is the recursive call on a clause.
unfoldable pub bool_matches : (Value → Bool) → Map → Bool
bool_matches matches bool_query =
    let must = bool_clauses bool_query "must" in
    let filter = bool_clauses bool_query "filter" in
    let should = bool_clauses bool_query "should" in
    let has_required_clause = not (is_empty must) || not (is_empty filter) in
    all matches (must ++ filter)
    && (all (λ clause. not (matches clause)) (bool_clauses bool_query "must_not")
        && leb (minimum_should_match bool_query (length should) has_required_clause)
            (count matches should))

-- The tests of the query's kinds, in the order of the source.
unfoldable pub object_matches : Value → (Value → Bool) → Map → Bool
object_matches source matches object =
    if contains_key "match_all" object then true else elim (lookup "term" object >>= as_object) [
      | some term ↦ term_matches source term
      | none ↦ elim (lookup "terms" object >>= as_object) [
        | some terms ↦ terms_matches source terms
        | none ↦ elim (lookup "range" object >>= as_object) [
          | some range ↦ range_matches source range
          | none ↦ elim (lookup "exists" object) [
            | some exists ↦ exists_matches source exists
            | none ↦ elim (lookup "bool" object >>= as_object) [
              | some bool_query ↦ bool_matches matches bool_query
              | none ↦ false
            ]
          ]
        ]
      ]
    ]

-- The body of the recursion: the recursive call is `matches`.
unfoldable pub query_matches : Value → (Value → Bool) → Value → Bool
query_matches source matches query = elim (as_object query) [
  | none ↦ false
  | some object ↦ object_matches source matches object
]

unfoldable pub source_matches_query : Value → Value → Bool
source_matches_query source query = fix size false (query_matches source) query
