-- ===== src/Query/Match/Bounds.antt =====
-- Range filters with the bounds `from` and `to`: accepted as a post filter, and evaluated otherwise
-- than they are translated.
use qdrant_es_gateway.Prelude.{
  ◌≡◌, ◌≢◌, refl, String, true, [], ◌∷◌, some, eq-cases, inl, inr, ◌∙◌, ap,
}
use qdrant_es_gateway.Errors.{Result, ok}
use qdrant_es_gateway.Json.{
  Value, Number, number, object, string, array, items, end, field, lookup, insert,
}
use qdrant_es_gateway.Json.Float.{as_f64}
use qdrant_es_gateway.Query.Fields.{
  source_field, compatibility_field, source_value_matches, single_filter_field,
}
use qdrant_es_gateway.Query.Match.{
  query_matches, object_matches, range_matches, in_bounds, source_matches_query,
}
use qdrant_es_gateway.Query.Match.Laws.{source_matches_query_eq}
use qdrant_es_gateway.Query.PostFilter.{
  validate_clause, validate_kind, validate_range, validate_bound, validate_post_filter,
}
use qdrant_es_gateway.Query.PostFilter.Laws.{validate_eq}
use qdrant_es_gateway.Query.Filter.{
  walk_clause, walk_entry, walk_range, range_operator, query_filter,
}
use qdrant_es_gateway.Query.Filter.Laws.{walk_eq}

-- `{"range": {f: {"from": bound}}}`.
abbrev pub from_query : String → Number → Value
from_query f bound =
    object (field "range" (object (field f (object (field "from" (number bound) end)) end)) end)

-- `{"must": [{"key": f, "range": {"gte": bound}}]}`.
abbrev pub gte_filter : String → Number → Value
gte_filter f bound = object (
    field "must"
      (array (
        items (
          object
            (field "key" (string f) (field "range" (object (field "gte" (number bound) end)) end))
          ∷ [])))
      end)

from_query-accepted :
    (f : String) (bound : Number) → f ≢ "" → validate_post_filter (from_query f bound) ≡ ok tt
unfolding validate_post_filter validate_clause validate_kind validate_range validate_bound
    single_filter_field
from_query-accepted f bound named =
    let step =
      ap (λ (k : String → Result (Unit {0})). k "post_filter") (validate_eq (from_query f bound)) in
    elim (eq-cases f "") [ inl (e, same) ↦ absurd (named same) | inr (e, other) ↦ step ∙ rw e refl ]

from_query-translated :
    (f : String) (bound : Number)
    → query_filter (from_query f bound) ≡ ok (some (gte_filter (compatibility_field f) bound))
unfolding query_filter walk_clause walk_entry walk_range range_operator insert lookup
from_query-translated f bound = rw (walk_eq (from_query f bound)) refl

from_query-matched :
    (source : Value) (f : String) (bound n : Number)
    → source_field source (compatibility_field f) ≡ some (number n)
    → source_matches_query source (from_query f bound) ≡ true
unfolding query_matches object_matches range_matches in_bounds lookup source_value_matches as_f64
from_query-matched source f bound n found =
    source_matches_query_eq source (from_query f bound) ∙ rw found refl

-- A filter with the lower bound `from` is accepted as a post filter and is translated to Qdrant as a
-- lower bound, yet the gateway's own evaluation lets every number through, above the bound or below.
pub from-ignored :
    (source : Value) (f : String) (bound n : Number)
    → f ≢ ""
    → source_field source (compatibility_field f) ≡ some (number n)
    → (validate_post_filter (from_query f bound) ≡ ok tt)
      × (query_filter (from_query f bound) ≡ ok (some (gte_filter (compatibility_field f) bound)))
      × (source_matches_query source (from_query f bound) ≡ true)
from-ignored source f bound n named found = (
  from_query-accepted f bound named,
  from_query-translated f bound,
  from_query-matched source f bound n found,
)
