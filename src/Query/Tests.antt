-- ===== src/Query/Tests.antt =====
-- Runs of the query functions on concrete queries, and the theorems applied to them.
use qdrant_es_gateway.Prelude.{
  if◌then◌else◌, ◌≡◌, ◌≤◌, ◌<◌, ◌*◌, ◌+◌, max, min, refl, true, false, not, ◌&&◌, ◌||◌, [], ◌∷◌,
  Option, some, arith, eq_iff, all, any, is_empty, String,
}
use qdrant_es_gateway.Errors.{ok}
use qdrant_es_gateway.Parse.{parse_unsigned, strip_suffix}
use qdrant_es_gateway.Json.{Value, Map, string, number, pos_int, object, Fields, end, field, lookup}
use qdrant_es_gateway.Json.Equality.{value_eq}
use qdrant_es_gateway.Prelude.Fixpoint.{fix}
use qdrant_es_gateway.Json.Size.{size}
use qdrant_es_gateway.Query.Fields.{
  source_field, compatibility_field, source_value_matches, single_filter_field,
}
use qdrant_es_gateway.Query.Bool.{
  bool_clauses, minimum_should_match, explicit_minimum, minimum_value, minimum_text,
}
use qdrant_es_gateway.Query.Bool.Minimum.{minimum_bounds, minimum-percentage}
use qdrant_es_gateway.Query.Match.{
  source_matches_query, query_matches, object_matches, bool_matches, term_matches,
}
use qdrant_es_gateway.Query.Match.Rules.{bool_query, bool-default}
use qdrant_es_gateway.Query.Match.Bounds.{from_query, gte_filter, from-ignored}
use qdrant_es_gateway.Query.PostFilter.{
  validate_post_filter, validate, validate_clause, validate_kind, validate_bool,
  validate_bool_entry, validate_term,
}
use qdrant_es_gateway.Query.Filter.{
  query_filter, walk, walk_clause, walk_entry, walk_bool, walk_term, walk_should, walk_must_not,
  push_should, term_condition, condition,
}
use qdrant_es_gateway.Query.Filter.Accepted.{query_filter-validated}

queries : Unit {0}
unfolding parse_unsigned strip_suffix lookup minimum_should_match explicit_minimum minimum_value
    minimum_text bool_clauses source_matches_query query_matches object_matches bool_matches
    term_matches validate_post_filter query_filter source_field compatibility_field validate fix
    size validate_clause validate_kind validate_bool validate_bool_entry validate_term
    single_filter_field value_eq source_value_matches walk walk_clause walk_entry walk_bool
    walk_term walk_should walk_must_not push_should term_condition condition
queries = tt

abbrev source : Value
source = object (field "price" (number (pos_int 3)) (field "tag" (string "red") end))

abbrev term : String → Value → Fields
term f v = field "term" (object (field f v end)) end

abbrev stated : Map
stated = ("minimum_should_match", string "60%") ∷ []

minimum_bounds_example :
    (min 3 (if false then 0 else 1) ≤ minimum_should_match stated 3 false)
    × (minimum_should_match stated 3 false ≤ 3)
minimum_bounds_example = minimum_bounds stated 3 false

minimum-percentage_example :
    (3 * 60 ≤ 100 * minimum_should_match stated 3 false)
    × (100 * minimum_should_match stated 3 false < max 101 (3 * 60 + 100))
unfolding queries
minimum-percentage_example =
    minimum-percentage stated 3 false "60%" "60" refl refl refl refl (omega arith) (omega arith)
      (omega arith)

abbrev tagged : Map
tagged =
    ("must_not", object (term "tag" (string "blue")))
    ∷ ("should", object (term "tag" (string "red")))
    ∷ []

query_filter-validated_example : (f : Option Value) × (query_filter (bool_query tagged) ≡ ok f)
unfolding queries
query_filter-validated_example = query_filter-validated (bool_query tagged) refl

bool-default_example : source_matches_query source (bool_query tagged) ≡ (
    (all (source_matches_query source) (bool_clauses tagged "must")
      && all (source_matches_query source) (bool_clauses tagged "filter"))
    && (all (λ q. not (source_matches_query source q)) (bool_clauses tagged "must_not")
        && ((not (is_empty (bool_clauses tagged "must"))
              || not (is_empty (bool_clauses tagged "filter")))
            || is_empty (bool_clauses tagged "should")
            || any (source_matches_query source) (bool_clauses tagged "should"))))
unfolding queries
bool-default_example = bool-default source tagged refl

bool_test : source_matches_query source (bool_query tagged) ≡ true
unfolding queries
bool_test = refl

stated_test : minimum_should_match stated 3 false ≡ 2
unfolding queries
stated_test = refl

from-ignored_example :
    (validate_post_filter (from_query "price" (pos_int 5)) ≡ ok tt)
    × (query_filter (from_query "price" (pos_int 5))
        ≡ ok (some (gte_filter (compatibility_field "price") (pos_int 5))))
    × (source_matches_query source (from_query "price" (pos_int 5)) ≡ true)
unfolding queries
from-ignored_example =
    from-ignored source "price" (pos_int 5) (pos_int 3) (λ e. ground (arith, eq_iff "price" ""))
      refl
