-- ===== src/Query/Match/Rules.antt =====
-- Bool queries without a stated minimum.
use qdrant_es_gateway.Prelude.{
  ◌≡◌, refl, ap, ◌∙◌, Bool, true, false, not, ◌&&◌, ◌||◌, List, [], ◌∷◌, ◌++◌, none, arith, all,
  any, count, is_empty, leb, length,
}
use qdrant_es_gateway.Json.{Value, object, Map, end, field, fields, entries, lookup}
use qdrant_es_gateway.Query.Bool.{bool_clauses, minimum_should_match, explicit_minimum}
use qdrant_es_gateway.Query.Match.{
  bool_matches, object_matches, query_matches, source_matches_query,
}
use qdrant_es_gateway.Query.Match.Laws.{source_matches_query_eq}

abbrev pub bool_query : Map → Value
bool_query m = object (field "bool" (object (fields m)) end)

entries-fields : (m : Map) → entries (fields m) ≡ m
entries-fields [] = refl
entries-fields ((k, v) ∷ m) = ap (λ (r : Map). (k, v) ∷ r) (entries-fields m)

all-append : (p : Value → Bool) (xs ys : List Value) → all p (xs ++ ys) ≡ (all p xs && all p ys)
all-append p [] ys = refl
all-append p (x ∷ xs) ys = ground (arith, all-append p xs ys)

count-any : (p : Value → Bool) (xs : List Value) → leb 1 (count p xs) ≡ any p xs
count-any p [] = refl
count-any p (x ∷ xs) = ground (arith, count-any p xs)

-- Nothing of `should` is needed where a clause is required or none is given; one is, otherwise.
minimum-default :
    (m : Map) (matches : Value → Bool) (should : List Value) (required : Bool)
    → lookup "minimum_should_match" m ≡ none
    → leb (minimum_should_match m (length should) required) (count matches should)
      ≡ (required || is_empty should || any matches should)
unfolding minimum_should_match explicit_minimum
minimum-default m matches [] required e = ground arith
minimum-default m matches (x ∷ xs) true e = ground arith
minimum-default m matches (x ∷ xs) false e =
    rw (e, explicit_minimum) (ground (arith, count-any matches xs))

-- A bool query that states no minimum holds of a source where every clause of `must` and `filter`
-- holds, none of `must_not` does, and some clause of `should` does unless one is required or none is
-- given.
pub bool-default :
    (source : Value) (m : Map)
    → lookup "minimum_should_match" m ≡ none
    → let matches = source_matches_query source in
      let required =
        not (is_empty (bool_clauses m "must")) || not (is_empty (bool_clauses m "filter")) in
      source_matches_query source (bool_query m) ≡ (
        (all matches (bool_clauses m "must") && all matches (bool_clauses m "filter"))
        && (all (λ q. not (matches q)) (bool_clauses m "must_not")
            && (required
                || is_empty (bool_clauses m "should")
                || any matches (bool_clauses m "should"))))
unfolding query_matches object_matches bool_matches lookup
bool-default source m e =
    source_matches_query_eq source (bool_query m)
    ∙ rw
        (
          entries-fields m,
          all-append (source_matches_query source) (bool_clauses m "must")
              (bool_clauses m "filter"),
          minimum-default m (source_matches_query source) (bool_clauses m "should")
              (not (is_empty (bool_clauses m "must")) || not (is_empty (bool_clauses m "filter")))
              e,
        )
        refl
