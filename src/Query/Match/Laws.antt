-- ===== src/Query/Match/Laws.antt =====
-- `source_matches_query` ends, and satisfies the equation of the source.
use qdrant_es_gateway.Prelude.{
  ◌≤◌, ◌<◌, ◌≡◌, refl, ap, String, Bool, false, not, ◌++◌, some, arith, All, All-append, All-map,
  all-congr, count-congr, Option-cases, inl, inr,
}
use qdrant_es_gateway.Prelude.Fixpoint.{fix_eq, IsLocal}
use qdrant_es_gateway.Json.{Value, Map, lookup, as_object}
use qdrant_es_gateway.Json.Size.{size, map_size, as_object-size, lookup-size}
use qdrant_es_gateway.Query.Bool.{bool_clauses}
use qdrant_es_gateway.Query.Bool.Sizes.{bool_clauses-size}
use qdrant_es_gateway.Query.Match.{
  bool_matches, object_matches, query_matches, source_matches_query, ◌>>=◌,
}

module _ (f g : Value → Bool) where
  pub bool_matches-congr :
      (m : Map)
      → ((v : Value) → size v ≤ map_size m → f v ≡ g v)
      → bool_matches f m ≡ bool_matches g m
  unfolding bool_matches
  bool_matches-congr m h =
      let agree : (key : String) → All (λ v. f v ≡ g v) (bool_clauses m key) = λ key.
        All-map h (bool_clauses m key) (bool_clauses-size m key (map_size m) (omega arith)) in
      let required = all-congr f g (bool_clauses m "must" ++ bool_clauses m "filter") (
        All-append (λ v. f v ≡ g v) (bool_clauses m "must") (bool_clauses m "filter") (agree "must")
          (agree "filter")) in
      let excluded =
        all-congr (λ v. not (f v)) (λ v. not (g v)) (bool_clauses m "must_not")
          (All-map (λ v e. ap not e) (bool_clauses m "must_not") (agree "must_not")) in
      let optional = count-congr f g (bool_clauses m "should") (agree "should") in
      rw (required, excluded, optional) refl

  object_matches-congr :
      (source : Value) (o : Map)
      → ((v : Value) → size v ≤ map_size o → f v ≡ g v)
      → object_matches source f o ≡ object_matches source g o
  unfolding object_matches
  object_matches-congr source o h = elim (Option-cases (lookup "bool" o >>= as_object)) [
    | inl e ↦ ground arith
    | inr (m, e) ↦ ground (arith, bool_matches-congr m (λ v lt. h v (inner m v e lt)))
  ]
    where
      inner :
          (m : Map) (v : Value)
          → (lookup "bool" o >>= as_object) ≡ some m
          → size v ≤ map_size m
          → size v ≤ map_size o
      inner m v e lt = elim (Option-cases (lookup "bool" o)) [
        | inl none_e ↦ absurd (ground arith)
        | inr (b, some_e) ↦
            let p : as_object b ≡ some m = rw some_e at e in
            omega (arith, as_object-size b p, lookup-size "bool" o some_e)
      ]

query_matches-IsLocal : (source : Value) → IsLocal size false (query_matches source)
unfolding query_matches
query_matches-IsLocal source rec rec' q h = elim (Option-cases (as_object q)) [
  | inl e ↦ ground arith
  | inr (o, e) ↦
      let p : map_size o < size q = as_object-size q e in
      ground (arith, object_matches-congr rec rec' source o (λ v lt. h v (omega arith)))
]

-- The recursion has fuel for every query: the function satisfies the equation of its body.
pub source_matches_query_eq :
    (source query : Value)
    → source_matches_query source query ≡ query_matches source (source_matches_query source) query
unfolding source_matches_query
source_matches_query_eq source query =
    fix_eq size false (query_matches source) (query_matches-IsLocal source) query
