-- ===== src/TextQuery/Match/Laws.antt =====
-- `text_query_matches` ends, and satisfies the equation of the source.
use qdrant_es_gateway.Prelude.{
  ◌≤◌, ◌<◌, ◌≡◌, refl, String, Bool, false, List, some, arith, any, any-congr, All-map,
  Option-cases, inl, inr,
}
use qdrant_es_gateway.Prelude.Fixpoint.{fix_eq, IsLocal}
use qdrant_es_gateway.Json.{Value, object, entries, Map, get, lookup, as_object, as_array}
use qdrant_es_gateway.Json.Size.{
  size, sizes, sizes-All, map_size, as_object-size, as_array-size, lookup-size,
}
use qdrant_es_gateway.Query.Match.{◌>>=◌, is_some_and}
use qdrant_es_gateway.Query.Match.Laws.{bool_matches-congr}
use qdrant_es_gateway.TextQuery.Match.{object_text_matches, query_text_matches, text_query_matches}

lookup_object-size :
    (key : String) (o : Map) {m : Map}
    → (lookup key o >>= as_object) ≡ some m
    → map_size m ≤ map_size o
lookup_object-size key o {m} e = elim (Option-cases (lookup key o)) [
  | inl none_e ↦ absurd (ground arith)
  | inr (b, some_e) ↦
      let p : as_object b ≡ some m = rw some_e at e in
      omega (arith, as_object-size b p, lookup-size key o some_e)
]

get_array-size :
    (key : String) (v : Value) {values : List Value}
    → (get key v >>= as_array) ≡ some values
    → sizes values ≤ size v
get_array-size key (object fs) {values} e = elim (Option-cases (lookup key (entries fs))) [
  | inl none_e ↦ absurd (ground arith)
  | inr (b, some_e) ↦
      let p : as_array b ≡ some values = rw some_e at e in
      omega (
        arith,
        as_array-size b p,
        lookup-size key (entries fs) some_e,
        as_object-size (object fs) {m = entries fs} refl,
      )
]
get_array-size key v {values} e = absurd (ground arith)

dis_max-congr :
    (f g : Value → Bool) (query : Value)
    → ((v : Value) → size v ≤ size query → f v ≡ g v)
    → is_some_and (get "queries" query >>= as_array) (any f)
      ≡ is_some_and (get "queries" query >>= as_array) (any g)
dis_max-congr f g query h = elim (Option-cases (get "queries" query >>= as_array)) [
  | inl e ↦ rw e refl
  | inr (values, e) ↦ rw e (
      any-congr f g values
        (All-map h values (sizes-All values (size query) (get_array-size "queries" query e))))
]

module _ (split_whitespace : String → List String) (to_lowercase : String → String)
    (to_string : Value → String) (source : Value) where
  object_text_matches-congr :
      (f g : Value → Bool) (o : Map)
      → ((v : Value) → size v ≤ map_size o → f v ≡ g v)
      → object_text_matches split_whitespace to_lowercase to_string source f o
        ≡ object_text_matches split_whitespace to_lowercase to_string source g o
  unfolding object_text_matches
  object_text_matches-congr f g o h = elim (Option-cases (lookup "dis_max" o)) [
    | inr (query, e) ↦
        let p : size query ≤ map_size o = lookup-size "dis_max" o e in
        ground (arith, dis_max-congr f g query (λ v lt. h v (omega arith)))
    | inl none_e ↦ elim (Option-cases (lookup "bool" o >>= as_object)) [
      | inl e ↦ ground arith
      | inr (m, e) ↦ ground (
        arith,
        bool_matches-congr f g m (λ v lt. h v (omega (arith, lookup_object-size "bool" o e))),
      )
    ]
  ]

  query_text_matches-IsLocal :
      IsLocal size false (query_text_matches split_whitespace to_lowercase to_string source)
  unfolding query_text_matches
  query_text_matches-IsLocal rec rec' q h = elim (Option-cases (as_object q)) [
    | inl e ↦ ground arith
    | inr (o, e) ↦
        let p : map_size o < size q = as_object-size q e in
        ground (arith, object_text_matches-congr rec rec' o (λ v lt. h v (omega arith)))
  ]

  -- The recursion ends for every query: the function satisfies the recursive equation of the
  -- source, with no bound on the nesting.
  text_query_matches_eq :
      (query : Value)
      → text_query_matches split_whitespace to_lowercase to_string source query
        ≡ query_text_matches split_whitespace to_lowercase to_string source
            (text_query_matches split_whitespace to_lowercase to_string source)
            query
  unfolding text_query_matches
  text_query_matches_eq query = fix_eq size false _ query_text_matches-IsLocal query
