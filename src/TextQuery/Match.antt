-- ===== src/TextQuery/Match.antt =====
-- Evaluation of a text query on a source document: `text_query_matches` and
-- `contains_approx_text_query` of src/main.rs.
pub mod Laws
pub mod Inclusion
mod Tests
use qdrant_es_gateway.Prelude.{
  ℕ, String, Bool, true, false, ◌&&◌, ◌||◌, List, [], ◌∷◌, Option, none, some, if◌then◌else◌, all,
  any, ◌==◌, head?,
}
use qdrant_es_gateway.Prelude.Fixpoint.{fix}
use qdrant_es_gateway.Parse.{strip_prefix}
use qdrant_es_gateway.Json.{
  Value, null, bool, number, string, array, object, Items, nil, cons, Fields, end, field, Map, get,
  lookup, contains_key, entries, as_object, as_array, as_str,
}
use qdrant_es_gateway.Json.Size.{size}
use qdrant_es_gateway.Query.Match.{◌>>=◌, is_some_and, unwrap_or, bool_matches}
use qdrant_es_gateway.TextQuery.Words.{filter_map, words, fuzzy_matches, field_text}

abbrev pub or_else {ℓ} : {A : Type ℓ} → Option A → Option A → Option A
or_else none b = b
or_else (some a) b = some a

-- The text of a query that is written `"text"` or `{key: "text"}`.
abbrev pub query_text : String → Value → String
query_text key value = unwrap_or (or_else (as_str value) (get key value >>= as_str)) ""

-- The first entry of a query's object.
abbrev pub on_field : Value → (String → Value → Bool) → Bool
on_field query test =
    is_some_and (as_object query >>= head?) (λ (entry : String × Value). test entry.0 entry.1)

abbrev pub starts_with : String → String → Bool
starts_with candidate prefix = elim (strip_prefix prefix candidate) [
  | none ↦ false
  | some rest ↦ true
]

-- Every word stands among the candidates.
abbrev pub all_found : List String → List String → Bool
all_found terms candidates = all (λ term. any (λ candidate. candidate == term) candidates) terms

-- All words but the last stand among the candidates, and the last one starts a candidate.
unfoldable pub prefix_found : List String → List String → Bool
prefix_found [] candidates = false
prefix_found (last ∷ []) candidates = any (λ candidate. starts_with candidate last) candidates
prefix_found (term ∷ next ∷ terms) candidates =
    any (λ candidate. candidate == term) candidates && prefix_found (next ∷ terms) candidates

mutual
  pub contains_approx_text_query : Value → Bool
  contains_approx_text_query null = false
  contains_approx_text_query (bool b) = false
  contains_approx_text_query (number n) = false
  contains_approx_text_query (string s) = false
  contains_approx_text_query (array xs) = false
  contains_approx_text_query (object fs) =
      contains_key "match_bool_prefix" (entries fs)
      || contains_key "fuzzy" (entries fs)
      || any_contains_approx fs

  -- `object.values().any(contains_approx_text_query)`
  any_contains_approx : Fields → Bool
  any_contains_approx end = false
  any_contains_approx (field k v fs) = contains_approx_text_query v || any_contains_approx fs

module _ (split_whitespace : String → List String) (to_lowercase : String → String)
    (to_string : Value → String) (source : Value) where
  abbrev pub candidates : String → List String
  candidates name = split_whitespace (field_text to_lowercase to_string source name)

  abbrev pub terms : String → List String
  terms query = words split_whitespace to_lowercase query

  unfoldable pub match_query : Value → Bool
  match_query query =
      on_field query (λ name value. all_found (terms (query_text "query" value)) (candidates name))

  unfoldable pub match_bool_prefix : Value → Bool
  match_bool_prefix query =
      on_field query
        (λ name value. prefix_found (terms (query_text "query" value)) (candidates name))

  unfoldable pub fuzzy : Value → Bool
  fuzzy query = on_field query (λ name value.
      fuzzy_matches split_whitespace to_lowercase (field_text to_lowercase to_string source name)
        (query_text "value" value))

  unfoldable pub multi_match : Value → Bool
  multi_match query = is_some_and (get "fields" query >>= as_array) (λ fields.
      any
        (λ name. all_found (terms (unwrap_or (get "query" query >>= as_str) "")) (candidates name))
        (filter_map as_str fields))

  -- The tests of the query's kinds, in the order of the source; the recursive call is `matches`.
  unfoldable pub object_text_matches : (Value → Bool) → Map → Bool
  object_text_matches matches m =
      if contains_key "match_all" m then true else elim (lookup "match" m) [
        | some query ↦ match_query query
        | none ↦ elim (lookup "match_bool_prefix" m) [
          | some query ↦ match_bool_prefix query
          | none ↦ elim (lookup "fuzzy" m) [
            | some query ↦ fuzzy query
            | none ↦ elim (lookup "multi_match" m) [
              | some query ↦ multi_match query
              | none ↦ elim (lookup "dis_max" m) [
                | some query ↦ is_some_and (get "queries" query >>= as_array) (any matches)
                | none ↦ elim (lookup "bool" m >>= as_object) [
                  | some bool_query ↦ bool_matches matches bool_query
                  | none ↦ false
                ]
              ]
            ]
          ]
        ]
      ]

  unfoldable pub query_text_matches : (Value → Bool) → Value → Bool
  query_text_matches matches query = elim (as_object query) [
    | none ↦ false
    | some m ↦ object_text_matches matches m
  ]

  unfoldable pub text_query_matches : Value → Bool
  text_query_matches = fix size false query_text_matches
