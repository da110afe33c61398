-- ===== src/TextQuery/Match/Tests.antt =====
-- Text queries on a concrete document, for texts of lower case with single spaces.
use qdrant_es_gateway.Prelude.{◌≡◌, ◌≢◌, ◌↔◌, refl, String, true, false, List, [], ◌∷◌, All}
use qdrant_es_gateway.Prelude.Fixpoint.{fix}
use qdrant_es_gateway.Parse.{split, strip_prefix}
use qdrant_es_gateway.Json.{Value, object, string, field, end, lookup}
use qdrant_es_gateway.Query.Fields.{source_field, compatibility_field}
use qdrant_es_gateway.TextQuery.Distance.{edit_distance, last_row, next_row, next_cell}
use qdrant_es_gateway.TextQuery.Words.{words, fuzzy_matches, field_text, maximum_edits}
use qdrant_es_gateway.TextQuery.Words.Laws.{Some, IsNear, fuzzy_matches_lem}
use qdrant_es_gateway.TextQuery.Match.{
  text_query_matches, query_text_matches, object_text_matches, match_query, match_bool_prefix,
  fuzzy, prefix_found, contains_approx_text_query,
}
use qdrant_es_gateway.TextQuery.Match.Inclusion.{query_on, match-included}

abbrev unchanged : String → String
unchanged s = s

abbrev printed : Value → String
printed v = "?"

abbrev document : Value
document = object (field "title" (string "quiet mouse") end)

near :
    text_query_matches (split b' ') unchanged printed document (query_on "fuzzy" "title" "house")
    ≡ true
unfolding text_query_matches fix query_text_matches object_text_matches fuzzy fuzzy_matches words
    field_text maximum_edits edit_distance last_row next_row next_cell source_field
    compatibility_field lookup split
near = refl

far :
    text_query_matches
      (split b' ')
      unchanged
      printed
      document
      (query_on "match_bool_prefix" "title" "mice")
    ≡ false
unfolding text_query_matches fix query_text_matches object_text_matches match_bool_prefix words
    field_text prefix_found source_field compatibility_field lookup split strip_prefix
far = refl

approximate :
    contains_approx_text_query (object (field "bool" (query_on "fuzzy" "title" "a") end)) ≡ true
unfolding contains_approx_text_query
approximate = refl

fuzzy_matches_lem_example :
    (fuzzy_matches (split b' ') unchanged "quiet mouse" "house" ≡ true)
    ↔ All
        (λ term. Some (IsNear term) (words (split b' ') unchanged "quiet mouse"))
        (words (split b' ') unchanged "house")
fuzzy_matches_lem_example = fuzzy_matches_lem (split b' ') unchanged "quiet mouse" "house"

unchanged_fixed : (l : List String) → All (λ word. unchanged word ≡ word) l
unchanged_fixed [] = tt
unchanged_fixed (x ∷ l) = (refl, unchanged_fixed l)

match-included_example :
    (text_query_matches (split b' ') unchanged printed document (query_on "fuzzy" "title" "mouse")
      ≡ true)
    × (words (split b' ') unchanged "mouse" ≢ []
        → text_query_matches
            (split b' ')
            unchanged
            printed
            document
            (query_on "match_bool_prefix" "title" "mouse")
          ≡ true)
unfolding text_query_matches fix query_text_matches object_text_matches match_query words field_text
    source_field compatibility_field lookup split
match-included_example =
    match-included (split b' ') unchanged printed document
      (λ text. unchanged_fixed (split b' ' text)) "title" "mouse" refl
