-- ===== src/Documents/Tests.antt =====
-- Texts of a concrete document.
use qdrant_es_gateway.Prelude.{◌≡◌, refl, String, List, [], ◌∷◌, some}
use qdrant_es_gateway.Parse.{strip_prefix}
use qdrant_es_gateway.Json.{Fields, object, string, field, end, lookup, insert}
use qdrant_es_gateway.TextQuery.Words.{join}
use qdrant_es_gateway.Admin.Indices.{replace_dots}
use qdrant_es_gateway.Documents.Text.{
  replace_underscores, field_value, field_texts, flatten_text, text_vector, search_vector_for_field,
}
use qdrant_es_gateway.Documents.Text.Laws.{search-indexed}

abbrev red_shoe : Fields
red_shoe = field "brand_name" (string "Acme") (field "title" (string "red shoe") end)

abbrev vectors : List String
vectors = "text_all" ∷ "text_brand_name" ∷ "text_title" ∷ []

search-indexed_example :
    (vector : String) × (search_vector_for_field (object end) vectors "title" ≡ some vector)
    × (lookup vector (flatten_text (object red_shoe) vectors) ≡ some "red shoe")
unfolding text_vector replace_dots lookup
search-indexed_example =
    search-indexed (object end) red_shoe vectors "title" "red shoe" refl (λ e. cc e) refl refl

-- A field with an underscore is searched in a vector whose text is empty.
underscored_vector :
    search_vector_for_field (object end) vectors "brand_name" ≡ some "text_brand_name"
unfolding search_vector_for_field text_vector replace_dots
underscored_vector = refl

underscored_text : lookup "text_brand_name" (flatten_text (object red_shoe) vectors) ≡ some ""
unfolding flatten_text field_texts field_value replace_underscores strip_prefix lookup insert join
underscored_text = refl
