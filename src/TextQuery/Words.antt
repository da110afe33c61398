-- ===== src/TextQuery/Words.antt =====
-- Words of a text: `words`, `field_text` and `fuzzy_matches` of src/main.rs. Unicode is a parameter:
-- `split_whitespace` and `to_lowercase` of the standard library. `to_string` prints a JSON value.
pub mod Laws
use qdrant_es_gateway.Prelude.{
  ℕ, String, Bool, true, false, List, [], ◌∷◌, map, Option, none, some, if◌then◌else◌, leb, all,
  any, length, codes,
}
use qdrant_es_gateway.Parse.{concat}
use qdrant_es_gateway.Json.{Value, string, array, as_str, elems}
use qdrant_es_gateway.Query.Fields.{source_field, compatibility_field}
use qdrant_es_gateway.TextQuery.Distance.{edit_distance}

abbrev pub filter_map {ℓ κ} : {A : Type ℓ} {B : Type κ} → (A → Option B) → List A → List B
filter_map f [] = []
filter_map f (x ∷ xs) = elim (f x) [ none ↦ filter_map f xs | some y ↦ y ∷ filter_map f xs ]

unfoldable pub join : List String → String
join [] = ""
join (s ∷ []) = s
join (s ∷ t ∷ texts) = concat s (concat " " (join (t ∷ texts)))

-- `none` would be a panic of the distance.
abbrev pub within : ℕ → Option ℕ → Bool
within maximum none = false
within maximum (some distance) = leb distance maximum

-- The edits that a term of a fuzzy query allows.
unfoldable pub maximum_edits : String → ℕ
maximum_edits term = let n = length (codes term) in if leb n 2 then 0 else if leb n 5 then 1 else 2

module _ (split_whitespace : String → List String) (to_lowercase : String → String) where
  unfoldable pub words : String → List String
  words value = map to_lowercase (split_whitespace value)

  unfoldable pub fuzzy_matches : String → String → Bool
  fuzzy_matches text query =
      all
        (λ term.
          any (λ candidate. within (maximum_edits term) (edit_distance term candidate))
            (words text))
        (words query)

module _ (to_lowercase : String → String) (to_string : Value → String) where
  abbrev value_text : Value → String
  value_text (string text) = text
  value_text (array values) = join (filter_map as_str (elems values))
  value_text value = to_string value

  unfoldable pub field_text : Value → String → String
  field_text source field = elim (source_field source (compatibility_field field)) [
    | none ↦ to_lowercase ""
    | some value ↦ to_lowercase (value_text value)
  ]
