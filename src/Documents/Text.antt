-- ===== src/Documents/Text.antt =====
-- The texts of a document that are indexed, and the vector in which a field is searched:
-- `flatten_text` and `search_vector_for_field` of src/main.rs.
pub mod Laws
use Prim.Native.Char.{code}
use qdrant_es_gateway.Prelude.{
  String, Bool, true, false, ◌&&◌, List, [], ◌∷◌, Option, none, some, if◌then◌else◌, eqb, is_empty,
  ◌==◌,
}
use qdrant_es_gateway.Parse.{concat, strip_prefix}
use qdrant_es_gateway.Json.{Value, Map, string, insert, lookup, get, as_str, as_object}
use qdrant_es_gateway.TextQuery.Words.{join}
use qdrant_es_gateway.Sparse.Mapping.{properties, object_or_empty}
use qdrant_es_gateway.Admin.Indices.{replace_dots, contains}

-- `replace('_', ".")`
unfoldable pub replace_underscores : String → String
replace_underscores String.[] = ""
replace_underscores (String.◌∷◌ c s) =
    String.◌∷◌ (if eqb (code c) b'_' then "." else c) (replace_underscores s)

abbrev pub or_else : Option Value → Option Value → Option Value
or_else none b = b
or_else (some a) b = some a

abbrev pub text_or_empty : Option Value → String
text_or_empty none = ""
text_or_empty (some v) = elim (as_str v) [ none ↦ "" | some text ↦ text ]

unfoldable pub field_value : Map → String → String → String
field_value obj vector field =
    text_or_empty (or_else (lookup (replace_underscores field) obj) (lookup vector obj))

-- The loop over the vectors of texts.
unfoldable pub field_texts : Map → List String → List (String × String)
field_texts obj [] = []
field_texts obj (vector ∷ vectors) = elim (strip_prefix "text_" vector) [
  | none ↦ field_texts obj vectors
  | some field ↦ insert vector (field_value obj vector field) (field_texts obj vectors)
]

abbrev pub strings : Map → List String
strings [] = []
strings ((k, v) ∷ m) = elim (as_str v) [ none ↦ strings m | some text ↦ text ∷ strings m ]

-- The map is the same in any order of the insertions, since equal vectors have equal texts.
unfoldable pub flatten_text : Value → List String → List (String × String)
flatten_text source vectors =
    let obj = object_or_empty (some source) in
    insert "text_all" (join (strings obj)) (field_texts obj vectors)

unfoldable pub text_vector : String → String
text_vector field = if field == "_all" then "text_all" else concat "text_" (replace_dots field)

unfoldable pub search_vector_for_field : Value → List String → String → Option String
search_vector_for_field mapping vectors field =
    if contains vectors (text_vector field)
    then some (text_vector field)
    else if is_empty (properties mapping) && contains vectors "text_all"
    then some "text_all"
    else none
