-- ===== src/Source/Tests.antt =====
-- Runs on concrete documents and patterns, and the theorems applied to them.
use qdrant_es_gateway.Prelude.{◌≡◌, refl, true, false, [], ◌∷◌, some, codes}
use qdrant_es_gateway.Parse.{contains, strip_prefix}
use qdrant_es_gateway.Json.{
  Value, string, number, pos_int, object, end, field, Map, fields, lookup, insert, get,
}
use qdrant_es_gateway.Json.Equality.{value_eq, number_eq}
use qdrant_es_gateway.Source.Filter.{
  SourceFilter, covers, project_source, project_source_value, project_scalar,
}
use qdrant_es_gateway.Source.Filter.Laws.{
  Allowed, project_source-Allowed, everything, project_source-everything,
}
use qdrant_es_gateway.Source.Merge.{merge, merge_partial_document}
use qdrant_es_gateway.Source.Merge.Laws.{merged, merge-lookup}
use qdrant_es_gateway.Source.Glob.{glob_matches}
use qdrant_es_gateway.Source.Glob.Spec.{describes}
use qdrant_es_gateway.Source.Glob.Laws.{glob_matches_lem, glob_matches-star}

glob_test : glob_matches "a*c?e" "abbccde" ≡ true
unfolding glob_matches
glob_test = refl

glob_matches_lem_example :
    glob_matches "user.*" "user.name" ≡ describes (codes "user.*") (codes "user.name")
glob_matches_lem_example = glob_matches_lem "user.*" "user.name" refl

glob_matches-star_example :
    (glob_matches "*" "*ab" ≡ false) × (describes (codes "*") (codes "*ab") ≡ true)
glob_matches-star_example = glob_matches-star "*" "*ab" b'a' (b'b' ∷ []) refl refl

projections : Unit {0}
unfolding project_source project_source_value project_scalar covers glob_matches contains
    strip_prefix merge_partial_document merge value_eq number_eq lookup insert
projections = tt

abbrev document : Value
document = object (field "name" (string "pen") (field "price" (number (pos_int 3)) end))

abbrev without_price : SourceFilter
without_price = record { enabled = true; includes = []; excludes = "pri*" ∷ [] }

project_source-Allowed_example : Allowed without_price "" (object (field "name" (string "pen") end))
unfolding projections
project_source-Allowed_example = project_source-Allowed document without_price refl

project_source-everything_example : project_source document (some everything) ≡ some document
project_source-everything_example = project_source-everything document

abbrev patch : Map
patch = ("price", number (pos_int 4)) ∷ []

abbrev target : Map
target = ("name", string "pen") ∷ ("price", number (pos_int 3)) ∷ []

merge_test :
    merge_partial_document (object (fields target)) (object (fields patch))
    ≡ (object (field "name" (string "pen") (field "price" (number (pos_int 4)) end)), true)
unfolding projections
merge_test = refl

merge-lookup_example :
    get "price" (merge_partial_document (object (fields target)) (object (fields patch))).0
    ≡ merged (lookup "price" patch) (lookup "price" target)
merge-lookup_example = merge-lookup target patch "price" (refl, tt)
