-- ===== src/Sparse/Mapping.antt =====
-- `validate_mapping` of src/sparse.rs.
use qdrant_es_gateway.Prelude.{
  String, Bool, false, not, ◌&&◌, ◌||◌, [], Option, none, some, if◌then◌else◌, all, ◌==◌,
}
use qdrant_es_gateway.Errors.{Result, ok, bad, refuse, for_each}
use qdrant_es_gateway.Parse.{concat}
use qdrant_es_gateway.Json.{Value, Map, get, lookup, keys, as_object, as_str}
use qdrant_es_gateway.Query.Match.{is_some_and}
use qdrant_es_gateway.Query.PostFilter.{is_none_or, as_str_of}

-- `mapping.get("properties").and_then(Value::as_object)`, empty where there is none.
abbrev pub object_or_empty : Option Value → Map
object_or_empty none = []
object_or_empty (some v) = elim (as_object v) [ none ↦ [] | some m ↦ m ]

abbrev pub properties : Value → Map
properties mapping = object_or_empty (get "properties" mapping)

abbrev pub is_text : Option String → String → Bool
is_text none text = false
is_text (some s) text = s == text

abbrev pub has_type : Value → String → Bool
has_type spec name = is_text (as_str_of (get "type" spec)) name

unfoldable pub valid_method : Value → Bool
valid_method method = is_some_and (as_object method) (λ m.
    all (λ k. k == "name" || k == "engine") (keys m)
    && is_text (as_str_of (lookup "name" m)) "seismic"
    && is_none_or (lookup "engine" m) (λ engine. is_text (as_str engine) "lucene"))

unfoldable pub valid_spec : Value → Bool
valid_spec spec =
    is_some_and (as_object spec) (λ s. all (λ k. k == "type" || k == "method") (keys s))
    && is_none_or (get "method" spec) valid_method

unfoldable pub validate_property : String → Value → Result (Unit {0})
validate_property field spec =
    if not (has_type spec "sparse_vector")
    then ok tt
    else refuse (not (valid_spec spec)) (
        bad (concat "mappings.properties." field)
          "sparse_vector accepts type and optional method:{name:seismic,engine:lucene}; engine tuning, native engine and pruning options are unsupported")

unfoldable pub validate_mapping : Value → Result (Unit {0})
validate_mapping mapping =
    for_each (λ (p : String × Value). validate_property p.0 p.1) (properties mapping)
