-- ===== src/Search/Collapse.antt =====
-- `parse_collapse_spec`: collapsing hits by a field, with inner hits.
pub mod Laws
use qdrant_es_gateway.Prelude.{
  ℕ, ◌≡◌, String, Bool, true, false, not, ◌&&◌, ◌||◌, List, [], ◌∷◌, Option, none, some,
  if◌then◌else◌, all, ltb, ◌==◌,
}
use qdrant_es_gateway.Errors.{Result, ok, err, bad, ◌>>=◌, ◌>>◌, refuse, ok_or}
use qdrant_es_gateway.Parse.{concat, is_empty_str}
use qdrant_es_gateway.Json.{Value, Map, lookup, as_object, as_array, as_str, as_u64}
use qdrant_es_gateway.Query.Fields.{compatibility_field}
use qdrant_es_gateway.Source.Filter.{SourceFilter, parse_source_filter, find_key}
use qdrant_es_gateway.Search.Window.{show_u64}

pub record InnerHitsSpec : Type 0 where
  pub name : String
  pub size : ℕ
  pub source : Option SourceFilter

pub record CollapseSpec : Type 0 where
  pub field : String
  pub inner_hits : Option InnerHitsSpec

abbrev non_empty : Option Value → Option String
non_empty none = none
non_empty (some v) = elim (as_str v) [
  | none ↦ none
  | some s ↦ if is_empty_str s then none else some s
]

unfoldable pub inner_hits_name : String → Option Value → Result String
inner_hits_name requested_field none = ok requested_field
inner_hits_name requested_field (some name) =
    ok_or (non_empty (some name))
      (bad "collapse.inner_hits.name" "inner_hits name must be a non-empty string")

unfoldable pub inner_hits_size : Option Value → Result ℕ
inner_hits_size none = ok 3
inner_hits_size (some size) =
    ok_or (as_u64 size)
      (bad "collapse.inner_hits.size" "inner_hits size must be a non-negative integer")

abbrev is_id : Value → Bool
is_id v = elim (as_str v) [ none ↦ false | some s ↦ s == "_id" ]

abbrev fields_refused : Option Value → Bool
fields_refused none = false
fields_refused (some fields) = elim (as_array fields) [
  | none ↦ true
  | some values ↦ not (all is_id values)
]

abbrev is_inner_hits_option : String → Bool
is_inner_hits_option key = key == "name" || key == "size" || key == "fields" || key == "_source"

-- `if let Some(option) = … { return Err(…) }`.
abbrev refuse_option : Option String → String → String → Result (Unit {0})
refuse_option none path message = ok tt
refuse_option (some option) path message = err (bad (concat path option) message)

unfoldable pub inner_hits_spec : String → ℕ → Value → Result InnerHitsSpec
inner_hits_spec requested_field max_page_size value = do
  inner_hits ← ok_or (as_object value) (bad "collapse.inner_hits" "inner_hits must be an object")
  refuse_option (find_key (λ key. not (is_inner_hits_option key)) inner_hits) "collapse.inner_hits."
      "unsupported inner_hits option"
  name ← inner_hits_name requested_field (lookup "name" inner_hits)
  size ← inner_hits_size (lookup "size" inner_hits)
  refuse (ltb max_page_size size) (
      bad "collapse.inner_hits.size" (
        concat "inner_hits size is capped at "
          (concat (show_u64 max_page_size) " by MAX_PAGE_SIZE")))
  refuse (fields_refused (lookup "fields" inner_hits))
      (bad "collapse.inner_hits.fields" "only the _id metadata field is supported in inner_hits")
  source ← parse_source_filter (lookup "_source" inner_hits) "collapse.inner_hits._source"
  ok (record { name = name; size = size; source = source })

abbrev inner_hits_specs : String → ℕ → Option Value → Result (Option InnerHitsSpec)
inner_hits_specs requested_field max_page_size none = ok none
inner_hits_specs requested_field max_page_size (some value) =
    inner_hits_spec requested_field max_page_size value >>= λ spec. ok (some spec)

unfoldable pub collapse_spec : ℕ → Value → Result CollapseSpec
collapse_spec max_page_size value = do
  collapse ← ok_or (as_object value) (bad "collapse" "collapse must be an object")
  refuse_option (find_key (λ key. not (key == "field") && not (key == "inner_hits")) collapse)
      "collapse." "unsupported collapse option"
  requested_field ←
      ok_or (non_empty (lookup "field" collapse)) (bad "collapse.field" "collapse requires a field")
  inner_hits ← inner_hits_specs requested_field max_page_size (lookup "inner_hits" collapse)
  ok (record { field = compatibility_field requested_field; inner_hits = inner_hits })

unfoldable pub parse_collapse_spec : Option Value → ℕ → Result (Option CollapseSpec)
parse_collapse_spec none max_page_size = ok none
parse_collapse_spec (some collapse) max_page_size =
    collapse_spec max_page_size collapse >>= λ spec. ok (some spec)
