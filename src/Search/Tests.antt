-- ===== src/Search/Tests.antt =====
-- Runs on concrete requests, and the theorems applied to them.
use qdrant_es_gateway.Prelude.{
  ℕ, ◌≡◌, ◌≤◌, ◌<◌, ◌+◌, ◌↔◌, refl, true, false, ◌||◌, List, [], ◌∷◌, none, some, min, arith, any,
  length, All,
}
use qdrant_es_gateway.Prelude.{◌&&◌, all}
use qdrant_es_gateway.Errors.{ok, is_ok}
use qdrant_es_gateway.Search.Controls.{validate_search_execution_controls}
use qdrant_es_gateway.Search.Controls.Laws.{
  empty_or_absent, is_empty_object, is_empty_array, switched_off, absent, controls_lem,
}
use qdrant_es_gateway.Json.{
  Value, string, number, pos_int, object, array, end, field, nil, cons, lookup, get, as_array,
  is_array, is_object,
}
use qdrant_es_gateway.Query.Fields.{compatibility_field}
use qdrant_es_gateway.Source.Filter.{parse_source_filter}
use qdrant_es_gateway.Search.Window.{
  parse_search_window, non_negative_integer, validate_search_after, Sorts, show_u64,
}
use qdrant_es_gateway.Search.Window.Laws.{
  stated_or, parse_search_window_lem, validate_search_after_lem,
}
use qdrant_es_gateway.Search.Sort.{
  parse_sort_specs, collect, sort_clause, sort_field, sort_order, sort_clauses,
}
use qdrant_es_gateway.Search.Sort.Laws.{IsSpec, parse_sort_specs_lem}
use qdrant_es_gateway.Search.Totals.{total_hits_value, threshold}
use qdrant_es_gateway.Search.Totals.Laws.{total_hits_value_sound}
use qdrant_es_gateway.Search.Collapse.{
  parse_collapse_spec, collapse_spec, inner_hits_spec, inner_hits_name, inner_hits_size,
}
use qdrant_es_gateway.Search.Collapse.Laws.{parse_collapse_spec-size}

requests : Unit {0}
unfolding parse_search_window non_negative_integer validate_search_after parse_sort_specs collect
    sort_clause sort_field sort_order parse_collapse_spec collapse_spec inner_hits_spec
    inner_hits_name inner_hits_size lookup compatibility_field parse_source_filter total_hits_value
requests = tt

abbrev body : Value
body = object (
    field "search_after" (array (cons (number (pos_int 7)) nil))
      (field "size" (number (pos_int 20)) end))

abbrev sort : Value
sort = array (cons (object (field "price" (string "desc") end)) nil)

abbrev specs : Sorts
specs = ("price", "desc") ∷ []

abbrev collapse : Value
collapse = object (
    field "field" (string "brand")
      (field "inner_hits" (object (field "size" (number (pos_int 5)) end)) end))

show_test : show_u64 10250 ≡ "10250"
unfolding show_u64
show_test = refl

parse_search_window_lem_example : (parse_search_window body 100 ≡ ok (0, 20)) ↔ (
    (stated_or 0 (get "from" body) ≡ some 0)
    × (stated_or (min 10 100) (get "size" body) ≡ some 20)
    × (20 ≤ 100)
    × (0 + 20 ≤ 10000))
parse_search_window_lem_example = parse_search_window_lem body 100 0 20

validate_search_after_lem_example :
    (cursor : List Value) × (as_array (array (cons (number (pos_int 7)) nil)) ≡ some cursor)
    × (length cursor ≡ length specs)
    × (0 < length specs)
    × (◌≡◌ {A = ℕ} 0 0)
    × (any (λ v. is_array v || is_object v) cursor ≡ false)
unfolding requests
validate_search_after_lem_example =
    validate_search_after_lem body (array (cons (number (pos_int 7)) nil)) specs 0 refl refl

parse_sort_specs_lem_example : All IsSpec specs × (length specs ≡ length (sort_clauses sort))
unfolding requests
parse_sort_specs_lem_example = parse_sort_specs_lem sort refl

total_hits_value_sound_example : (10 ≤ 25) × (false ≡ true → ◌≡◌ {A = ℕ} 10 25)
unfolding requests
total_hits_value_sound_example =
    total_hits_value_sound (threshold 10) 25 25 10 true false (omega arith) (λ e. refl) refl

parse_collapse_spec-size_example : 5 ≤ 100
unfolding requests
parse_collapse_spec-size_example =
    parse_collapse_spec-size collapse 100
      {spec = record {
        field = "brand";
        inner_hits = some (record { name = "brand"; size = 5; source = none });
      }}
      refl refl

controls_lem_example : is_ok (validate_search_execution_controls body) ≡ (
    empty_or_absent is_empty_object (get "script_fields" body)
    && (empty_or_absent is_empty_array (get "docvalue_fields" body)
        && (all
              (λ key. switched_off (get key body))
              ("version" ∷ "seq_no_primary_term" ∷ "profile" ∷ "explain" ∷ [])
            && all
                (λ key. absent (get key body))
                ("min_score" ∷ "terminate_after" ∷ "timeout" ∷ "highlight" ∷ []))))
controls_lem_example = controls_lem body
