-- ===== src/Search/Collapse/Laws.antt =====
-- The inner hits that an accepted collapse asks for.
use qdrant_es_gateway.Prelude.{
  ℕ, ◌≤◌, ◌≡◌, ap, ◌∙◌, String, false, Option, none, some, arith, ltb, not, ◌&&◌, ◌==◌,
}
use qdrant_es_gateway.Errors.{ok, bad, ok_or, >>=-eq-ok, refuse-eq-ok}
use qdrant_es_gateway.Json.{Value, lookup, as_object}
use qdrant_es_gateway.Query.Fields.{compatibility_field}
use qdrant_es_gateway.Source.Filter.{SourceFilter, parse_source_filter, find_key}
use qdrant_es_gateway.Search.Collapse.{
  InnerHitsSpec, CollapseSpec, inner_hits_spec, inner_hits_specs, inner_hits_name, inner_hits_size,
  collapse_spec, parse_collapse_spec, refuse_option, is_inner_hits_option, fields_refused,
  non_empty,
}

inner_hits_spec-size :
    (requested_field : String) (max_page_size : ℕ) (value : Value) {spec : InnerHitsSpec}
    → inner_hits_spec requested_field max_page_size value ≡ ok spec
    → spec.size ≤ max_page_size
unfolding inner_hits_spec
inner_hits_spec-size requested_field max_page_size value {spec} h =
    let (inner_hits, e1, h1) = >>=-eq-ok (ok_or (as_object value) _) _ h in
    let (u, e2, h2) =
      >>=-eq-ok
        (refuse_option (find_key (λ key. not (is_inner_hits_option key)) inner_hits)
          "collapse.inner_hits." "unsupported inner_hits option")
        _ h1 in
    let (name, e3, h3) =
      >>=-eq-ok (inner_hits_name requested_field (lookup "name" inner_hits)) _ h2 in
    let (size, e4, h4) = >>=-eq-ok (inner_hits_size (lookup "size" inner_hits)) _ h3 in
    let (capped, h5) = refuse-eq-ok (ltb max_page_size size) _ _ h4 in
    let (supported, h6) = refuse-eq-ok (fields_refused (lookup "fields" inner_hits)) _ _ h5 in
    let (source, e7, h7) =
      >>=-eq-ok (parse_source_filter (lookup "_source" inner_hits) "collapse.inner_hits._source") _
        h6 in
    sized name size source spec capped h7
  where
    sized :
        (name : String) (size : ℕ) (source : Option SourceFilter) (spec : InnerHitsSpec)
        → ltb max_page_size size ≡ false
        → ok (record { name = name; size = size; source = source }) ≡ ok spec
        → spec.size ≤ max_page_size
    sized name size source spec capped e = ground arith

specs-size :
    (requested_field : String) (max_page_size : ℕ) (o : Option Value) {spec : InnerHitsSpec}
    → inner_hits_specs requested_field max_page_size o ≡ ok (some spec)
    → spec.size ≤ max_page_size
specs-size requested_field max_page_size none h = cc
specs-size requested_field max_page_size (some value) {spec} h =
    let (s, e, k) = >>=-eq-ok (inner_hits_spec requested_field max_page_size value) _ h in
    let same : s ≡ spec = ground arith in
    inner_hits_spec-size requested_field max_page_size value (e ∙ ap ok same)

collapse_spec-size :
    (max_page_size : ℕ) (value : Value) {spec : CollapseSpec} {inner : InnerHitsSpec}
    → collapse_spec max_page_size value ≡ ok spec
    → spec.inner_hits ≡ some inner
    → inner.size ≤ max_page_size
unfolding collapse_spec
collapse_spec-size max_page_size value {spec} {inner} h i =
    let (collapse, e1, h1) = >>=-eq-ok (ok_or (as_object value) _) _ h in
    let (u, e2, h2) =
      >>=-eq-ok
        (refuse_option
          (find_key (λ key. not (key == "field") && not (key == "inner_hits")) collapse) "collapse."
          "unsupported collapse option")
        _ h1 in
    let (requested_field, e3, h3) =
      >>=-eq-ok
        (ok_or (non_empty (lookup "field" collapse))
          (bad "collapse.field" "collapse requires a field"))
        _ h2 in
    let (inner_hits, e4, h4) =
      >>=-eq-ok (inner_hits_specs requested_field max_page_size (lookup "inner_hits" collapse)) _
        h3 in
    specs-size requested_field max_page_size (lookup "inner_hits" collapse)
      (e4 ∙ ap ok (asked requested_field inner_hits h4))
  where
    asked :
        (f : String) (inner_hits : Option InnerHitsSpec)
        → ok (record { field = compatibility_field f; inner_hits = inner_hits }) ≡ ok spec
        → inner_hits ≡ some inner
    asked f inner_hits e = ground arith

-- No accepted collapse asks for more inner hits than the configured page size.
pub parse_collapse_spec-size :
    (collapse : Value) (max_page_size : ℕ) {spec : CollapseSpec} {inner : InnerHitsSpec}
    → parse_collapse_spec (some collapse) max_page_size ≡ ok (some spec)
    → spec.inner_hits ≡ some inner
    → inner.size ≤ max_page_size
unfolding parse_collapse_spec
parse_collapse_spec-size collapse max_page_size {spec} {inner} h i =
    let (s, e, k) = >>=-eq-ok (collapse_spec max_page_size collapse) _ h in
    let same : s ≡ spec = ground arith in
    collapse_spec-size max_page_size collapse (e ∙ ap ok same) i
