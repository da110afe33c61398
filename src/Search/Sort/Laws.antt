-- ===== src/Search/Sort/Laws.antt =====
-- What an accepted sort is made of.
use qdrant_es_gateway.Prelude.{
  ℕ, suc, ◌≡◌, ◌≢◌, ◌⊎◌, inl, inr, refl, ap, String, not, ◌&&◌, List, [], ◌∷◌, Option, some, arith,
  length, All, eq_iff, eq-cases, ◌==◌,
}
use qdrant_es_gateway.Errors.{ok, bad, ◌>>◌, refuse, >>=-eq-ok}
use qdrant_es_gateway.Json.{Value, string, object, end, field}
use qdrant_es_gateway.Search.Window.{Sorts}
use qdrant_es_gateway.Search.Sort.{
  sort_field, sort_order, default_order, sort_clause, collect, sort_clauses, parse_sort_specs,
}

-- A named field and one of the two directions.
abbrev pub IsSpec : String × String → Type 0
IsSpec spec = (spec.0 ≢ "") × ((spec.1 ≡ "asc") ⊎ (spec.1 ≡ "desc"))

sort_field-named :
    (clause : Value) {name : String} {options : Option Value}
    → sort_field clause ≡ ok (name, options)
    → name ≢ ""
unfolding sort_field
sort_field-named (string name) h = λ e. ground (arith, eq_iff name "")
sort_field-named (object end) h = cc
sort_field-named (object (field name options end)) h = λ e. ground (arith, eq_iff name "")
sort_field-named (object (field name options (field k v fs))) h = cc
sort_field-named _ h = cc

directed :
    (order name : String) (spec : String × String)
    → (refuse
          (not (order == "asc") && not (order == "desc"))
          (bad "sort" "sort order must be asc or desc")
        >> ok (name, order))
      ≡ ok spec
    → (spec ≡ (name, order)) × ((order ≡ "asc") ⊎ (order ≡ "desc"))
directed order name spec h = elim (eq-cases order "asc") [
  | inl (e, same) ↦ (ground arith, inl same)
  | inr (e, other) ↦ elim (eq-cases order "desc") [
    | inl (e', same) ↦ (ground arith, inr same)
    | inr (e', other') ↦ absurd (ground arith)
  ]
]

sort_clause-IsSpec :
    (clause : Value) {spec : String × String} → sort_clause clause ≡ ok spec → IsSpec spec
unfolding sort_clause
sort_clause-IsSpec clause {spec} h =
    let ((name, options), field_e, rest) = >>=-eq-ok (sort_field clause) _ h in
    let (order, order_e, last) = >>=-eq-ok (sort_order (default_order name) options) _ rest in
    let (same, direction) = directed order name spec last in
    rw same (sort_field-named clause field_e, direction)

collect_lem :
    (clauses : List Value) {specs : Sorts}
    → collect clauses ≡ ok specs
    → All IsSpec specs × (length specs ≡ length clauses)
unfolding collect
collect_lem [] {specs} h = let e : [] ≡ specs = ground arith in rw (← e) (tt, refl)
collect_lem (clause ∷ clauses) {specs} h =
    let (spec, clause_e, rest) = >>=-eq-ok (sort_clause clause) _ h in
    let (later, later_e, last) = >>=-eq-ok (collect clauses) _ rest in
    let (all_later, lengths) = collect_lem clauses later_e in
    let e : spec ∷ later ≡ specs = ground arith in
    rw (← e) ((sort_clause-IsSpec clause clause_e, all_later), ap (λ (n : ℕ). suc n) lengths)

-- An accepted sort has one entry for each clause, and each entry has a field that is not empty and
-- the direction asc or desc.
pub parse_sort_specs_lem :
    (sort : Value) {specs : Sorts}
    → parse_sort_specs (some sort) ≡ ok specs
    → All IsSpec specs × (length specs ≡ length (sort_clauses sort))
unfolding parse_sort_specs
parse_sort_specs_lem sort h = collect_lem (sort_clauses sort) h
