-- ===== src/Search/Sort.antt =====
-- `parse_sort_specs`: the fields and the directions of a sort.
pub mod Laws
use qdrant_es_gateway.Prelude.{
  ℕ, ◌≡◌, String, Bool, true, false, not, ◌&&◌, ◌||◌, List, [], ◌∷◌, Option, none, some,
  if◌then◌else◌, any, ◌==◌,
}
use qdrant_es_gateway.Errors.{Result, ok, err, bad, ◌>>=◌, ◌>>◌, refuse, ok_or}
use qdrant_es_gateway.Parse.{is_empty_str}
use qdrant_es_gateway.Json.{
  Value, string, array, object, Fields, end, field, Map, elems, entries, keys, lookup, as_str,
}
use qdrant_es_gateway.Search.Window.{Sorts}

-- The field of one clause, with its options if it has any.
unfoldable pub sort_field : Value → Result (String × Option Value)
sort_field (string name) =
    if is_empty_str name
    then err (bad "sort" "each sort clause must be a field name or a single-field object")
    else ok (name, none)
sort_field (object (field name options end)) =
    if is_empty_str name
    then err (bad "sort" "sort field must not be empty")
    else ok (name, some options)
sort_field _ = err (bad "sort" "each sort clause must be a field name or a single-field object")

abbrev pub default_order : String → String
default_order name = if name == "_score" then "desc" else "asc"

abbrev order_option : String → Option Value → Result String
order_option default none = ok default
order_option default (some order) =
    ok_or (as_str order) (bad "sort" "sort order must be asc or desc")

unfoldable pub sort_order : String → Option Value → Result String
sort_order default none = ok default
sort_order default (some (string order)) = ok order
sort_order default (some (object options)) = do
  refuse (any (λ key. not (key == "order")) (keys (entries options)))
      (bad "sort" "only the basic sort order option is supported")
  order_option default (lookup "order" (entries options))
sort_order default (some _) = err (bad "sort" "sort order must be asc or desc")

unfoldable pub sort_clause : Value → Result (String × String)
sort_clause clause = do
  (name, options) ← sort_field clause
  order ← sort_order (default_order name) options
  refuse (not (order == "asc") && not (order == "desc"))
      (bad "sort" "sort order must be asc or desc")
  ok (name, order)

-- `map(…).collect()`: the first error, or all results.
unfoldable pub collect : List Value → Result Sorts
collect [] = ok []
collect (clause ∷ clauses) = do
  spec ← sort_clause clause
  specs ← collect clauses
  ok (spec ∷ specs)

abbrev pub sort_clauses : Value → List Value
sort_clauses (array clauses) = elems clauses
sort_clauses clause = clause ∷ []

unfoldable pub parse_sort_specs : Option Value → Result Sorts
parse_sort_specs none = ok []
parse_sort_specs (some sort) = collect (sort_clauses sort)
