-- ===== src/Query/Filter.antt =====
-- Translation of a query to a Qdrant filter: `term_condition` and `query_filter` of src/main.rs. The
-- vectors that `walk` is handed as `&mut` are threaded through as a record.
pub mod Laws
pub mod Accepted
use qdrant_es_gateway.Prelude.{
  ℕ, ◌≡◌, String, Bool, true, false, not, ◌&&◌, ◌||◌, List, [], ◌∷◌, ◌++◌, map, Option, none, some,
  if◌then◌else◌, length, head?, is_empty, ltb, ◌==◌,
}
use qdrant_es_gateway.Prelude.Fixpoint.{fix}
use qdrant_es_gateway.Errors.{Result, ok, err, bad, GatewayError, ◌>>=◌, ◌>>◌, refuse, ok_or}
use qdrant_es_gateway.Parse.{concat}
use qdrant_es_gateway.Json.{
  Value, bool, string, array, object, number, pos_int, Map, items, fields, lookup, insert, get,
  as_object, as_array, as_str, as_bool,
}
use qdrant_es_gateway.Json.Size.{size}
use qdrant_es_gateway.Query.Fields.{compatibility_field}
use qdrant_es_gateway.Query.Bool.{bool_clauses, minimum_should_match}

-- The vectors that `walk` pushes to.
pub record Conditions : Type 0 where
  pub must : List Value
  pub must_not : List Value
  pub text : List Value

abbrev pub no_conditions : Conditions
no_conditions = record { must = []; must_not = []; text = [] }

abbrev pub json_object : Map → Value
json_object m = object (fields m)

abbrev pub json_array : List Value → Value
json_array vs = array (items vs)

abbrev pub push_must : Value → Conditions → Conditions
push_must v c = record c { must = c.must ++ v ∷ [] }

abbrev push_must_not : Value → Conditions → Conditions
push_must_not v c = record c { must_not = c.must_not ++ v ∷ [] }

abbrev push_text : Value → Conditions → Conditions
push_text v c = record c { text = c.text ++ v ∷ [] }

-- `Option::and_then`.
abbrev pub and_then {ℓ κ} : {A : Type ℓ} {B : Type κ} → Option A → (A → Option B) → Option B
and_then none f = none
and_then (some a) f = f a

-- A loop that threads the vectors through and stops at the first error.
abbrev pub fold {ℓ κ} : {A : Type ℓ} {S : Type κ} → (A → S → Result S) → List A → S → Result S
fold f [] s = ok s
fold f (a ∷ as_) s = f a s >>= fold f as_

unfoldable pub term_condition : String → Value → Value
term_condition field v =
    let value : Value = elim (get "value" v) [ none ↦ v | some inner ↦ inner ] in
    json_object (
      ("key", string (compatibility_field field))
      ∷ ("match", json_object (("value", value) ∷ []))
      ∷ [])

unfoldable pub condition : List Value → List Value → Value
condition (v ∷ []) [] = v
condition [] [] = json_object (("must", json_array []) ∷ [])
condition must [] = json_object (("must", json_array must) ∷ [])
condition [] must_not = json_object (("must_not", json_array must_not) ∷ [])
condition must must_not =
    json_object (("must", json_array must) ∷ ("must_not", json_array must_not) ∷ [])

-- The first field of an object.
abbrev pub first_field : Value → Option (String × Value)
first_field v = and_then (as_object v) head?

unfoldable pub walk_term : Value → Conditions → Result Conditions
walk_term v c = do
  (f, val) ← ok_or (first_field v) (bad "term" "term requires a field")
  ok (push_must (term_condition f val) c)

unfoldable pub walk_terms : Value → Conditions → Result Conditions
walk_terms v c = do
  (f, val) ← ok_or (first_field v) (bad "terms" "terms requires a field")
  arr ← ok_or (as_array val) (bad "terms" "terms value must be an array")
  ok (
      push_must
        (json_object (
          ("key", string (compatibility_field f))
          ∷ ("match", json_object (("any", json_array arr) ∷ []))
          ∷ []))
        c)

unfoldable pub walk_exists : Value → Conditions → Result Conditions
walk_exists v c = do
  f ← ok_or (and_then (get "field" v) as_str) (bad "exists" "exists requires field")
  let key = json_object (("key", string (compatibility_field f)) ∷ [])
  let is_empty_condition = json_object (("is_empty", key) ∷ [])
  ok (push_must (json_object (("must_not", json_array (is_empty_condition ∷ [])) ∷ [])) c)

-- An option of a range that is true unless it says otherwise.
abbrev includes : String → Value → Bool
includes option r = elim (and_then (get option r) as_bool) [ none ↦ true | some b ↦ b ]

-- The operator of one bound of the range `r`; `none` for an option.
unfoldable pub range_operator : Value → String → Result (Option String)
range_operator r k =
    if k == "gt" || k == "gte" || k == "lt" || k == "lte"
    then ok (some k)
    else if k == "from"
    then ok (some (if includes "include_lower" r then "gte" else "gt"))
    else if k == "to"
    then ok (some (if includes "include_upper" r then "lte" else "lt"))
    else if k == "include_lower" || k == "include_upper" || k == "boost"
    then ok none
    else err (bad (concat "range." k) "unsupported range operator")

abbrev pub add_bound : Option String → Value → Map → Map
add_bound none x range = range
add_bound (some op) x range = insert op x range

abbrev pub range_entry : Value → String × Value → Map → Result Map
range_entry r (k, x) range = range_operator r k >>= λ op. ok (add_bound op x range)

unfoldable pub walk_range : Value → Conditions → Result Conditions
walk_range v c = do
  (f, r) ← ok_or (first_field v) (bad "range" "range requires a field")
  bounds ← ok_or (as_object r) (bad "range" "range body must be an object")
  range ← fold (range_entry r) bounds []
  ok (
      push_must
        (json_object (("key", string (compatibility_field f)) ∷ ("range", json_object range) ∷ []))
        c)

unfoldable pub walk_ids : Value → Conditions → Result Conditions
walk_ids v c = do
  vals ← ok_or (and_then (get "values" v) as_array) (bad "ids" "ids.values must be an array")
  ok (
      push_must
        (json_object
          (("key", string "_es_id") ∷ ("match", json_object (("any", json_array vals) ∷ [])) ∷ []))
        c)

-- The condition of one clause of `must_not` or `should`, walked into vectors of its own.
abbrev pub clause_condition :
    (Value → Conditions → Result Conditions) → GatewayError → Value → Result Value
clause_condition walk refused clause = do
  c ← walk clause no_conditions
  refuse (not (is_empty c.text)) refused
  ok (condition c.must c.must_not)

unfoldable pub walk_must_not :
    (Value → Conditions → Result Conditions) → Value → Conditions → Result Conditions
walk_must_not walk clause c = do
  v ←
      clause_condition walk (bad "query.bool.must_not" "text must_not is not supported safely")
        clause
  ok (push_must_not v c)

unfoldable pub push_should :
    (Value → Conditions → Result Conditions) → Value → List Value → Result (List Value)
push_should walk clause should = do
  v ←
      clause_condition walk (bad "query.bool.should" "text should clauses are not supported safely")
        clause
  ok (should ++ v ∷ [])

abbrev min_should : List Value → ℕ → Value
min_should should minimum = json_object (
    (
      "min_should",
      json_object
          (("conditions", json_array should) ∷ ("min_count", number (pos_int minimum)) ∷ []),
    )
    ∷ [])

unfoldable pub walk_should :
    (Value → Conditions → Result Conditions) → Map → Conditions → Result Conditions
walk_should walk b c =
    let clauses = bool_clauses b "should" in
    let has_required_clause =
      not (is_empty (bool_clauses b "must")) || not (is_empty (bool_clauses b "filter")) in
    let minimum = minimum_should_match b (length clauses) has_required_clause in
    if is_empty clauses
    then ok c
    else (fold (push_should walk) clauses [] >>= λ should.
        ok (if ltb 0 minimum then push_must (min_should should minimum) c else c))

-- The clauses under `must` and `filter` share the vectors of the query.
unfoldable pub walk_bool :
    (Value → Conditions → Result Conditions) → Value → Conditions → Result Conditions
walk_bool walk v c = do
  b ← ok_or (as_object v) (bad "bool" "bool must be an object")
  c1 ← fold walk (bool_clauses b "must") c
  c2 ← fold walk (bool_clauses b "filter") c1
  c3 ← fold (walk_must_not walk) (bool_clauses b "must_not") c2
  walk_should walk b c3

unfoldable pub walk_dis_max :
    (Value → Conditions → Result Conditions) → Value → Conditions → Result Conditions
walk_dis_max walk v c = do
  queries ← ok_or (and_then (get "queries" v) as_array) (bad "dis_max" "queries must be an array")
  fold walk queries c

abbrev is_text_kind : String → Bool
is_text_kind kind =
    kind == "match"
    || kind == "match_phrase"
    || kind == "match_bool_prefix"
    || kind == "multi_match"
    || kind == "fuzzy"

-- Patterns are evaluated by the gateway, so they leave no condition.
abbrev is_pattern_kind : String → Bool
is_pattern_kind kind = kind == "prefix" || kind == "regexp" || kind == "wildcard"

unfoldable pub walk_entry :
    (Value → Conditions → Result Conditions) → String × Value → Conditions → Result Conditions
walk_entry walk (kind, v) c =
    if kind == "match_all"
    then ok c
    else if is_text_kind kind
    then ok (push_text v c)
    else if kind == "dis_max"
    then walk_dis_max walk v c
    else if kind == "term"
    then walk_term v c
    else if kind == "terms"
    then walk_terms v c
    else if kind == "exists"
    then walk_exists v c
    else if kind == "range"
    then walk_range v c
    else if kind == "ids"
    then walk_ids v c
    else if kind == "bool"
    then walk_bool walk v c
    else if is_pattern_kind kind
    then ok c
    else err (bad (concat "query." kind) (concat kind " queries are not supported"))

-- The body of `walk`: the recursive call is `walk`.
unfoldable pub walk_clause :
    (Value → Conditions → Result Conditions) → Value → Conditions → Result Conditions
walk_clause walk q c = do
  o ← ok_or (as_object q) (bad "query" "query clause must be an object")
  fold (walk_entry walk) o c

unfoldable pub walk : Value → Conditions → Result Conditions
walk = fix size (λ c. ok c) walk_clause

abbrev pub finish : Conditions → Option Value
finish c =
    let conditions =
      c.must ++ map (λ x. json_object (("must_not", json_array (x ∷ [])) ∷ [])) c.must_not in
    if is_empty conditions then none else some (json_object (("must", json_array conditions) ∷ []))

-- The sorts that the source returns beside the filter are always empty.
unfoldable pub query_filter : Value → Result (Option Value)
query_filter q = walk q no_conditions >>= λ c. ok (finish c)
