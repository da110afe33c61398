-- ===== src/Mutations.antt =====
-- The evidence that a write to Qdrant has completed (src/mutation_completion.rs): which requests are
-- writes with a proof of completion, and which are reads.
pub mod Tracker
pub mod Laws
mod Tests
use qdrant_es_gateway.Prelude.{
  ℕ, ◌+◌, ◌-◌, ◌≡◌, String, Bool, true, false, not, ◌&&◌, ◌||◌, List, [], ◌∷◌, Option, none, some,
  if◌then◌else◌, eqb, head?, ◌==◌,
}
use qdrant_es_gateway.Parse.{split, contains, is_empty_str}
use qdrant_es_gateway.Json.{Value, null, bool, number, string, array, object, get, as_str, as_bool}

-- The methods that the functions tell apart.
pub data Method : Type 0 where
  method_get method_head method_post method_put method_delete other_method : Method

abbrev pub is_get_or_head : Method → Bool
is_get_or_head method_get = true
is_get_or_head method_head = true
is_get_or_head _ = false

abbrev pub is_post : Method → Bool
is_post method_post = true
is_post _ = false

abbrev pub is_put : Method → Bool
is_put method_put = true
is_put _ = false

abbrev pub is_delete : Method → Bool
is_delete method_delete = true
is_delete _ = false

pub data Proof : Type 0 where
  completed collection_boolean : Proof

abbrev result_status : Value → Option String
result_status value = elim (get "result" value) [
  | none ↦ none
  | some result ↦ elim (get "status" result) [ none ↦ none | some status ↦ as_str status ]
]

-- `Proof::accepts`.
unfoldable pub accepts : Proof → Value → Bool
accepts completed value = elim (result_status value) [ none ↦ false | some s ↦ s == "completed" ]
accepts collection_boolean value = elim (get "result" value) [
  | none ↦ false
  | some result ↦ elim (as_bool result) [ none ↦ false | some b ↦ b ]
]

-- `classify` on the parts of the path.
unfoldable pub classify_parts : Method → List String → Option Proof
classify_parts method (root ∷ collections ∷ name ∷ []) =
    if root == ""
      && collections == "collections"
      && not (is_empty_str name)
      && (is_put method || is_delete method)
    then some collection_boolean
    else none
classify_parts method (root ∷ collections ∷ name ∷ last ∷ []) =
    if root == ""
      && collections == "collections"
      && (last == "points" || last == "index")
      && not (is_empty_str name)
      && is_put method
    then some completed
    else none
classify_parts method (root ∷ collections ∷ name ∷ points ∷ last ∷ []) =
    if root == ""
      && collections == "collections"
      && points == "points"
      && (last == "delete" || last == "payload")
      && not (is_empty_str name)
      && is_post method
    then some completed
    else none
classify_parts method _ = none

abbrev pub contains_any : List ℕ → String → Bool
contains_any [] path = false
contains_any (c ∷ cs) path = contains c path || contains_any cs path

unfoldable pub classify : Method → String → Option Proof
unfolding contains split
classify method path =
    if contains_any (b'?' ∷ b'#' ∷ b'%' ∷ []) path
    then none
    else classify_parts method (split b'/' path)

unfoldable pub is_read_parts : List String → Bool
is_read_parts (root ∷ collections ∷ name ∷ last ∷ []) =
    root == ""
    && collections == "collections"
    && (last == "points" || last == "facet")
    && not (is_empty_str name)
is_read_parts (root ∷ collections ∷ name ∷ points ∷ last ∷ []) =
    root == ""
    && collections == "collections"
    && points == "points"
    && (last == "count" || last == "scroll" || last == "query")
    && not (is_empty_str name)
is_read_parts _ = false

-- `split('?').next().unwrap_or(path)`.
abbrev clean_path : String → String
clean_path path = elim (head? (split b'?' path)) [ none ↦ path | some clean ↦ clean ]

unfoldable pub is_read : Method → String → Bool
unfolding contains split
is_read method path =
    if is_get_or_head method
    then true
    else if not (is_post method) || contains_any (b'#' ∷ b'%' ∷ []) path
    then false
    else is_read_parts (split b'/' (clean_path path))
