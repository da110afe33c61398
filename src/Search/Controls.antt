-- ===== src/Search/Controls.antt =====
-- `validate_search_execution_controls`: the controls that the gateway does not execute.
pub mod Laws
use qdrant_es_gateway.Prelude.{
  String, Bool, true, false, not, List, [], ◌∷◌, Option, none, some, is_empty,
}
use qdrant_es_gateway.Errors.{Result, ok, err, bad, ◌>>=◌, ◌>>◌, refuse, ok_or, for_each}
use qdrant_es_gateway.Parse.{concat}
use qdrant_es_gateway.Json.{Value, get, as_object, as_array, as_bool}

unfoldable pub check_script_fields : Option Value → Result (Unit {0})
check_script_fields none = ok tt
check_script_fields (some script_fields) = do
  fields ← ok_or (as_object script_fields) (bad "script_fields" "script_fields must be an object")
  refuse (not (is_empty fields)) (
      bad "script_fields"
        "search-time scripted fields are not currently supported; the gateway cannot execute Elasticsearch or OpenSearch scripts or return their per-hit fields")

unfoldable pub check_docvalue_fields : Option Value → Result (Unit {0})
check_docvalue_fields none = ok tt
check_docvalue_fields (some docvalue_fields) = do
  fields ←
      ok_or (as_array docvalue_fields) (bad "docvalue_fields" "docvalue_fields must be an array")
  refuse (not (is_empty fields)) (
      bad "docvalue_fields"
        "doc value field retrieval is not currently supported; the gateway cannot return Elasticsearch or OpenSearch doc values in each hit's fields object")

abbrev flag_result : String → String → Option Bool → Result (Unit {0})
flag_result control message (some false) = ok tt
flag_result control message (some true) = err (bad control message)
flag_result control message none = err (bad control (concat control " must be a boolean"))

-- A control that may only be absent or false.
unfoldable pub check_flag : Value → String × String → Result (Unit {0})
check_flag body (control, message) = elim (get control body) [
  | none ↦ ok tt
  | some enabled ↦ flag_result control message (as_bool enabled)
]

-- A control that may only be absent.
unfoldable pub check_absent : Value → String × String → Result (Unit {0})
check_absent body (control, message) = elim (get control body) [
  | none ↦ ok tt
  | some value ↦ err (bad control message)
]

abbrev pub flags : List (String × String)
flags =
    (
      "version",
      "per-hit document versions are not currently supported; the gateway cannot provide Elasticsearch or OpenSearch version concurrency metadata",
    )
    ∷ (
      "seq_no_primary_term",
      "per-hit sequence numbers and primary terms are not currently supported; gateway write metadata is not an Elasticsearch or OpenSearch concurrency token",
    )
    ∷ (
      "profile",
      "query profiling is not currently supported; the gateway cannot report Qdrant execution as Lucene query and collector timing trees",
    )
    ∷ (
      "explain",
      "per-hit score explanations are not currently supported; returned scores use Qdrant rather than Lucene scoring internals",
    )
    ∷ []

abbrev pub controls : List (String × String)
controls =
    ("min_score", "min_score changes hit membership and totals and is not currently supported")
    ∷ (
      "terminate_after",
      "terminate_after changes hit membership and early-termination metadata and is not currently supported",
    )
    ∷ ("timeout", "per-search timeout and partial-result semantics are not currently supported")
    ∷ (
      "highlight",
      "search result highlighting is not currently supported; returned hits would omit the requested snippets",
    )
    ∷ []

-- The loop over two flags and the two tests that follow it are alike, and are one loop here.
unfoldable pub validate_search_execution_controls : Value → Result (Unit {0})
validate_search_execution_controls body = do
  check_script_fields (get "script_fields" body)
  check_docvalue_fields (get "docvalue_fields" body)
  for_each (check_flag body) flags
  for_each (check_absent body) controls
