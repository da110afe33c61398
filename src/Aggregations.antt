-- ===== src/Aggregations.antt =====
-- Streaming reductions over all matching documents: `Reduction::observe`, `terms_key`, `values` and
-- `Reduction::finish` of src/aggregations.rs. `to_string` prints a JSON value, `show_float` a float;
-- `bucket_key` and `show_instant` stand for chrono, which reads and prints instants, as `i64`
-- milliseconds, in a time zone. A histogram has the counts of the others, with the value that first
-- had the key, which is not read. The keys of a document are read before they are counted: a refusal
-- ends the whole reduction.
pub mod Counts
pub mod Finish
pub mod Sort
pub mod Buckets
pub mod Laws
pub mod Plan
mod Insertion
mod Tests
use qdrant_es_gateway.Prelude.{
  ℕ, suc, zero, ◌+◌, ◌*◌, ◌/◌, ◌%◌, ◌^◌, String, Bool, true, false, not, ◌&&◌, ◌||◌, List, [], ◌∷◌,
  map, Option, none, some, if◌then◌else◌, ltb, leb, eqb, length, filter, codes, lex, ◌==◌,
}
use Prim.Native.Nat.{Ordering, compare}
use qdrant_es_gateway.Errors.{GatewayError, Result, ok, bad, ◌>>=◌, ◌>>◌, refuse, ok_or}
use qdrant_es_gateway.Parse.{concat}
use qdrant_es_gateway.Json.{
  Number, pos_int, neg_int, float, Value, null, bool, number, string, array, object, Fields, end,
  field, items, Map, fields, elems, is_null, is_less,
}
use qdrant_es_gateway.Json.Float.{Float, as_f64, f64_lt, scale}
use qdrant_es_gateway.Query.Fields.{source_field}
use qdrant_es_gateway.Query.Match.{source_matches_query}
use qdrant_es_gateway.Search.Window.{show_u64}
use qdrant_es_gateway.Search.Order.{value_cmp}
use qdrant_es_gateway.Search.Order.Sign.{Signed, cmp, then_with}
use qdrant_es_gateway.Aggregations.Counts.{bump, bump_all, text_cmp}

abbrev pub max_buckets : ℕ
max_buckets = 10000

pub data Reduction (Zone : Type 0) : Type 0 where
  metric : (field : String) (minimum : Bool) (value : Option Float) → Reduction Zone
  matching : (query : Value) (count : ℕ) → Reduction Zone
  filters : List (String × Value × ℕ) → Reduction Zone
  terms : (field : String) (size : ℕ) (counts : List (String × Value × ℕ)) → Reduction Zone
  histogram :
      (field interval : String) (timezone : Zone) (counts : List (Signed × Value × ℕ))
      → Reduction Zone

abbrev pub values : Option Value → List Value
values none = []
values (some v) = elim v [ array xs ↦ elems xs | other ↦ other ∷ [] ]

-- The values of a field that are not null.
unfoldable pub field_values : Value → String → List Value
field_values source name = filter (λ v. not (is_null v)) (values (source_field source name))

abbrev pub signed_text : Signed → String
signed_text (negative, n) = if negative && ltb 0 n then concat "-" (show_u64 n) else show_u64 n

-- The integer that an integral float is, below 2^63 or, if it is not negative, below 2^64.
unfoldable pub float_integer : Bool → ℕ → Option Signed
float_integer negative magnitude =
    let n = magnitude / scale in
    if eqb (magnitude % scale) 0 && (if negative then leb n (2 ^ 63) else ltb n (2 ^ 64))
    then some (negative, n)
    else none

module _ (to_string : Value → String) (show_float : Bool → ℕ → String) where
  abbrev number_text : Number → String
  number_text (pos_int n) = show_u64 n
  number_text (neg_int n) = concat "-" (show_u64 (n + 1))
  number_text (float s m) = elim (float_integer s m) [
    | none ↦ show_float s m
    | some i ↦ signed_text i
  ]

  unfoldable pub terms_key : Value → String
  terms_key (number n) = concat "number:" (number_text n)
  terms_key v = to_string v

abbrev pub is_scalar : Value → Bool
is_scalar null = false
is_scalar (array xs) = false
is_scalar (object fs) = false
is_scalar v = true

abbrev best : Bool → Option Float → Float → Float
best minimum none candidate = candidate
best minimum (some previous) candidate =
    if (if minimum then f64_lt candidate previous else f64_lt previous candidate)
    then candidate
    else previous

-- The loop over the values of a metric.
unfoldable pub observe_metric : Bool → Option Float → List Value → Result (Option Float)
observe_metric minimum value [] = ok value
observe_metric minimum value (v ∷ vs) = do
  candidate ← ok_or (as_f64 v) (bad "aggs" "numeric metric field contains a nonnumeric value")
  observe_metric minimum (some (best minimum value candidate)) vs

abbrev pub count_match : Value → Value → ℕ → ℕ
count_match source query count = if source_matches_query source query then count + 1 else count

abbrev pub count_filters : Value → List (String × Value × ℕ) → List (String × Value × ℕ)
count_filters source [] = []
count_filters source ((name, query, count) ∷ rest) =
    (name, query, count_match source query count) ∷ count_filters source rest

abbrev pub too_many : GatewayError
too_many = bad "aggs" "aggregation exceeds 10000 distinct buckets; narrow the query"

module _ {Zone : Type 0} (to_string : Value → String) (show_float : Bool → ℕ → String)
    (bucket_key : Value → String → Zone → Result Signed) where
  -- The keys of one document, each with the value that gives it.
  unfoldable pub term_keys : List Value → Result (List (String × Value))
  term_keys [] = ok []
  term_keys (v ∷ vs) = do
    refuse (not (is_scalar v)) (bad "aggs" "terms field must contain scalar values")
    rest ← term_keys vs
    ok ((terms_key to_string show_float v, v) ∷ rest)

  unfoldable pub instant_keys : String → Zone → List Value → Result (List (Signed × Value))
  instant_keys interval timezone [] = ok []
  instant_keys interval timezone (v ∷ vs) = do
    key ← bucket_key v interval timezone
    rest ← instant_keys interval timezone vs
    ok ((key, v) ∷ rest)

  unfoldable pub observe_terms :
      String → Value → List (String × Value × ℕ) → Result (List (String × Value × ℕ))
  observe_terms name source counts = do
    keys ← term_keys (field_values source name)
    refuse (ltb max_buckets (length (bump_all text_cmp keys counts))) too_many
    ok (bump_all text_cmp keys counts)

  unfoldable pub observe_histogram :
      String
      → String
      → Zone
      → Value
      → List (Signed × Value × ℕ)
      → Result (List (Signed × Value × ℕ))
  observe_histogram name interval timezone source counts = do
    keys ← instant_keys interval timezone (field_values source name)
    refuse (ltb max_buckets (length (bump_all cmp keys counts))) too_many
    ok (bump_all cmp keys counts)

  unfoldable pub observe : Value → Reduction Zone → Result (Reduction Zone)
  observe source (metric name minimum value) = do
    value' ← observe_metric minimum value (field_values source name)
    ok (metric name minimum value')
  observe source (matching query count) = ok (matching query (count_match source query count))
  observe source (filters counts) = ok (filters (count_filters source counts))
  observe source (terms name size counts) = do
    counts' ← observe_terms name source counts
    ok (terms name size counts')
  observe source (histogram name interval timezone counts) = do
    counts' ← observe_histogram name interval timezone source counts
    ok (histogram name interval timezone counts')

  -- All documents of a search, one after another.
  unfoldable pub observe_all : List Value → Reduction Zone → Result (Reduction Zone)
  observe_all [] reduction = ok reduction
  observe_all (source ∷ sources) reduction = do
    next ← observe source reduction
    observe_all sources next
