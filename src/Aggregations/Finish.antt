-- ===== src/Aggregations/Finish.antt =====
-- The answer of an aggregation: `Reduction::finish` of src/aggregations.rs.
use qdrant_es_gateway.Prelude.{
  ℕ, suc, zero, ◌+◌, String, Bool, true, false, List, [], ◌∷◌, map, Option, none, some,
  if◌then◌else◌, drop,
}
use Prim.Native.Nat.{Ordering, compare}
use qdrant_es_gateway.Json.{
  Value, null, number, pos_int, neg_int, float, string, array, object, end, field, items, fields,
  as_bool,
}
use qdrant_es_gateway.Json.Float.{Float}
use qdrant_es_gateway.Search.Order.{value_cmp}
use qdrant_es_gateway.Search.Order.Sign.{Signed, then_with}
use qdrant_es_gateway.Aggregations.{Reduction, metric, matching, filters, terms, histogram}

abbrev pub take {ℓ} : {A : Type ℓ} → ℕ → List A → List A
take zero xs = []
take (suc n) [] = []
take (suc n) (x ∷ xs) = x ∷ take n xs

abbrev whole : ℕ → Value
whole n = number (pos_int n)

abbrev i64_value : Signed → Value
i64_value (negative, zero) = number (pos_int 0)
i64_value (true, suc n) = number (neg_int n)
i64_value (false, suc n) = number (pos_int (suc n))

abbrev float_or_null : Option Float → Value
float_or_null none = null
float_or_null (some f) = number (float f.negative f.magnitude)

abbrev pub Buckets : Type 0
Buckets = List (Value × ℕ)

abbrev keyed : Option Bool → Value → ℕ → Value
keyed none key n = object (field "doc_count" (whole n) (field "key" key end))
keyed (some b) key n = object (
    field "doc_count" (whole n) (
      field "key" (whole (if b then 1 else 0))
        (field "key_as_string" (string (if b then "true" else "false")) end)))

unfoldable pub total : Buckets → ℕ
total [] = 0
total ((key, n) ∷ buckets) = n + total buckets

abbrev pub buckets_of : List (String × Value × ℕ) → Buckets
buckets_of counts = map (λ (entry : String × Value × ℕ). (entry.1, entry.2)) counts

abbrev terms_answer : Buckets → ℕ → Value
terms_answer shown others = object (
    field "buckets" (array (items (map (λ (b : Value × ℕ). keyed (as_bool b.0) b.0 b.1) shown))) (
      field "doc_count_error_upper_bound" (whole 0)
        (field "sum_other_doc_count" (whole others) end)))

module _ (to_string : Value → String) where
  -- `b.1.cmp(&a.1).then_with(|| value_cmp(&a.0, &b.0))`
  abbrev pub bucket_cmp : Value × ℕ → Value × ℕ → Ordering
  bucket_cmp (a, m) (b, n) = then_with (compare n m) (value_cmp to_string a b)

-- `sort_by` stands for `slice::sort_by`, which may panic where the comparison is no total order.
module _ (to_string : Value → String)
    (sort_by : (Value × ℕ → Value × ℕ → Ordering) → Buckets → Option Buckets) where
  -- The buckets that are shown, and the documents of the others; `none` is a panic of the sort.
  unfoldable pub terms_buckets : ℕ → List (String × Value × ℕ) → Option (Buckets × ℕ)
  terms_buckets size counts = elim (sort_by (bucket_cmp to_string) (buckets_of counts)) [
    | none ↦ none
    | some buckets ↦ some (take size buckets, total (drop size buckets))
  ]

  module _ {Zone : Type 0} (show_instant : Signed → Zone → String) where
    unfoldable pub finish : Reduction Zone → Option Value
    finish (metric name minimum value) = some (object (field "value" (float_or_null value) end))
    finish (matching query n) = some (object (field "doc_count" (whole n) end))
    finish (filters counts) = some (
        object (
          field "buckets"
            (object (
              fields (
                map
                  (λ (entry : String × Value × ℕ).
                    (entry.0, object (field "doc_count" (whole entry.2) end)))
                  counts)))
            end))
    finish (terms name size counts) = elim (terms_buckets size counts) [
      | none ↦ none
      | some (shown, others) ↦ some (terms_answer shown others)
    ]
    finish (histogram name interval timezone counts) = some (
        object (
          field "buckets"
            (array (
              items (
                map
                  (λ (entry : Signed × Value × ℕ). object (
                    field "doc_count" (whole entry.2) (
                      field "key" (i64_value entry.0)
                        (field "key_as_string" (string (show_instant entry.0 timezone)) end))))
                  counts)))
            end))
