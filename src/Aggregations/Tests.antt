-- ===== src/Aggregations/Tests.antt =====
-- A terms aggregation over concrete documents.
use qdrant_es_gateway.Prelude.{
  ℕ, ◌+◌, ◌*◌, ◌≤◌, ◌≡◌, refl, String, Bool, false, List, [], ◌∷◌, length, count, Option, some, All,
  inl, arith,
}
use qdrant_es_gateway.Errors.{Result, ok}
use qdrant_es_gateway.Json.{
  Value, number, pos_int, float, string, array, object, nil, cons, end, field, lookup,
}
use qdrant_es_gateway.Json.Float.{as_f64, scale}
use qdrant_es_gateway.Query.Fields.{source_field}
use qdrant_es_gateway.Search.Window.{show_u64}
use qdrant_es_gateway.Search.Order.{value_cmp, integer, other_cmp}
use qdrant_es_gateway.Search.Order.Sign.{Signed}
use qdrant_es_gateway.Aggregations.{
  Reduction, terms, matching, field_values, float_integer, terms_key, term_keys, observe_terms,
  observe, observe_all,
}
use qdrant_es_gateway.Aggregations.Counts.{bump, bump_new, bump_all}
use qdrant_es_gateway.Aggregations.Finish.{Buckets, buckets_of, terms_buckets, total}
use qdrant_es_gateway.Aggregations.Insertion.{
  insertion, insertion-IsSort, insert_bucket, sort_buckets,
}
use qdrant_es_gateway.Aggregations.Buckets.{IsDescending, terms_buckets-IsDescending}
use qdrant_es_gateway.Aggregations.Plan.{
  parse, parse_specs, parse_reducer, parse_filter, parse_terms, only_options, field_option,
  terms_size,
}
use qdrant_es_gateway.Aggregations.Plan.Laws.{IsFresh, parse-All}
use qdrant_es_gateway.Query.Fields.{compatibility_field}
use qdrant_es_gateway.Query.PostFilter.{
  validate_post_filter, validate, validate_clause, validate_kind, validate_exists,
}
use qdrant_es_gateway.Prelude.Fixpoint.{fix}
use qdrant_es_gateway.Aggregations.Laws.{Counts, documents_at, SortedKeys, holds, terms-documents}

abbrev printed : Value → String
printed (string s) = s
printed v = "?"

abbrev float_text : Bool → ℕ → String
float_text negative magnitude = "?"

abbrev no_dates : Value → String → String → Result Signed
no_dates v interval zone = ok (false, 0)

abbrev doc : Value → Value
doc v = object (field "tag" v end)

abbrev sources : List Value
sources =
    doc (array (cons (string "red") (cons (number (pos_int 7)) (cons (string "red") nil))))
    ∷ doc (number (float false (7 * scale)))
    ∷ doc (string "blue")
    ∷ object end
    ∷ []

abbrev counted : Counts
counted =
    ("blue", string "blue", 1) ∷ ("number:7", number (pos_int 7), 2) ∷ ("red", string "red", 1) ∷ []

ran :
    observe_all printed float_text no_dates sources (terms "tag" 2 []) ≡ ok (terms "tag" 2 counted)
unfolding observe_all observe observe_terms term_keys terms_key float_integer field_values
    source_field lookup show_u64 bump bump_new bump_all scale
ran = refl

terms-documents_example :
    (counts : Counts) × (◌≡◌ {A = Reduction String} (terms "tag" 2 counted) (terms "tag" 2 counts))
    × SortedKeys counts
    × (length counts ≤ 10000)
    × ((key : String)
        → documents_at key counts ≡ 0 + count (holds printed float_text no_dates "tag" key) sources)
terms-documents_example =
    terms-documents printed float_text no_dates "tag" 2 sources [] tt (omega arith) ran

abbrev texts : Counts
texts = ("blue", string "blue", 1) ∷ ("green", string "green", 4) ∷ ("red", string "red", 2) ∷ []

terms_buckets-IsDescending_example :
    (shown : Buckets) × (others : ℕ) × (terms_buckets printed insertion 2 texts
      ≡ some (shown, others))
    × IsDescending shown
    × (length shown ≤ 2)
    × (total shown + others ≡ total (buckets_of texts))
terms_buckets-IsDescending_example =
    terms_buckets-IsDescending printed insertion insertion-IsSort 2 texts
      (inl (("blue", refl), (("green", refl), (("red", refl), tt))))

answered_texts :
    terms_buckets printed insertion 2 texts ≡ some ((string "green", 4) ∷ (string "red", 2) ∷ [], 1)
unfolding terms_buckets sort_buckets insert_bucket total value_cmp integer other_cmp as_f64
answered_texts = refl

abbrev requested : Value
requested = object (
    field "cheap"
      (object (
        field "filter" (object (field "exists" (object (field "field" (string "price") end)) end))
          end))
      (field "tags"
        (object (
          field "terms"
            (object (field "field" (string "tag.keyword") (field "size" (number (pos_int 2)) end)))
            end))
        end))

abbrev planned : List (String × Reduction String)
planned =
    (
      "cheap",
      matching (object (field "exists" (object (field "field" (string "price") end)) end)) 0,
    )
    ∷ ("tags", terms "tag" 2 [])
    ∷ []

abbrev any_zone : String → Option String
any_zone name = some name

parsed : parse any_zone (some requested) ≡ ok (some planned)
unfolding parse parse_specs parse_reducer parse_filter parse_terms only_options field_option
    terms_size validate_post_filter lookup compatibility_field validate fix validate_clause
    validate_kind validate_exists
parsed = refl

parse-All_example :
    (length planned ≤ 100) × All (λ (entry : String × Reduction String). IsFresh entry.1) planned
parse-All_example = parse-All any_zone requested parsed
