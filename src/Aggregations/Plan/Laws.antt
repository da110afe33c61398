-- ===== src/Aggregations/Plan/Laws.antt =====
-- What an accepted plan of aggregations starts from.
use qdrant_es_gateway.Prelude.{
  ℕ, ◌≤◌, ◌≡◌, refl, String, Bool, true, false, not, List, [], ◌∷◌, length, Option, none, some,
  if◌then◌else◌, ltb, any, All, ◌==◌, arith,
}
use qdrant_es_gateway.Errors.{Result, ok, err, ok_or, >>=-eq-ok, refuse-eq-ok, ok_or-eq-ok}
use qdrant_es_gateway.Parse.{concat}
use qdrant_es_gateway.Json.{Value, Map, get, as_object}
use qdrant_es_gateway.Query.PostFilter.{validate_post_filter}
use qdrant_es_gateway.Aggregations.{
  Reduction, metric, matching, filters, terms, histogram, max_buckets,
}
use qdrant_es_gateway.Aggregations.Plan.{
  refusal, keyed_filters, zone_name, is_one, u64_option, parse_single, only_options, field_option,
  text_option, filter_counts, terms_size, calendar_interval, parse_metric, parse_filter,
  parse_filters, parse_terms, parse_histogram, parse_reducer, parse_specs, parse,
}

-- The query of a filter is valid, and nothing is counted.
abbrev pub IsFreshFilter : String × Value × ℕ → Type 0
IsFreshFilter (name, query, n) = (validate_post_filter query ≡ ok tt) × (n ≡ 0)

abbrev pub IsInterval : String → Type 0
IsInterval interval = any (λ i. i == interval) ("day" ∷ "week" ∷ "month" ∷ "year" ∷ []) ≡ true

abbrev pub IsFresh : {Zone : Type 0} → Reduction Zone → Type 0
IsFresh (metric name minimum value) = value ≡ none
IsFresh (matching query n) = (validate_post_filter query ≡ ok tt) × (n ≡ 0)
IsFresh (filters counts) = (length counts ≤ 10000) × All IsFreshFilter counts
IsFresh (terms name size counts) = (1 ≤ size) × (size ≤ 1000) × (counts ≡ [])
IsFresh (histogram name interval timezone counts) = IsInterval interval × (counts ≡ [])

some_inj {ℓ} : {A : Type ℓ} {a b : A} → some a ≡ some b → a ≡ b
some_inj h = ground arith

ok_inj {ℓ} : {A : Type ℓ} {a b : A} → ok a ≡ ok b → a ≡ b
ok_inj h = ground arith

filter_counts-All :
    (queries : Map) {counts : List (String × Value × ℕ)}
    → filter_counts queries ≡ ok counts
    → (length counts ≡ length queries) × All IsFreshFilter counts
unfolding filter_counts
filter_counts-All [] h = rw (← ok_inj h) (refl, tt)
filter_counts-All ((name, query) ∷ queries) h =
    let (u, valid, h1) = >>=-eq-ok (validate_post_filter query) _ h in
    let (rest, counted, h2) = >>=-eq-ok (filter_counts queries) _ h1 in
    let (same, fresh) = filter_counts-All queries counted in
    rw (← ok_inj h2) (omega (arith, same), ((valid, refl), fresh))

terms_size-bounds : (o : Option Value) {n : ℕ} → terms_size o ≡ ok n → (1 ≤ n) × (n ≤ 1000)
unfolding terms_size
terms_size-bounds none h = (ground arith, ground arith)
terms_size-bounds (some v) h = ground arith

if-IsInterval :
    (b : Bool) (name : String) (other : Option String) (interval : String)
    → IsInterval name
    → (other ≡ some interval → IsInterval interval)
    → (if b then some name else other) ≡ some interval
    → IsInterval interval
if-IsInterval true name other interval p q h = rw (← some_inj h) p
if-IsInterval false name other interval p q h = q h

calendar_interval-IsInterval :
    (name : String) {interval : String}
    → calendar_interval name ≡ some interval
    → IsInterval interval
unfolding calendar_interval
calendar_interval-IsInterval name {interval = i} h =
    if-IsInterval _ "day" _ i refl
      (if-IsInterval _ "week" _ i refl
        (if-IsInterval _ "month" _ i refl (if-IsInterval _ "year" none i refl (λ e. ground arith))))
      h

module _ {Zone : Type 0} (parse_zone : String → Option Zone) where
  parse_metric-IsFresh :
      (minimum : Bool) (options : Value) {r : Reduction Zone}
      → parse_metric parse_zone minimum options ≡ ok r
      → IsFresh r
  unfolding parse_metric
  parse_metric-IsFresh minimum options h =
      let (u, allowed, h1) = >>=-eq-ok (only_options options ("field" ∷ [])) _ h in
      let (name, named, h2) = >>=-eq-ok (field_option options) _ h1 in rw (← ok_inj h2) refl

  parse_filter-IsFresh :
      (options : Value) {r : Reduction Zone} → parse_filter parse_zone options ≡ ok r → IsFresh r
  unfolding parse_filter
  parse_filter-IsFresh options h =
      let (u, valid, h1) = >>=-eq-ok (validate_post_filter options) _ h in
      rw (← ok_inj h1) (valid, refl)

  parse_filters-IsFresh :
      (options : Value) {r : Reduction Zone} → parse_filters parse_zone options ≡ ok r → IsFresh r
  unfolding parse_filters
  parse_filters-IsFresh options h =
      let (u, allowed, h1) = >>=-eq-ok (only_options options ("filters" ∷ [])) _ h in
      let (queries, read, h2) =
        >>=-eq-ok
          (ok_or (keyed_filters (get "filters" options))
            (refusal "filters requires a keyed filters object"))
          _ h1 in
      let (few, h3) =
        refuse-eq-ok (ltb max_buckets (length queries)) (refusal "too many keyed filters") _ h2 in
      let (counts, counted, h4) = >>=-eq-ok (filter_counts queries) _ h3 in
      let (same, fresh) = filter_counts-All queries counted in
      rw (← ok_inj h4) (ground (arith, same), fresh)

  parse_terms-IsFresh :
      (options : Value) {r : Reduction Zone} → parse_terms parse_zone options ≡ ok r → IsFresh r
  unfolding parse_terms
  parse_terms-IsFresh options h =
      let (u, allowed, h1) = >>=-eq-ok (only_options options ("field" ∷ "size" ∷ [])) _ h in
      let (size, sized, h2) = >>=-eq-ok (terms_size (get "size" options)) _ h1 in
      let (name, named, h3) = >>=-eq-ok (field_option options) _ h2 in
      let (low, high) = terms_size-bounds (get "size" options) sized in
      rw (← ok_inj h3) (low, high, refl)

  parse_histogram-IsFresh :
      (options : Value) {r : Reduction Zone} → parse_histogram parse_zone options ≡ ok r → IsFresh r
  unfolding parse_histogram
  parse_histogram-IsFresh options h =
      let (u, allowed, h1) =
        >>=-eq-ok
          (only_options options
            ("field" ∷ "calendar_interval" ∷ "time_zone" ∷ "min_doc_count" ∷ []))
          _ h in
      let (one, h2) =
        refuse-eq-ok (not (is_one (u64_option (get "min_doc_count" options)))) _ _ h1 in
      let (written, w, h3) = >>=-eq-ok (ok_or (text_option "calendar_interval" options) _) _ h2 in
      let (interval, i, h4) = >>=-eq-ok (ok_or (calendar_interval written) _) _ h3 in
      let (zone, z, h5) = >>=-eq-ok (zone_name (get "time_zone" options)) _ h4 in
      let (timezone, t, h6) = >>=-eq-ok (ok_or (parse_zone zone) _) _ h5 in
      let (name, named, h7) = >>=-eq-ok (field_option options) _ h6 in
      rw (← ok_inj h7) (calendar_interval-IsInterval written (ok_or-eq-ok _ _ i), refl)

  if-ok :
      (b : Bool) (x y : Result (Reduction Zone)) {r : Reduction Zone}
      → (x ≡ ok r → IsFresh r)
      → (y ≡ ok r → IsFresh r)
      → (if b then x else y) ≡ ok r
      → IsFresh r
  if-ok true x y p q h = p h
  if-ok false x y p q h = q h

  parse_reducer-IsFresh :
      (kind : String) (options : Value) {r : Reduction Zone}
      → parse_reducer parse_zone kind options ≡ ok r
      → IsFresh r
  unfolding parse_reducer
  parse_reducer-IsFresh kind options h =
      if-ok _ _ _ (parse_metric-IsFresh (kind == "min") options)
        (if-ok _ _ _ (parse_filter-IsFresh options) (
          if-ok _ _ _ (parse_filters-IsFresh options) (
            if-ok _ _ _ (parse_terms-IsFresh options) (
              if-ok _ _ (err (refusal (concat "unsupported aggregation: " kind)))
                (parse_histogram-IsFresh options) (λ e. ground arith)))))
        h

  parse_single-IsFresh :
      (kinds : Map) {r : Reduction Zone} → parse_single parse_zone kinds ≡ ok r → IsFresh r
  parse_single-IsFresh [] h = ground arith
  parse_single-IsFresh ((kind, options) ∷ []) h = parse_reducer-IsFresh kind options h
  parse_single-IsFresh (a ∷ b ∷ rest) h = ground arith

  parse_specs-All :
      (specs : Map) {plan : List (String × Reduction Zone)}
      → parse_specs parse_zone specs ≡ ok plan
      → (length plan ≡ length specs)
        × All (λ (entry : String × Reduction Zone). IsFresh entry.1) plan
  unfolding parse_specs
  parse_specs-All [] h = rw (← ok_inj h) (refl, tt)
  parse_specs-All ((name, spec) ∷ specs) h =
      let (kinds, k, h1) =
        >>=-eq-ok (ok_or (as_object spec) (refusal "aggregation must be an object")) _ h in
      let (reducer, made, h2) = >>=-eq-ok (parse_single parse_zone kinds) _ h1 in
      let (rest, parsed, h3) = >>=-eq-ok (parse_specs parse_zone specs) _ h2 in
      let (same, fresh) = parse_specs-All specs parsed in
      rw (← ok_inj h3) (omega (arith, same), (parse_single-IsFresh kinds made, fresh))

  -- An accepted plan has at most 100 aggregations, and each starts with nothing counted: a metric
  -- without a value, filters whose queries are valid, at most 10000 of them under one name, terms of
  -- a size from 1 to 1000, and a histogram by day, week, month or year.
  pub parse-All :
      (value : Value) {plan : List (String × Reduction Zone)}
      → parse parse_zone (some value) ≡ ok (some plan)
      → (length plan ≤ 100) × All (λ (entry : String × Reduction Zone). IsFresh entry.1) plan
  unfolding parse
  parse-All value h =
      let (specs, object', h1) =
        >>=-eq-ok (ok_or (as_object value) (refusal "aggregations must be an object")) _ h in
      let (few, h2) =
        refuse-eq-ok (ltb 100 (length specs)) (refusal "at most 100 aggregations are supported") _
          h1 in
      let (plan', parsed, h3) = >>=-eq-ok (parse_specs parse_zone specs) _ h2 in
      let (same, fresh) = parse_specs-All specs parsed in
      rw (← some_inj (ok_inj h3)) (ground (arith, same), fresh)
