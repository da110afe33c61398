-- ===== src/Search/Window/Laws.antt =====
-- The page and the cursor that a search is served with.
use qdrant_es_gateway.Prelude.{
  ℕ, ◌+◌, ◌≤◌, ◌<◌, ◌≡◌, ◌↔◌, ap, ◌∙◌, String, false, ◌||◌, List, [], ◌∷◌, Option, none, some, min,
  arith, length, any, ltb, Option-cases, inl, inr,
}
use qdrant_es_gateway.Errors.{Result, ok, bad, ◌>>=◌, ◌>>◌, refuse, ok_or, >>=-eq-ok, ok_or-eq-ok}
use qdrant_es_gateway.Parse.{concat}
use qdrant_es_gateway.Json.{Value, get, as_u64, as_array, is_array, is_object}
use qdrant_es_gateway.Search.Window.{
  non_negative_integer, parse_search_window, validate_search_after, Sorts, checked_add, too_large,
  show_u64, check_cursor,
}

-- What the parameter states, or its default.
abbrev pub stated_or : ℕ → Option Value → Option ℕ
stated_or default none = some default
stated_or default (some value) = as_u64 value

non_negative_integer_iff :
    (body : Value) (field : String) (default n : ℕ)
    → (non_negative_integer body field default ≡ ok n)
      ↔ (stated_or default (get field body) ≡ some n)
unfolding non_negative_integer
non_negative_integer_iff body field default n = elim (Option-cases (get field body)) [
  | inl e ↦ (λ h. ground arith, λ h. ground arith)
  | inr (value, e) ↦ elim (Option-cases (as_u64 value)) [
    | inl e' ↦ (λ h. ground arith, λ h. ground arith)
    | inr (m, e') ↦ (λ h. ground arith, λ h. ground arith)
  ]
]

-- A page is served exactly if `from` and `size`, with their defaults, are non-negative integers, the
-- size is within the configured cap and the page ends by the ten thousandth hit.
pub parse_search_window_lem :
    (body : Value) (max_page_size from size : ℕ)
    → (parse_search_window body max_page_size ≡ ok (from, size)) ↔ (
        (stated_or 0 (get "from" body) ≡ some from)
        × (stated_or (min 10 max_page_size) (get "size" body) ≡ some size)
        × (size ≤ max_page_size)
        × (from + size ≤ 10000))
unfolding parse_search_window non_negative_integer
parse_search_window_lem body max_page_size from size = (served, accepted)
  where
    limits : ℕ → ℕ → Result (ℕ × ℕ)
    limits f s = do
      refuse (ltb max_page_size s) (
          bad "size"
            (concat "size is capped at " (concat (show_u64 max_page_size) " by MAX_PAGE_SIZE")))
      refuse (too_large (checked_add f s))
          (bad "from" "from + size is capped at 10000; use search_after for later pages")
      ok (f, s)

    within :
        (f s : ℕ)
        → limits f s ≡ ok (from, size)
        → (f ≡ from) × (s ≡ size) × (size ≤ max_page_size) × (from + size ≤ 10000)
    within f s h = ground arith

    served :
        parse_search_window body max_page_size ≡ ok (from, size)
        → (stated_or 0 (get "from" body) ≡ some from)
          × (stated_or (min 10 max_page_size) (get "size" body) ≡ some size)
          × (size ≤ max_page_size)
          × (from + size ≤ 10000)
    served h =
        let (f, from_e, rest) = >>=-eq-ok (non_negative_integer body "from" 0) _ h in
        let (s, size_e, limits_e) =
          >>=-eq-ok (non_negative_integer body "size" (min 10 max_page_size)) (limits f) rest in
        let (same_f, same_s, a, b) = within f s limits_e in
        (
          (non_negative_integer_iff body "from" 0 from).0 (from_e ∙ ap ok same_f),
          (non_negative_integer_iff body "size" (min 10 max_page_size) size).0
              (size_e ∙ ap ok same_s),
          a,
          b,
        )

    accepted :
        (stated_or 0 (get "from" body) ≡ some from)
          × (stated_or (min 10 max_page_size) (get "size" body) ≡ some size)
          × (size ≤ max_page_size)
          × (from + size ≤ 10000)
        → parse_search_window body max_page_size ≡ ok (from, size)
    accepted (from_e, size_e, a, b) =
        rw
          (
            (non_negative_integer_iff body "from" 0 from).1 from_e,
            (non_negative_integer_iff body "size" (min 10 max_page_size) size).1 size_e,
          )
          (ground arith)

check_cursor-ok :
    (cursor : List Value) (sort_specs : Sorts) (from : ℕ)
    → check_cursor cursor sort_specs from ≡ ok tt
    → (length cursor ≡ length sort_specs)
      × (0 < length sort_specs)
      × (from ≡ 0)
      × (any (λ v. is_array v || is_object v) cursor ≡ false)
unfolding check_cursor
check_cursor-ok cursor [] from h = cc
check_cursor-ok cursor (spec ∷ specs) from h = ground arith

-- A request with a cursor is served only if the cursor has one scalar for each of one or more sort
-- fields, and the page starts at the first hit.
pub validate_search_after_lem :
    (body value : Value) (sort_specs : Sorts) (from : ℕ)
    → get "search_after" body ≡ some value
    → validate_search_after body sort_specs from ≡ ok tt
    → (cursor : List Value) × (as_array value ≡ some cursor)
      × (length cursor ≡ length sort_specs)
      × (0 < length sort_specs)
      × (from ≡ 0)
      × (any (λ v. is_array v || is_object v) cursor ≡ false)
unfolding validate_search_after
validate_search_after_lem body value sort_specs from e h =
    let accepted : (ok_or (as_array value)
            (bad "search_after" "search_after must be an array of sort values")
          >>= λ cursor. check_cursor cursor sort_specs from)
        ≡ ok tt =
      ground arith in
    let (cursor, cursor_e, checks) = >>=-eq-ok (ok_or (as_array value) _) _ accepted in
    let (lengths, positive, first, scalars) = check_cursor-ok cursor sort_specs from checks in
    (cursor, ok_or-eq-ok (as_array value) _ cursor_e, lengths, positive, first, scalars)
