-- ===== src/Search/Window.antt =====
-- `parse_search_window` and `validate_search_after`.
pub mod Laws
pub mod Show
use qdrant_es_gateway.Prelude.{
  ℕ, zero, suc, ◌+◌, ◌/◌, ◌%◌, ◌≡◌, String, Bool, true, false, not, ◌&&◌, ◌||◌, List, [], ◌∷◌,
  Option, none, some, min, if◌then◌else◌, ltb, eqb, length, any, is_empty,
}
use qdrant_es_gateway.Errors.{Result, ok, err, bad, ◌>>=◌, ◌>>◌, refuse, ok_or}
use qdrant_es_gateway.Parse.{concat, u64_limit}
use qdrant_es_gateway.Json.{Value, get, as_u64, as_array, is_array, is_object}

digit : ℕ → String
digit n =
    if eqb n 0
    then "0"
    else if eqb n 1
    then "1"
    else if eqb n 2
    then "2"
    else if eqb n 3
    then "3"
    else if eqb n 4
    then "4"
    else if eqb n 5
    then "5"
    else if eqb n 6
    then "6"
    else if eqb n 7
    then "7"
    else if eqb n 8
    then "8"
    else "9"

digits : ℕ → ℕ → String
digits zero n = ""
digits (suc fuel) n =
    let more = concat (digits fuel (n / 10)) (digit (n % 10)) in if ltb n 10 then digit n else more

-- The decimal text of a 64-bit number: 20 digits are enough.
unfoldable pub show_u64 : ℕ → String
unfolding digits digit
show_u64 n = digits 20 n

unfoldable pub non_negative_integer : Value → String → ℕ → Result ℕ
non_negative_integer body field default = elim (get field body) [
  | none ↦ ok default
  | some value ↦ ok_or (as_u64 value) (bad field (concat field " must be a non-negative integer"))
]

-- `checked_add` of two 64-bit numbers.
abbrev pub checked_add : ℕ → ℕ → Option ℕ
checked_add a b = if ltb (a + b) u64_limit then some (a + b) else none

abbrev too_large : Option ℕ → Bool
too_large none = true
too_large (some window) = ltb 10000 window

unfoldable pub parse_search_window : Value → ℕ → Result (ℕ × ℕ)
parse_search_window body max_page_size = do
  from ← non_negative_integer body "from" 0
  size ← non_negative_integer body "size" (min 10 max_page_size)
  refuse (ltb max_page_size size) (
      bad "size"
        (concat "size is capped at " (concat (show_u64 max_page_size) " by MAX_PAGE_SIZE")))
  refuse (too_large (checked_add from size))
      (bad "from" "from + size is capped at 10000; use search_after for later pages")
  ok (from, size)

abbrev pub Sorts : Type 0
Sorts = List (String × String)

check_cursor : List Value → Sorts → ℕ → Result (Unit {0})
check_cursor cursor sort_specs from = do
  refuse (is_empty sort_specs || not (eqb (length cursor) (length sort_specs)))
      (bad "search_after" "search_after must contain one value for every sort field")
  refuse (not (eqb from 0))
      (bad "search_after" "search_after cannot be combined with a non-zero from offset")
  refuse (any (λ value. is_array value || is_object value) cursor)
      (bad "search_after" "search_after values must be strings, numbers, booleans, or null")

unfoldable pub validate_search_after : Value → Sorts → ℕ → Result (Unit {0})
unfolding check_cursor
validate_search_after body sort_specs from = elim (get "search_after" body) [
  | none ↦ ok tt
  | some value ↦
      ok_or (as_array value) (bad "search_after" "search_after must be an array of sort values")
      >>= λ cursor. check_cursor cursor sort_specs from
]
