-- ===== src/Search/Order/Tests.antt =====
-- Hits and numbers compared on concrete values.
use qdrant_es_gateway.Prelude.{
  ◌≡◌, ◌+◌, ◌*◌, ◌^◌, refl, true, false, String, [], ◌∷◌, if◌then◌else◌, arith,
}
use Prim.Native.Nat.{Ordering}
use qdrant_es_gateway.Json.{Value, string, number, pos_int, float, object, end, field, lookup}
use qdrant_es_gateway.Json.Float.{as_f64, to_f64, scale}
use qdrant_es_gateway.Search.Window.{Sorts, show_u64}
use qdrant_es_gateway.Search.Order.{
  integer, integer_float, other_cmp, value_cmp, hit_sort_value, sort_values, compare_sorted_hits,
  hit_is_after,
}
use qdrant_es_gateway.Search.Order.Sign.{cmp}
use qdrant_es_gateway.Search.Order.Numbers.{exact, value_cmp-exact}
use qdrant_es_gateway.Search.Order.Cursor.{compare_sorted_hits-hit_is_after}

abbrev printed : Value → String
printed v = "?"

-- 2^53 + 1 against the float 2^53.
rounding :
    value_cmp printed (number (pos_int (2 ^ 53 + 1))) (number (float false (2 ^ 53 * scale)))
    ≡ Ordering.gt
unfolding value_cmp integer integer_float cmp as_f64 to_f64 scale
rounding = refl

value_cmp-exact_example :
    value_cmp printed (number (pos_int (2 ^ 53 + 1))) (number (float true (2 ^ 53 * scale)))
    ≡ cmp (exact (pos_int (2 ^ 53 + 1))) (exact (float true (2 ^ 53 * scale)))
value_cmp-exact_example =
    value_cmp-exact printed (pos_int (2 ^ 53 + 1)) (float true (2 ^ 53 * scale)) (omega arith) tt

abbrev cheap : Value
cheap = object (field "_id" (string "a") (field "_score" (number (pos_int 3)) end))

abbrev dear : Value
dear = object (field "_id" (string "b") (field "_score" (number (pos_int 3)) end))

abbrev sorts : Sorts
sorts = ("_score", "desc") ∷ ("_id", "asc") ∷ []

ordered : compare_sorted_hits printed cheap dear sorts ≡ Ordering.lt
unfolding compare_sorted_hits value_cmp integer other_cmp as_f64 hit_sort_value lookup cmp
ordered = refl

compare_sorted_hits-hit_is_after_example : compare_sorted_hits printed cheap dear sorts ≡ (
    if hit_is_after printed cheap (sort_values dear sorts) sorts
    then Ordering.gt
    else if hit_is_after printed dear (sort_values cheap sorts) sorts
    then Ordering.lt
    else value_cmp printed (hit_sort_value cheap "_id") (hit_sort_value dear "_id"))
compare_sorted_hits-hit_is_after_example = compare_sorted_hits-hit_is_after printed cheap dear sorts

-- Numbers and texts in one field have no order: the number 9 is below 10, 10 equals its text, the
-- text "10" is below the text "9", and that equals 9.
abbrev shown : Value → String
shown (number (pos_int n)) = show_u64 n
shown v = "?"

cyclic :
    (value_cmp shown (number (pos_int 9)) (number (pos_int 10)) ≡ Ordering.lt)
    × (value_cmp shown (number (pos_int 10)) (string "10") ≡ Ordering.eq)
    × (value_cmp shown (string "10") (string "9") ≡ Ordering.lt)
    × (value_cmp shown (string "9") (number (pos_int 9)) ≡ Ordering.eq)
unfolding value_cmp integer other_cmp as_f64 cmp show_u64
cyclic = (refl, refl, refl, refl)
