-- ===== src/Search/Order/Cursor.antt =====
-- The order of two hits and the cursor of `search_after`, for a printer of JSON values.
use qdrant_es_gateway.Prelude.{
  ℕ, ◌≡◌, refl, sym, String, Bool, List, [], ◌∷◌, Option, none, some, if◌then◌else◌, codes, lex,
  arith,
}
use Prim.Native.Nat.{Ordering}
use qdrant_es_gateway.Json.{Value}
use qdrant_es_gateway.Json.Float.{Float, as_f64}
use qdrant_es_gateway.Search.Window.{Sorts}
use qdrant_es_gateway.Search.Order.{
  integer, text_of, floats_or, other_cmp, integers_or, value_cmp, hit_sort_value, sort_values,
  compare_sorted_hits, directed, hit_is_after, beyond,
}
use qdrant_es_gateway.Search.Order.Sign.{Signed, then_with, reverse, cmp-reverse, reverse-reverse}

lex-reverse : (xs ys : List ℕ) → lex ys xs ≡ reverse (lex xs ys)
lex-reverse [] [] = refl
lex-reverse [] (y ∷ ys) = refl
lex-reverse (x ∷ xs) [] = refl
lex-reverse (x ∷ xs) (y ∷ ys) = ground (arith, lex-reverse xs ys)

floats_or-reverse :
    (f g : Option Float) (o : Ordering) → floats_or g f (reverse o) ≡ reverse (floats_or f g o)
floats_or-reverse (some a) (some b) o = cmp-reverse _ _
floats_or-reverse (some a) none o = refl
floats_or-reverse none (some b) o = refl
floats_or-reverse none none o = refl

integers_or-reverse :
    (a b : Option Signed) (f g : Option Float) (o : Ordering)
    → integers_or b a g f (reverse o) ≡ reverse (integers_or a b f g o)
integers_or-reverse (some a) (some b) f g o = cmp-reverse a b
integers_or-reverse (some a) none f (some g) o = refl
integers_or-reverse (some a) none f none o = refl
integers_or-reverse none (some b) (some f) g o = sym (reverse-reverse _)
integers_or-reverse none (some b) none g o = refl
integers_or-reverse none none f g o = refl

step_lem :
    (direction : String) (o : Ordering) (x y : Bool) (rest ids : Ordering)
    → rest ≡ (if x then Ordering.gt else if y then Ordering.lt else ids)
    → then_with (directed direction o) rest ≡ (
        if beyond direction o x
        then Ordering.gt
        else if beyond direction (reverse o) y
        then Ordering.lt
        else ids)
step_lem direction Ordering.eq x y rest ids h = ground (arith, h)
step_lem direction Ordering.lt x y rest ids h = ground (arith, h)
step_lem direction Ordering.gt x y rest ids h = ground (arith, h)

module _ (to_string : Value → String) where
  other_cmp-reverse : (a b : Value) → other_cmp to_string b a ≡ reverse (other_cmp to_string a b)
  unfolding other_cmp
  other_cmp-reverse a b =
      rw (lex-reverse (codes (text_of to_string a)) (codes (text_of to_string b)))
        (floats_or-reverse (as_f64 a) (as_f64 b) _)

  pub value_cmp-reverse :
      (a b : Value) → value_cmp to_string b a ≡ reverse (value_cmp to_string a b)
  unfolding value_cmp
  value_cmp-reverse a b =
      rw (other_cmp-reverse a b) (integers_or-reverse (integer a) (integer b) _ _ _)

  -- Two hits compare by the sort values that they are returned with: a hit past the other's values comes after
  -- it, and the other way round; else the identifiers decide.
  pub compare_sorted_hits-hit_is_after :
      (a b : Value) (sorts : Sorts)
      → compare_sorted_hits to_string a b sorts ≡ (
          if hit_is_after to_string a (sort_values b sorts) sorts
          then Ordering.gt
          else if hit_is_after to_string b (sort_values a sorts) sorts
          then Ordering.lt
          else value_cmp to_string (hit_sort_value a "_id") (hit_sort_value b "_id"))
  unfolding compare_sorted_hits hit_is_after sort_values
  compare_sorted_hits-hit_is_after a b [] = refl
  compare_sorted_hits-hit_is_after a b ((field, direction) ∷ sorts) =
      rw (value_cmp-reverse (hit_sort_value a field) (hit_sort_value b field))
        (step_lem direction _ _ _ _ _ (compare_sorted_hits-hit_is_after a b sorts))
