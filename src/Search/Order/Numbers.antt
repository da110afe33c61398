-- ===== src/Search/Order/Numbers.antt =====
-- Numbers are compared without rounding, whatever their representations.
use qdrant_es_gateway.Prelude.{
  ℕ, ◌+◌, ◌-◌, ◌*◌, ◌/◌, ◌%◌, ◌^◌, ◌<◌, ◌≡◌, refl, sym, min, String, Bool, true, false, arith,
}
use Prim.Native.Nat.{compare}
use qdrant_es_gateway.Json.{Number, pos_int, neg_int, float, Value, number}
use qdrant_es_gateway.Json.Float.{to_f64, as_f64, scale}
use qdrant_es_gateway.Search.Order.{integer, integer_float, other_cmp, value_cmp}
use qdrant_es_gateway.Search.Order.Sign.{
  Signed, cmp, then_with, cmp-reverse, cmp-scaled, apart-quotient, compare-min, compare-quotient,
}

-- The value of a number, in units of 2^-1074.
abbrev pub exact : Number → Signed
exact (pos_int n) = (false, n * scale)
exact (neg_int n) = (true, (n + 1) * scale)
exact (float s m) = (s, m)

-- The integers of a JSON text have 64 bits.
abbrev pub InRange : Number → Type 0
InRange (pos_int n) = n < 2 ^ 64
InRange (neg_int n) = n < 2 ^ 63
InRange (float s m) = Unit {0}

scale_pos : 0 < scale
unfolding scale
scale_pos = omega arith

whole : (c m : ℕ) → (m / c) * c + m % c ≡ m
whole c m = grind arith

cut-quotient :
    (c n m bound : ℕ)
    → 0 < c
    → n < bound
    → compare (n * c) m ≡ then_with (compare n (min (m / c) bound)) (compare 0 (m % c))
cut-quotient c n m bound pos h = rw (compare-min n (m / c) bound h) split
  where
    split : compare (n * c) m ≡ then_with (compare n (m / c)) (compare 0 (m % c))
    split = rw (whole c m) at (compare-quotient c n (m / c) (m % c) (omega arith))

integer_float_exact :
    (negative : Bool) (n : ℕ) (s : Bool) (m : ℕ)
    → n < 2 ^ 65
    → integer_float (negative, n) (record { negative = s; magnitude = m })
      ≡ cmp (negative, n * scale) (s, m)
unfolding integer_float cmp
integer_float_exact false n false m h =
    ground (arith, cut-quotient scale n m (2 ^ 127 - 1) scale_pos)
integer_float_exact true n true m h = ground (arith, cut-quotient scale n m (2 ^ 127) scale_pos)
integer_float_exact true n false m h = sym (
    rw (whole scale m) at
      (apart-quotient scale n (m / scale) (m % scale) (2 ^ 127 - 1) scale_pos (omega arith)).0)
integer_float_exact false n true m h = sym (
    rw (whole scale m) at
      (apart-quotient scale n (m / scale) (m % scale) (2 ^ 127) scale_pos (omega arith)).1)

-- Numbers of JSON are compared by their exact values: integers of up to 64 bits and floats are
-- never rounded.
pub value_cmp-exact :
    (to_string : Value → String) (a b : Number)
    → InRange a
    → InRange b
    → value_cmp to_string (number a) (number b) ≡ cmp (exact a) (exact b)
unfolding value_cmp integer as_f64 to_f64 other_cmp
value_cmp-exact to_string (pos_int m) (pos_int n) h k = sym (cmp-scaled scale _ _ _ _ scale_pos)
value_cmp-exact to_string (pos_int m) (neg_int n) h k = sym (cmp-scaled scale _ _ _ _ scale_pos)
value_cmp-exact to_string (pos_int m) (float s n) h k =
    integer_float_exact false m s n (omega arith)
value_cmp-exact to_string (neg_int m) (pos_int n) h k = sym (cmp-scaled scale _ _ _ _ scale_pos)
value_cmp-exact to_string (neg_int m) (neg_int n) h k = sym (cmp-scaled scale _ _ _ _ scale_pos)
value_cmp-exact to_string (neg_int m) (float s n) h k =
    integer_float_exact true (m + 1) s n (omega arith)
value_cmp-exact to_string (float s m) (pos_int n) h k =
    rw (integer_float_exact false n s m (omega arith)) (sym (cmp-reverse (false, n * scale) (s, m)))
value_cmp-exact to_string (float s m) (neg_int n) h k =
    rw (integer_float_exact true (n + 1) s m (omega arith))
      (sym (cmp-reverse (true, (n + 1) * scale) (s, m)))
value_cmp-exact to_string (float s m) (float t n) h k = refl
