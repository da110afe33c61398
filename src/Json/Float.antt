-- ===== src/Json/Float.antt =====
-- The numbers of JSON as 64-bit floats (`Value::as_f64`): a sign and a magnitude in units of
-- 2^-1074. An integer beyond 53 bits is rounded to the nearest float, ties to the even one.
use qdrant_es_gateway.Prelude.{
  ℕ, zero, suc, ◌+◌, ◌*◌, ◌/◌, ◌%◌, ◌^◌, Bool, true, false, ◌&&◌, ◌||◌, Option, none, some,
  if◌then◌else◌, ltb, leb, eqb,
}
use qdrant_es_gateway.Json.{Number, pos_int, neg_int, float, Value, number}

pub record Float : Type 0 where
  pub negative : Bool
  pub magnitude : ℕ

-- The units in 1.
unfoldable pub scale : ℕ
scale = 2 ^ 1074

-- How many of the last bits do not fit: at most `fuel`, and 12 suffice for 64 bits.
excess_bits : ℕ → ℕ → ℕ
excess_bits zero n = 0
excess_bits (suc fuel) n =
    let more = suc (excess_bits fuel (n / 2)) in if ltb n (2 ^ 53) then 0 else more

round_at : ℕ → ℕ → ℕ
round_at e n =
    let half = 2 ^ e / 2 in
    let q = n / 2 ^ e in
    let r = n % 2 ^ e in
    if ltb half r || (eqb r half && eqb (q % 2) 1 && ltb 0 e) then (q + 1) * 2 ^ e else q * 2 ^ e

-- `n as f64`, for a 64-bit integer.
unfoldable pub round_integer : ℕ → ℕ
unfolding excess_bits round_at
round_integer n = round_at (excess_bits 12 n) n

unfoldable pub to_f64 : Number → Float
unfolding round_integer scale
to_f64 (pos_int n) = record { negative = false; magnitude = round_integer n * scale }
to_f64 (neg_int n) = record { negative = true; magnitude = round_integer (n + 1) * scale }
to_f64 (float s m) = record { negative = s; magnitude = m }

unfoldable pub as_f64 : Value → Option Float
unfolding to_f64
as_f64 (number n) = some (to_f64 n)
as_f64 _ = none

-- `a < b` and `a <= b` on signs and magnitudes; the two zeros are equal.
abbrev lt_signed : Bool → ℕ → Bool → ℕ → Bool
lt_signed false m false n = ltb m n
lt_signed true m true n = ltb n m
lt_signed true m false n = ltb 0 (m + n)
lt_signed false m true n = false

abbrev le_signed : Bool → ℕ → Bool → ℕ → Bool
le_signed false m false n = leb m n
le_signed true m true n = leb n m
le_signed true m false n = true
le_signed false m true n = eqb (m + n) 0

unfoldable pub f64_lt : Float → Float → Bool
f64_lt a b = lt_signed a.negative a.magnitude b.negative b.magnitude

unfoldable pub f64_le : Float → Float → Bool
f64_le a b = le_signed a.negative a.magnitude b.negative b.magnitude
