-- ===== src/Json/Equality.antt =====
-- `PartialEq` of JSON values: integers equal integers and floats equal floats, and the two zeros of
-- the floats are equal.
use qdrant_es_gateway.Prelude.{
  ◌≡◌, refl, Bool, true, false, not, ◌&&◌, ◌||◌, ◌==◌, eqb, arith, eqb_refl,
}
use text.Mathlib.TextPositions.{eq_refl}
use qdrant_es_gateway.Json.{
  Number, pos_int, neg_int, float, Value, null, bool, number, string, array, object, Items, nil,
  cons, Fields, end, field,
}

abbrev pub bool_eq : Bool → Bool → Bool
bool_eq true b = b
bool_eq false b = not b

unfoldable pub number_eq : Number → Number → Bool
number_eq (pos_int a) (pos_int b) = eqb a b
number_eq (neg_int a) (neg_int b) = eqb a b
number_eq (float s a) (float t b) = eqb a b && (bool_eq s t || eqb a 0)
number_eq _ _ = false

unfoldable mutual
  pub value_eq : Value → Value → Bool
  value_eq null null = true
  value_eq (bool a) (bool b) = bool_eq a b
  value_eq (number a) (number b) = number_eq a b
  value_eq (string a) (string b) = a == b
  value_eq (array a) (array b) = items_eq a b
  value_eq (object a) (object b) = fields_eq a b
  value_eq _ _ = false

  pub items_eq : Items → Items → Bool
  items_eq nil nil = true
  items_eq (cons a as_) (cons b bs) = value_eq a b && items_eq as_ bs
  items_eq _ _ = false

  pub fields_eq : Fields → Fields → Bool
  fields_eq end end = true
  fields_eq (field j a as_) (field k b bs) = (j == k) && value_eq a b && fields_eq as_ bs
  fields_eq _ _ = false

pub number_eq_refl : (n : Number) → number_eq n n ≡ true
unfolding number_eq
number_eq_refl (pos_int a) = eqb_refl a
number_eq_refl (neg_int a) = eqb_refl a
number_eq_refl (float true a) = ground arith
number_eq_refl (float false a) = ground arith

mutual
  unfolding value_eq

  value_refl : (v : Value) → value_eq v v ≡ true
  value_refl null = refl
  value_refl (bool true) = refl
  value_refl (bool false) = refl
  value_refl (number n) = number_eq_refl n
  value_refl (string s) = eq_refl s
  value_refl (array xs) = items_refl xs
  value_refl (object fs) = fields_refl fs

  items_refl : (xs : Items) → items_eq xs xs ≡ true
  items_refl nil = refl
  items_refl (cons x xs) = rw (value_refl x) (items_refl xs)

  fields_refl : (fs : Fields) → fields_eq fs fs ≡ true
  fields_refl end = refl
  fields_refl (field k v fs) = rw (eq_refl k, value_refl v) (fields_refl fs)

pub value_eq_refl : (v : Value) → value_eq v v ≡ true
value_eq_refl v = value_refl v
