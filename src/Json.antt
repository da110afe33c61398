-- ===== src/Json.antt =====
-- JSON values as `serde_json::Value` has them: an object is a `Map<String, Value>`, kept in the
-- order of its keys. A finite 64-bit float is a sign and a magnitude in units of 2^-1074, the least
-- positive one, so every finite float has such a form.
pub mod Equality
pub mod Size
pub mod Float
use qdrant_es_gateway.Prelude.{
  ℕ, ◌-◌, ◌<◌, ◌^◌, ◌/◌, ◌*◌, ◌+◌, suc, zero, String, Bool, true, false, Option, none, some, List,
  [], ◌∷◌, ◌==◌, if◌then◌else◌, ltb, leb, codes, lex, is_empty,
}
use Prim.Native.Nat.{Ordering}

-- `neg_int n` is the integer -(n + 1).
pub data Number : Type 0 where
  pos_int neg_int : ℕ → Number
  float : Bool → ℕ → Number

mutual
  pub data Value : Type 0 where
    null : Value
    bool : Bool → Value
    number : Number → Value
    string : String → Value
    array : Items → Value
    object : Fields → Value

  pub data Items : Type 0 where
    nil : Items
    cons : Value → Items → Items

  pub data Fields : Type 0 where
    end : Fields
    field : String → Value → Fields → Fields

abbrev pub Map : Type 0
Map = List (String × Value)

abbrev pub elems : Items → List Value
elems nil = []
elems (cons v vs) = v ∷ elems vs

abbrev pub items : List Value → Items
items [] = nil
items (v ∷ vs) = cons v (items vs)

abbrev pub entries : Fields → Map
entries end = []
entries (field k v fs) = (k, v) ∷ entries fs

abbrev pub fields : Map → Fields
fields [] = end
fields ((k, v) ∷ m) = field k v (fields m)

abbrev pub is_less : Ordering → Bool
is_less Ordering.lt = true
is_less _ = false

module _ {ℓ} {V : Type ℓ} where
  -- `Map::get`, also of a `HashMap`.
  unfoldable pub lookup : String → List (String × V) → Option V
  lookup key [] = none
  lookup key ((k, v) ∷ m) = if k == key then some v else lookup key m

  -- `Map::insert`: the keys stay in order, and a value under the same key is replaced.
  unfoldable pub insert : String → V → List (String × V) → List (String × V)
  insert key v [] = (key, v) ∷ []
  insert key v ((k, w) ∷ m) =
      if k == key
      then (key, v) ∷ m
      else if is_less (lex (codes key) (codes k))
      then (key, v) ∷ (k, w) ∷ m
      else (k, w) ∷ insert key v m

  abbrev pub contains_key : String → List (String × V) → Bool
  contains_key key [] = false
  contains_key key ((k, v) ∷ m) = if k == key then true else contains_key key m

  abbrev pub keys : List (String × V) → List String
  keys [] = []
  keys ((k, v) ∷ m) = k ∷ keys m

abbrev pub as_object : Value → Option Map
as_object (object fs) = some (entries fs)
as_object _ = none

abbrev pub as_array : Value → Option (List Value)
as_array (array xs) = some (elems xs)
as_array _ = none

abbrev pub as_str : Value → Option String
as_str (string s) = some s
as_str _ = none

abbrev pub as_bool : Value → Option Bool
as_bool (bool b) = some b
as_bool _ = none

abbrev pub as_number : Value → Option Number
as_number (number n) = some n
as_number _ = none

abbrev pub number_as_u64 : Number → Option ℕ
number_as_u64 (pos_int n) = some n
number_as_u64 _ = none

abbrev pub as_u64 : Value → Option ℕ
as_u64 (number n) = number_as_u64 n
as_u64 _ = none

abbrev pub is_object : Value → Bool
is_object (object fs) = true
is_object _ = false

abbrev pub is_array : Value → Bool
is_array (array xs) = true
is_array _ = false

abbrev pub is_null : Value → Bool
is_null null = true
is_null _ = false

abbrev pub is_string : Value → Bool
is_string (string s) = true
is_string _ = false

abbrev pub is_number : Value → Bool
is_number (number n) = true
is_number _ = false

abbrev pub is_boolean : Value → Bool
is_boolean (bool b) = true
is_boolean _ = false

-- `Value::get` with a key.
abbrev pub get : String → Value → Option Value
get key (object fs) = lookup key (entries fs)
get key _ = none
