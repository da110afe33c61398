-- ===== src/Json/Size.antt =====
-- The size of a value, and what a lookup finds is smaller than the object it is found in.
use qdrant_es_gateway.Prelude.{
  ℕ, suc, ◌+◌, ◌<◌, ◌≤◌, ◌≡◌, refl, String, List, [], ◌∷◌, some, arith, All, Bool-cases, ◌==◌, inl,
  inr,
}
use qdrant_es_gateway.Json.{
  Value, null, bool, number, string, array, object, Items, nil, cons, Fields, end, field, Map,
  elems, entries, lookup, as_object, as_array,
}

unfoldable mutual
  pub size : Value → ℕ
  size null = 1
  size (bool b) = 1
  size (number n) = 1
  size (string s) = 1
  size (array xs) = suc (size_items xs)
  size (object fs) = suc (size_fields fs)

  pub size_fields : Fields → ℕ
  size_fields end = 0
  size_fields (field key value rest) = size value + size_fields rest

  pub size_items : Items → ℕ
  size_items nil = 0
  size_items (cons value rest) = size value + size_items rest

-- The total size of a list of values, and of the values of a map.
unfoldable pub sizes : List Value → ℕ
sizes [] = 0
sizes (v ∷ vs) = size v + sizes vs

unfoldable pub map_size : Map → ℕ
map_size [] = 0
map_size ((k, v) ∷ m) = size v + map_size m

pub sizes-elems : (xs : Items) → sizes (elems xs) ≡ size_items xs
unfolding sizes size
sizes-elems nil = refl
sizes-elems (cons x xs) = omega (arith, sizes-elems xs)

pub map_size-entries : (fs : Fields) → map_size (entries fs) ≡ size_fields fs
unfolding map_size size
map_size-entries end = refl
map_size-entries (field k v fs) = omega (arith, map_size-entries fs)

pub lookup-size : (key : String) (m : Map) {v : Value} → lookup key m ≡ some v → size v ≤ map_size m
unfolding lookup map_size
lookup-size key [] h = absurd (ground arith)
lookup-size key ((k, w) ∷ m) {v} h = elim (Bool-cases (k == key)) [
  | inl e ↦ let p : size w ≡ size v = ground arith in omega (arith, p)
  | inr e ↦ let p : size v ≤ map_size m = lookup-size key m (ground arith) in omega (arith, p)
]

pub as_object-size : (v : Value) {m : Map} → as_object v ≡ some m → map_size m < size v
unfolding size
as_object-size (object fs) h =
    let p : map_size (entries fs) ≡ size_fields fs = map_size-entries fs in ground (arith, p)
as_object-size _ h = cc

pub as_array-size : (v : Value) {vs : List Value} → as_array v ≡ some vs → sizes vs < size v
unfolding size
as_array-size (array xs) h =
    let p : sizes (elems xs) ≡ size_items xs = sizes-elems xs in ground (arith, p)
as_array-size _ h = cc

-- Each value of a list is no larger than the list.
pub sizes-All : (vs : List Value) (n : ℕ) → sizes vs ≤ n → All (λ v. size v ≤ n) vs
unfolding sizes
sizes-All [] n h = tt
sizes-All (v ∷ vs) n h = (omega arith, sizes-All vs n (omega arith))
