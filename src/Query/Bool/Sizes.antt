-- ===== src/Query/Bool/Sizes.antt =====
-- The clauses of a bool query are smaller than the query.
use qdrant_es_gateway.Prelude.{
  ℕ, ◌≤◌, ◌<◌, ◌≡◌, refl, String, some, arith, All, Option-cases, inl, inr,
}
use qdrant_es_gateway.Json.{Value, Map, array, null, elems, lookup, as_object}
use qdrant_es_gateway.Json.Size.{
  size, sizes, map_size, lookup-size, as_object-size, as_array-size, sizes-All,
}
use qdrant_es_gateway.Query.Bool.{bool_clauses, clause_list}

pub clause_list-size : (v : Value) (n : ℕ) → size v ≤ n → All (λ c. size c ≤ n) (clause_list v)
clause_list-size (array xs) n h =
    sizes-All (elems xs) n
      (let p : sizes (elems xs) < size (array xs) = as_array-size (array xs) refl in omega arith)
clause_list-size null n h = (h, tt)
clause_list-size _ n h = (h, tt)

pub bool_clauses-size :
    (m : Map) (key : String) (n : ℕ) → map_size m ≤ n → All (λ c. size c ≤ n) (bool_clauses m key)
unfolding bool_clauses
bool_clauses-size m key n h = elim (Option-cases (lookup key m)) [
  | inl e ↦ rw (e, All) tt
  | inr (v, e) ↦
      rw (e, All)
        (clause_list-size v n (let p : size v ≤ map_size m = lookup-size key m e in omega arith))
]

-- A value under a key of an object is smaller than the object.
pub get_object-size :
    (q : Value) (o : Map) (key : String) (v : Value)
    → as_object q ≡ some o
    → lookup key o ≡ some v
    → size v < size q
get_object-size q o key v h e =
    let p : map_size o < size q = as_object-size q h in
    let r : size v ≤ map_size o = lookup-size key o e in omega arith
