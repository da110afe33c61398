-- ===== src/Sparse/Vector.antt =====
-- `vector` and `document` of src/sparse.rs.
pub mod Narrow
pub mod Laws
use qdrant_es_gateway.Prelude.{
  ℕ, suc, zero, ◌+◌, ◌*◌, ◌/◌, ◌%◌, ◌^◌, max, String, Bool, true, false, not, ◌&&◌, ◌||◌, List, [],
  ◌∷◌, map, Option, none, some, if◌then◌else◌, ltb, leb, eqb, ◌==◌,
}
use qdrant_es_gateway.Errors.{Result, ok, err, bad, ◌>>=◌, ◌>>◌, refuse, ok_or}
use qdrant_es_gateway.Parse.{parse_unsigned, u32_limit}
use qdrant_es_gateway.Json.{
  Value, number, pos_int, float, array, object, Fields, end, field, items, Map, insert, get,
  is_null, as_object,
}
use qdrant_es_gateway.Json.Float.{Float, as_f64}
use qdrant_es_gateway.Search.Window.{show_u64}
use qdrant_es_gateway.Sparse.Name.{name}
use qdrant_es_gateway.Sparse.Mapping.{properties, has_type}

-- How many of the last bits do not fit in the 24 of a 32-bit float: at most `fuel`.
unfoldable pub excess_bits_24 : ℕ → ℕ → ℕ
excess_bits_24 zero n = 0
excess_bits_24 (suc fuel) n =
    let more = suc (excess_bits_24 fuel (n / 2)) in if ltb n (2 ^ 24) then 0 else more

-- Rounding to a multiple of 2^e, ties to the even one.
unfoldable pub round_even : ℕ → ℕ → ℕ
round_even e n =
    let q = n / 2 ^ e in
    let twice = 2 * (n % 2 ^ e) in
    if ltb (2 ^ e) twice || (eqb twice (2 ^ e) && eqb (q % 2) 1) then (q + 1) * 2 ^ e else q * 2 ^ e

-- `weight as f32`, `none` where it is infinite: the least positive value is 2^-149, which is 925
-- doublings from the unit 2^-1074, and 2^128 is the first power out of range. A finite 64-bit float
-- has at most 2098 bits in that unit.
unfoldable pub to_f32 : Float → Option Float
to_f32 f =
    let rounded = round_even (max 925 (excess_bits_24 2100 f.magnitude)) f.magnitude in
    if ltb rounded (2 ^ 1202)
    then some (record { negative = f.negative; magnitude = rounded })
    else none

abbrev pub is_positive : Float → Bool
is_positive f = not f.negative && ltb 0 f.magnitude

abbrev bad_token : Result ℕ
bad_token = err (bad "sparse_vector" "token IDs must be canonical unsigned 32-bit decimal integers")

unfoldable pub token_id : String → Result ℕ
token_id token = elim (parse_unsigned u32_limit token) [
  | none ↦ bad_token
  | some id ↦ if show_u64 id == token then ok id else bad_token
]

-- The converted weight, if it is positive and finite.
unfoldable pub positive_f32 : Option Float → Option Float
positive_f32 none = none
positive_f32 (some f) = if is_positive f then some f else none

abbrev pub and_then : Option Float → (Float → Option Float) → Option Float
and_then none next = none
and_then (some f) next = next f

unfoldable pub weight : Value → Option Float
weight value = positive_f32 (and_then (as_f64 value) to_f32)

abbrev pub Pairs : Type 0
Pairs = List (ℕ × Float)

-- The loop over the tokens.
unfoldable pub collect_pairs : Map → Result Pairs
collect_pairs [] = ok []
collect_pairs ((token, value) ∷ tokens) = do
  id ← token_id token
  converted ←
      ok_or (weight value) (bad "sparse_vector" "weights must be positive finite float32 numbers")
  pairs ← collect_pairs tokens
  ok ((id, converted) ∷ pairs)

unfoldable pub insert_pair : ℕ → Float → Pairs → Pairs
insert_pair id f [] = (id, f) ∷ []
insert_pair id f ((other, g) ∷ pairs) =
    if leb id other then (id, f) ∷ (other, g) ∷ pairs else (other, g) ∷ insert_pair id f pairs

-- `sort_unstable_by_key`; the keys are distinct.
unfoldable pub sort_pairs : Pairs → Pairs
sort_pairs [] = []
sort_pairs ((id, f) ∷ pairs) = insert_pair id f (sort_pairs pairs)

unfoldable pub vector_json : Pairs → Value
vector_json pairs = object (
    field "indices" (array (items (map (λ (p : ℕ × Float). number (pos_int p.0)) pairs))) (
      field "values"
        (array (items (map (λ (p : ℕ × Float). number (float p.1.negative p.1.magnitude)) pairs)))
        end))

-- The pairs of the vector, and their JSON.
unfoldable pub vector_pairs : Value → Result Pairs
vector_pairs tokens = do
  entries ←
      ok_or (as_object tokens)
        (bad "sparse_vector" "expected an object of numeric token IDs and positive weights")
  pairs ← collect_pairs entries
  ok (sort_pairs pairs)

unfoldable pub vector : Value → Result Value
vector tokens = do pairs ← vector_pairs tokens; ok (vector_json pairs)

abbrev pub non_null : Option Value → Option Value
non_null none = none
non_null (some v) = if is_null v then none else some v

-- The loop over the properties; a field that is absent or null has no vector.
unfoldable pub document_fields : Value → Map → Map → Result Map
document_fields source [] result = ok result
document_fields source ((name', spec) ∷ props) result =
    let rest = λ (r : Map). document_fields source props r in
    if has_type spec "sparse_vector"
    then elim (non_null (get name' source)) [
      | none ↦ rest result
      | some tokens ↦ vector tokens >>= λ v. rest (insert (name name') v result)
    ]
    else rest result

unfoldable pub document : Value → Value → Result Map
document source mapping = document_fields source (properties mapping) []
