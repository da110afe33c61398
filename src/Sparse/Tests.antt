-- ===== src/Sparse/Tests.antt =====
-- Sparse vectors of concrete tokens.
use qdrant_es_gateway.Prelude.{ℕ, ◌*◌, ◌^◌, ◌<◌, ◌≡◌, ◌≢◌, refl, false, [], ◌∷◌, All}
use qdrant_es_gateway.Parse.{parse_unsigned}
use qdrant_es_gateway.Json.{Value, Fields, number, pos_int, field, end, entries}
use qdrant_es_gateway.Json.Float.{as_f64, to_f64, scale, round_integer}
use qdrant_es_gateway.Search.Window.{show_u64}
use qdrant_es_gateway.Sparse.Name.{name, hex, hex_digit, as_bytes, utf8}
use qdrant_es_gateway.Sparse.Name.Laws.{name-ne}
use qdrant_es_gateway.Sparse.Vector.{
  Pairs, to_f32, excess_bits_24, round_even, token_id, positive_f32, weight, collect_pairs,
  insert_pair, sort_pairs, vector_json, vector_pairs, vector,
}
use qdrant_es_gateway.Sparse.Vector.Laws.{
  weight_at, stated_weight, Ascending, IsWeight, vector-weights,
}

encoded : name "a.b" ≡ "sparse_612e62"
unfolding name hex hex_digit as_bytes utf8
encoded = refl

name-ne_example : name "a.b" ≢ name "a_b"
name-ne_example = name-ne "a.b" "a_b" (λ e. cc e)

abbrev tokens : Fields
tokens = field "10" (number (pos_int 3)) (field "9" (number (pos_int 1)) end)

abbrev made : Value
made = vector_json (
    (9, record { negative = false; magnitude = 2 ^ 1074 })
    ∷ (10, record { negative = false; magnitude = 3 * 2 ^ 1074 })
    ∷ [])

vector-weights_example :
    (pairs : Pairs) × (made ≡ vector_json pairs)
    × Ascending pairs
    × All IsWeight pairs
    × ((id : ℕ) → id < 2 ^ 32 → weight_at id pairs ≡ stated_weight id (entries tokens))
unfolding vector vector_pairs collect_pairs token_id parse_unsigned show_u64 weight positive_f32
    to_f32 as_f64 to_f64 round_integer scale excess_bits_24 round_even sort_pairs insert_pair
    vector_json
vector-weights_example = vector-weights tokens {made = made} (refl, (refl, tt)) refl
