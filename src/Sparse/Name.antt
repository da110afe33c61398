-- ===== src/Sparse/Name.antt =====
-- `name` of src/sparse.rs: the Qdrant vector of a field.
pub mod Laws
use Prim.Native.Char.{Char}
use qdrant_es_gateway.Prelude.{
  ℕ, ◌+◌, ◌-◌, ◌/◌, ◌%◌, String, List, [], ◌∷◌, ◌++◌, if◌then◌else◌, ltb, codes,
}
use qdrant_es_gateway.Parse.{concat}

-- The UTF-8 bytes of a character and of a text, as `str::as_bytes`.
unfoldable pub utf8 : ℕ → List ℕ
utf8 c =
    if ltb c 128
    then c ∷ []
    else if ltb c 2048
    then (192 + c / 64) ∷ (128 + c % 64) ∷ []
    else if ltb c 65536
    then (224 + c / 4096) ∷ (128 + c / 64 % 64) ∷ (128 + c % 64) ∷ []
    else (240 + c / 262144) ∷ (128 + c / 4096 % 64) ∷ (128 + c / 64 % 64) ∷ (128 + c % 64) ∷ []

unfoldable pub as_bytes : List ℕ → List ℕ
as_bytes [] = []
as_bytes (c ∷ cs) = utf8 c ++ as_bytes cs

abbrev pub nth_digit : List Char → ℕ → Char
nth_digit [] n = "0"
nth_digit (c ∷ cs) n = if ltb n 1 then c else nth_digit cs (n - 1)

abbrev hex_digits : List Char
hex_digits =
    "0" ∷ "1" ∷ "2" ∷ "3" ∷ "4" ∷ "5" ∷ "6" ∷ "7" ∷ "8" ∷ "9" ∷ "a" ∷ "b" ∷ "c" ∷ "d" ∷ "e" ∷ "f"
    ∷ []

unfoldable pub hex_digit : ℕ → Char
hex_digit n = nth_digit hex_digits n

-- `format!("{b:02x}")` for each byte.
unfoldable pub hex : List ℕ → String
hex [] = ""
hex (b ∷ bs) = String.◌∷◌ (hex_digit (b / 16)) (String.◌∷◌ (hex_digit (b % 16)) (hex bs))

unfoldable pub name : String → String
name field = concat "sparse_" (hex (as_bytes (codes field)))
