-- ===== src/Admin/Names.antt =====
-- Names of indices and of their Qdrant collections: `collection`, `document_collection` and
-- `validate_index_name`. `to_lowercase` is that of the standard library.
use Prim.Native.Char.{code}
use qdrant_es_gateway.Prelude.{
  ℕ, String, Bool, false, not, ◌&&◌, ◌||◌, if◌then◌else◌, ltb, leb, eqb, any, codes, ◌==◌,
}
use qdrant_es_gateway.Errors.{Result, invalid_index_name, ◌>>◌, refuse}
use qdrant_es_gateway.Parse.{concat, is_empty_str}
use qdrant_es_gateway.Catalog.{byte_length}
use qdrant_es_gateway.Search.Window.{show_u64}

abbrev is_between : ℕ → ℕ → ℕ → Bool
is_between low high c = leb low c && leb c high

-- `c.is_ascii_alphanumeric() || c == '_' || c == '-'`
abbrev pub is_kept : ℕ → Bool
is_kept c =
    is_between b'0' b'9' c
    || is_between b'a' b'z' c
    || is_between b'A' b'Z' c
    || eqb c b'_'
    || eqb c b'-'

-- `str::replace` of the other characters by "_".
unfoldable pub normalize : String → String
normalize String.[] = ""
normalize (String.◌∷◌ c s) = String.◌∷◌ (if is_kept (code c) then c else "_") (normalize s)

unfoldable pub collection : String → String
collection index = concat "es_" (normalize index)

unfoldable pub document_collection : String → String
document_collection index = concat (collection index) "_documents"

abbrev pub is_forbidden : ℕ → Bool
is_forbidden c = any (eqb c) (codes "\\/*?\"<>| ,")

abbrev starts_badly : String → Bool
starts_badly String.[] = false
starts_badly (String.◌∷◌ c s) = any (eqb (code c)) (codes "_-+")

unfoldable pub validate_index_name : (String → String) → String → Result (Unit {0})
validate_index_name to_lowercase index = do
  refuse (is_empty_str index) (invalid_index_name index "must not be empty")
  refuse (any is_forbidden (codes index)) (
      invalid_index_name index
        "must not contain the following characters [\\, /, *, ?, \", <, >, |, space, ,]")
  refuse (any (eqb b'#') (codes index)) (invalid_index_name index "must not contain '#'")
  refuse (any (eqb b':') (codes index)) (invalid_index_name index "must not contain ':'")
  refuse (starts_badly index) (invalid_index_name index "must not start with '_', '-', or '+'")
  refuse (ltb 255 (byte_length (codes index))) (
      invalid_index_name index (
        concat "index name is too long, ("
          (concat (show_u64 (byte_length (codes index))) " > 255)")))
  refuse (index == "." || index == "..") (invalid_index_name index "must not be '.' or '..'")
  refuse (not (to_lowercase index == index)) (invalid_index_name index "must be lowercase")
