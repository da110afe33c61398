-- ===== src/Cache/Config.antt =====
-- The checks of a cache's configuration: `valid_digest`, `valid_identity`, `catalog_has_tag`, and
-- the test at the head of `ReadCache::connect`.
use qdrant_es_gateway.Prelude.{
  ℕ, suc, Bool, false, not, ◌&&◌, ◌||◌, [], ◌∷◌, Option, none, some, if◌then◌else◌, length, leb,
  ltb, eqb, all, is_empty,
}
use qdrant_es_gateway.Cache.Bytes.{Bytes}
use qdrant_es_gateway.Cache.Epoch.{is_digit}
use qdrant_es_gateway.Cache.Scripts.{is_hex}

unfoldable pub valid_digest : Bytes → Bool
valid_digest key = eqb (length key) 64 && all is_hex key

abbrev is_ascii_alphanumeric : ℕ → Bool
is_ascii_alphanumeric c = is_digit c || (leb b'a' c && leb c b'z') || (leb b'A' c && leb c b'Z')

unfoldable pub valid_identity : Bytes → Bool
valid_identity identity =
    not (is_empty identity)
    && leb (length identity) 128
    && all (λ c. is_ascii_alphanumeric c || eqb c b'-' || eqb c b'_') identity

-- `key.find('}')`, the position of the first such byte.
find_close : ℕ → Bytes → Option ℕ
find_close at [] = none
find_close at (c ∷ s) = if eqb c b'}' then some at else find_close (suc at) s

-- A '{', and the first '}' behind the first '{' not directly behind it.
unfoldable pub catalog_has_tag : Bytes → Bool
unfolding find_close
catalog_has_tag [] = false
catalog_has_tag (c ∷ s) =
    let rest = catalog_has_tag s in
    if eqb c b'{' then elim (find_close 0 s) [ none ↦ false | some end ↦ ltb 0 end ] else rest

abbrev pub max_ttl_seconds : ℕ
max_ttl_seconds = 3600

abbrev pub max_entry_bytes : ℕ
max_entry_bytes = 16777216

-- The configuration that `connect` accepts.
unfoldable pub connect_accepts : Bytes → Bytes → Bytes → ℕ → ℕ → Bool
unfolding valid_identity catalog_has_tag
connect_accepts catalog_key deployment semantic_identity ttl_seconds max_bytes = not (
    not (catalog_has_tag catalog_key)
    || not (valid_identity deployment)
    || is_empty semantic_identity
    || not (leb 1 ttl_seconds && leb ttl_seconds max_ttl_seconds)
    || not (leb 1 max_bytes && leb max_bytes max_entry_bytes))
