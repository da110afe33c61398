-- ===== src/Catalog.antt =====
-- The shared catalog (src/shared_catalog.rs): the view of one request, and the scripts by which
-- administrators claim, publish and release the catalog in Redis. A key of Redis is a text or absent.
pub mod Laws
mod Tests
use qdrant_es_gateway.Prelude.{
  ℕ, ◌≡◌, String, Bool, true, false, not, ◌||◌, List, [], ◌∷◌, Option, none, some, if◌then◌else◌,
  ltb, ◌+◌, codes, ◌==◌,
}
use qdrant_es_gateway.Errors.{Result, ok, err, not_found, ok_or}
use qdrant_es_gateway.Parse.{concat, is_empty_str}
use qdrant_es_gateway.Json.{Value, lookup}

pub record IndexMetadata : Type 0 where
  pub mapping : Value
  pub vectors : List String

pub record ReadView : Type 0 where
  pub indices : List (String × IndexMetadata)
  pub aliases : List (String × String)

-- `get_key_value`.
abbrev pub get_key_value : String → List (String × IndexMetadata) → Option (String × IndexMetadata)
get_key_value name indices = elim (lookup name indices) [
  | none ↦ none
  | some metadata ↦ some (name, metadata)
]

abbrev pub through_alias : ReadView → String → Option (String × IndexMetadata)
through_alias view name = elim (lookup name view.aliases) [
  | none ↦ none
  | some target ↦ get_key_value target view.indices
]

unfoldable pub resolve : ReadView → String → Result (String × IndexMetadata)
resolve view name =
    ok_or
      (elim (get_key_value name view.indices) [
        | some found ↦ some found
        | none ↦ through_alias view name
      ])
      (not_found (concat "no such index [" (concat name "]")))

-- `KEYS[1]` and `KEYS[2]`: the catalog and the claim of an administrator.
pub record Keys : Type 0 where
  pub catalog : Option String
  pub claim : Option String

abbrev pub is_present : Option String → Bool
is_present none = false
is_present (some s) = true

-- `MAX_BYTES`.
abbrev pub max_bytes : ℕ
max_bytes = 8388608

-- The length in UTF-8, as `STRLEN` and `len` count it.
abbrev utf8_width : ℕ → ℕ
utf8_width c = if ltb c 128 then 1 else if ltb c 2048 then 2 else if ltb c 65536 then 3 else 4

unfoldable pub byte_length : List ℕ → ℕ
byte_length [] = 0
byte_length (c ∷ cs) = utf8_width c + byte_length cs

abbrev too_long : String → Bool
too_long snapshot = ltb max_bytes (byte_length (codes snapshot))

abbrev pub claimed : String → Keys → Keys
claimed token keys = if is_empty_str token then keys else record keys { claim = some token }

-- The script of `begin_snapshot`; an empty claim is a reader's. `none` is the reply `rejected`.
unfoldable pub begin_script : String → Keys → Option String × Keys
begin_script token keys = if is_present keys.claim then (none, keys) else elim keys.catalog [
  | none ↦ (none, keys)
  | some snapshot ↦ if too_long snapshot then (none, keys) else (some snapshot, claimed token keys)
]

abbrev pub holds : String → Option String → Bool
holds token none = false
holds token (some claim) = claim == token

-- The script of `publish`, with the test of the payload's length before it; `true` is the reply 1.
unfoldable pub publish_catalog : String → String → Keys → Bool × Keys
publish_catalog token payload keys =
    if too_long payload || not (holds token keys.claim)
    then (false, keys)
    else (true, record { catalog = some payload; claim = none })

-- The script of `release`.
unfoldable pub release_claim : String → Keys → Bool × Keys
release_claim token keys =
    if holds token keys.claim then (true, record keys { claim = none }) else (false, keys)

-- One call of any client.
pub data CatalogCall : Type 0 where
  begin_call : String → CatalogCall
  publish_call : (token payload : String) → CatalogCall
  release_call : String → CatalogCall

abbrev pub step : CatalogCall → Keys → Keys
step (begin_call token) keys = (begin_script token keys).1
step (publish_call token payload) keys = (publish_catalog token payload keys).1
step (release_call token) keys = (release_claim token keys).1

abbrev pub run_calls : List CatalogCall → Keys → Keys
run_calls [] keys = keys
run_calls (call ∷ calls) keys = run_calls calls (step call keys)
