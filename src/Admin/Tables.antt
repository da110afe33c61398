-- ===== src/Admin/Tables.antt =====
-- The two tables of the catalog, `indices` and `aliases`, and the statements on them. A table is a
-- list of its rows by their primary key; SQLite itself is not modelled, and its failures are not.
pub mod Laws
use qdrant_es_gateway.Prelude.{
  String, Bool, true, false, not, List, [], ◌∷◌, Option, none, some, filter, ◌==◌,
}
use qdrant_es_gateway.Errors.{Result, not_found, ok_or}
use qdrant_es_gateway.Parse.{concat}
use qdrant_es_gateway.Json.{lookup, contains_key}
use qdrant_es_gateway.Catalog.{IndexMetadata, ReadView, get_key_value}

module _ {ℓ} {V : Type ℓ} where
  -- `DELETE ... WHERE key = ?`
  abbrev pub erase : String → List (String × V) → List (String × V)
  erase key rows = filter (λ (row : String × V). not (row.0 == key)) rows

  -- `INSERT OR REPLACE`
  abbrev pub upsert : String → V → List (String × V) → List (String × V)
  upsert key v rows = (key, v) ∷ erase key rows

abbrev pub coalesce : Option String → Option String → Option String
coalesce none b = b
coalesce (some a) b = some a

-- `WHERE name = COALESCE((SELECT name ...), (SELECT index_name ...))`
unfoldable pub get_index : ReadView → String → Result (String × IndexMetadata)
get_index db name =
    let own : Option String = elim (contains_key name db.indices) [
      | true ↦ some name
      | false ↦ none
    ] in
    ok_or
      (elim (coalesce own (lookup name db.aliases)) [
        | none ↦ none
        | some index ↦ get_key_value index db.indices
      ])
      (not_found (concat "no such index [" (concat name "]")))
