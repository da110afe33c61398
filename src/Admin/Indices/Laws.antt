-- ===== src/Admin/Indices/Laws.antt =====
-- Creation and deletion keep the catalog consistent, whatever Qdrant answers.
use text.Mathlib.TextEquality.{eq_iff}
use qdrant_es_gateway.Prelude.{
  ◌≡◌, ◌∙◌, refl, String, false, not, List, [], ◌∷◌, filter, All, Bool-cases, inl, inr, ◌==◌,
  Option, arith,
}
use qdrant_es_gateway.Errors.{
  Result, ok, err, index_already_exists, bad, >>=-eq-ok, refuse-eq-ok, for_each,
}
use qdrant_es_gateway.Json.{Value, contains_key}
use qdrant_es_gateway.Catalog.{IndexMetadata, ReadView}
use qdrant_es_gateway.Admin.Names.{collection, document_collection, validate_index_name}
use qdrant_es_gateway.Admin.Tables.{erase, upsert}
use qdrant_es_gateway.Admin.Tables.Laws.{
  Separate, SeparateFrom, SeparateFrom-erase, AllSeparate-erase, DistinctKeys-filter,
  contains_key-erase, contains_key-upsert, Points, IsConsistent,
}
use qdrant_es_gateway.Admin.Indices.{
  check_existing, ensure_collection_namespace_available, check_index, insert_index, Config, Method,
  create_collections, create_index, check_concrete, delete_rows, delete_index, created, recorded,
  deleted, dropped_or,
}

check_existing-Separate :
    (index existing : String)
    → check_existing index existing ≡ ok tt
    → ((existing == index) ≡ false) × Separate index existing
unfolding check_existing
check_existing-Separate index existing h =
    let (other, rest) = refuse-eq-ok (existing == index) (index_already_exists index) _ h in
    (
      other,
      ground (
        arith,
        eq_iff (collection existing) (collection index),
        eq_iff (document_collection existing) (collection index),
        eq_iff (collection existing) (document_collection index),
        eq_iff (document_collection existing) (document_collection index),
      ),
    )

check_all-Separate :
    (index : String) (rows : List (String × IndexMetadata))
    → for_each (λ (row : String × IndexMetadata). check_existing index row.0) rows ≡ ok tt
    → (contains_key index rows ≡ false) × SeparateFrom index rows
check_all-Separate index [] h = (refl, tt)
check_all-Separate index ((k, v) ∷ rows) h =
    let (done, here, later) = >>=-eq-ok (check_existing index k) _ h in
    let (other, apart) = check_existing-Separate index k here in
    let (absent, rest) = check_all-Separate index rows later in (rw other absent, (apart, rest))

pub ensure-Separate :
    (db : ReadView) (index : String)
    → ensure_collection_namespace_available db index ≡ ok tt
    → (contains_key index db.aliases ≡ false)
      × (contains_key index db.indices ≡ false)
      × SeparateFrom index db.indices
unfolding ensure_collection_namespace_available
ensure-Separate db index h =
    let (no_alias, rest) = refuse-eq-ok (contains_key index db.aliases) (bad _ _) _ h in
    let (absent, apart) = check_all-Separate index db.indices rest in (no_alias, absent, apart)

-- A row keeps its meaning when an index is added whose name is not its alias.
Points-upsert :
    (index : String) (v : IndexMetadata) (indices : List (String × IndexMetadata))
    (aliases : List (String × String))
    → contains_key index aliases ≡ false
    → All (Points indices) aliases
    → All (Points (upsert index v indices)) aliases
Points-upsert index v indices [] h k = tt
Points-upsert index v indices ((alias, target) ∷ aliases) h ((p, q), k) = (
  (
    contains_key-upsert alias index v indices
        ∙ ground (arith, eq_iff alias index, eq_iff index alias),
    contains_key-upsert target index v indices ∙ ground arith,
  ),
  Points-upsert index v indices aliases (ground arith) k,
)

Points-erase :
    (index : String) (indices : List (String × IndexMetadata)) (aliases : List (String × String))
    → All (Points indices) aliases
    → All
        (Points (erase index indices))
        (filter (λ (row : String × String). not (row.1 == index)) aliases)
Points-erase index indices [] k = tt
Points-erase index indices ((alias, target) ∷ aliases) ((p, q), k) =
    elim (Bool-cases (target == index)) [
      | inl gone ↦ rw gone (Points-erase index indices aliases k)
      | inr kept ↦ rw kept (
        (
          contains_key-erase alias index indices ∙ ground arith,
          contains_key-erase target index indices
              ∙ ground (arith, eq_iff target index, eq_iff index target),
        ),
        Points-erase index indices aliases k,
      )
    ]

insert_index-IsConsistent :
    (db : ReadView) (index : String) (mapping : Value) (vectors : List String)
    → ensure_collection_namespace_available db index ≡ ok tt
    → IsConsistent db
    → IsConsistent (insert_index db index mapping vectors)
insert_index-IsConsistent db index mapping vectors h c =
    let (no_alias, absent, apart) = ensure-Separate db index h in
    record {
      separate = (
        SeparateFrom-erase index index db.indices apart,
        AllSeparate-erase index db.indices c.separate,
      );
      distinct = c.distinct;
      points =
          Points-upsert index (record { mapping = mapping; vectors = vectors }) db.indices
            db.aliases no_alias c.points;
    }

delete_rows-IsConsistent :
    (db : ReadView) (index : String) → IsConsistent db → IsConsistent (delete_rows db index)
unfolding delete_rows
delete_rows-IsConsistent db index c = record {
  separate = AllSeparate-erase index db.indices c.separate;
  distinct =
      DistinctKeys-filter (λ (row : String × String). not (row.1 == index)) db.aliases c.distinct;
  points = Points-erase index db.indices db.aliases c.points;
}

check_index-ensures :
    (to_lowercase : String → String) (sort : List String → List String)
    (capacity : ReadView → String → Value → List String → Result (Unit {0})) (db : ReadView)
    (index : String) (body : Value) {made : Value × List String}
    → check_index to_lowercase sort capacity db index body ≡ ok made
    → ensure_collection_namespace_available db index ≡ ok tt
unfolding check_index
check_index-ensures to_lowercase sort capacity db index body h =
    let (a, named, rest) = >>=-eq-ok (validate_index_name to_lowercase index) _ h in
    let (b, free, later) = >>=-eq-ok (ensure_collection_namespace_available db index) _ rest in free

module _ {Q : Type 0} (mutation : Method → String → Option Value → Q → Result (Unit {0}) × Q) where
  recorded-IsConsistent :
      (db : ReadView) (index : String) (made : Value × List String) (r : Result (Unit {0}) × Q)
      → ensure_collection_namespace_available db index ≡ ok tt
      → IsConsistent db
      → IsConsistent (recorded mutation db index made r).1
  recorded-IsConsistent db index (mapping, vectors) (ok done, q) h c =
      insert_index-IsConsistent db index mapping vectors h c
  recorded-IsConsistent db index made (err e, q) h c = c

  created-IsConsistent :
      (cfg : Config) (db : ReadView) (index : String) (q : Q)
      (checked : Result (Value × List String))
      → ((made : Value × List String)
          → checked ≡ ok made
          → ensure_collection_namespace_available db index ≡ ok tt)
      → IsConsistent db
      → IsConsistent (created mutation cfg db index q checked).1
  created-IsConsistent cfg db index q (err e) h c = c
  created-IsConsistent cfg db index q (ok (mapping, vectors)) h c =
      recorded-IsConsistent db index (mapping, vectors)
        (create_collections mutation cfg index mapping vectors q) (h (mapping, vectors) refl) c

  pub create_index-IsConsistent :
      (to_lowercase : String → String) (sort : List String → List String)
      (capacity : ReadView → String → Value → List String → Result (Unit {0})) (cfg : Config)
      (index : String) (body : Value) (db : ReadView) (q : Q)
      → IsConsistent db
      → IsConsistent (create_index mutation to_lowercase sort capacity cfg index body db q).1
  unfolding create_index
  create_index-IsConsistent to_lowercase sort capacity cfg index body db q c =
      created-IsConsistent cfg db index q _
        (λ made h. check_index-ensures to_lowercase sort capacity db index body h) c

  deleted-IsConsistent :
      (db : ReadView) (index : String) (r : Result (Unit {0}) × Q)
      → IsConsistent db
      → IsConsistent (deleted mutation db index r).1
  deleted-IsConsistent db index (ok done, q) c = delete_rows-IsConsistent db index c
  deleted-IsConsistent db index (err e, q) c = c

  dropped_or-IsConsistent :
      (cfg : Config) (db : ReadView) (index : String) (q : Q) (checked : Result (Unit {0}))
      → IsConsistent db
      → IsConsistent (dropped_or mutation cfg db index q checked).1
  dropped_or-IsConsistent cfg db index q (ok done) c = deleted-IsConsistent db index _ c
  dropped_or-IsConsistent cfg db index q (err e) c = c

  pub delete_index-IsConsistent :
      (cfg : Config) (index : String) (db : ReadView) (q : Q)
      → IsConsistent db
      → IsConsistent (delete_index mutation cfg index db q).1
  unfolding delete_index
  delete_index-IsConsistent cfg index db q c =
      dropped_or-IsConsistent cfg db index q (check_concrete db index) c
