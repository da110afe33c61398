-- ===== src/Admin/Indices.antt =====
-- Creation and deletion of indices: `ensure_collection_namespace_available`, `mapping_vectors`,
-- `payload_field_schema`, `create_index`, `cleanup_failed_index_creation` and `delete_index` of
-- src/main.rs. Qdrant is a parameter: `mutation` answers a call and changes a state of any type.
-- `to_lowercase` and `sort` are those of the standard library, and `capacity` is
-- `shared_catalog::validate_index_capacity`.
pub mod Laws
use Prim.Native.Char.{code}
use Prim.Native.String
use qdrant_es_gateway.Prelude.{
  ℕ, ◌≡◌, String, Bool, true, false, not, ◌||◌, List, [], ◌∷◌, ◌++◌, Option, none, some,
  if◌then◌else◌, eqb, any, ◌==◌, is_empty, filter,
}
use qdrant_es_gateway.Errors.{
  Result, ok, err, bad, index_already_exists, ◌>>=◌, ◌>>◌, refuse, for_each,
}
use qdrant_es_gateway.Parse.{concat}
use qdrant_es_gateway.Json.{
  Value, number, pos_int, string, bool, object, Fields, end, field, Map, fields, entries, insert,
  get, lookup, contains_key, as_str,
}
use qdrant_es_gateway.Query.PostFilter.{as_str_of}
use qdrant_es_gateway.Catalog.{IndexMetadata, ReadView}
use qdrant_es_gateway.Sparse.Name.{name}
use qdrant_es_gateway.Sparse.Mapping.{properties, has_type, validate_mapping}
use qdrant_es_gateway.Admin.Names.{collection, document_collection, validate_index_name}
use qdrant_es_gateway.Admin.Tables.{erase, upsert, get_index}

abbrev pub contains : List String → String → Bool
contains names wanted = any (λ name. name == wanted) names

abbrev pub reserved : String → List String
reserved index = collection index ∷ document_collection index ∷ []

-- What the loop asks of one existing index.
unfoldable pub check_existing : String → String → Result (Unit {0})
check_existing index existing = do
  refuse (existing == index) (index_already_exists index)
  refuse (any (contains (reserved existing)) (reserved index)) (
      bad "index.name" (
        concat "index [" (
          concat index (
            concat "] conflicts with the Qdrant collection namespace reserved by existing index ["
              (concat existing "]; choose a different index name")))))

unfoldable pub ensure_collection_namespace_available : ReadView → String → Result (Unit {0})
ensure_collection_namespace_available db index = do
  refuse (contains_key index db.aliases)
      (bad "index.name" (concat "index [" (concat index "] conflicts with an existing alias")))
  for_each (λ (row : String × IndexMetadata). check_existing index row.0) db.indices

-- `field.replace('.', "_")`
unfoldable pub replace_dots : String → String
replace_dots String.[] = ""
replace_dots (String.◌∷◌ c s) = String.◌∷◌ (if eqb (code c) b'.' then "_" else c) (replace_dots s)

-- The vectors that the loop pushes, in the order of the properties.
unfoldable pub field_vectors : Map → List String
field_vectors [] = []
field_vectors ((name', spec) ∷ props) =
    if has_type spec "text"
    then concat "text_" (replace_dots name') ∷ field_vectors props
    else if has_type spec "sparse_vector"
    then name name' ∷ field_vectors props
    else field_vectors props

abbrev pub with_default : List String → List String
with_default vectors = if contains vectors "text_all" then vectors else vectors ++ "text_all" ∷ []

abbrev pub mapping_of : Value → Value
mapping_of body = elim (get "mappings" body) [ none ↦ object end | some mapping ↦ mapping ]

unfoldable pub mapping_vectors : (List String → List String) → Value → Value × List String
mapping_vectors sort body =
    let vectors = field_vectors (properties (mapping_of body)) in
    (mapping_of body, sort (with_default (if is_empty vectors then "text_all" ∷ [] else vectors)))

abbrev pub schema_of : Option String → Option String
schema_of none = none
schema_of (some type) =
    if type == "keyword"
    then some "keyword"
    else if type == "boolean"
    then some "bool"
    else if contains ("byte" ∷ "short" ∷ "integer" ∷ "long" ∷ []) type
    then some "integer"
    else if contains ("float" ∷ "double" ∷ []) type
    then some "float"
    else if type == "date"
    then some "datetime"
    else none

unfoldable pub payload_field_schema : Value → Option String
payload_field_schema spec = schema_of (as_str_of (get "type" spec))

unfoldable pub validate_fast_field_namespace : Value → Result (Unit {0})
validate_fast_field_namespace mapping =
    refuse (contains_key "_qeg_fast_fields" (properties mapping)) (
      bad "_mapping.properties._qeg_fast_fields"
        "field name is reserved for gateway execution metadata")

pub record Config : Type 0 where
  pub document_projection : Bool
  pub qdrant_replication_factor : Option ℕ

abbrev replicated : Option ℕ → Map → Map
replicated none m = m
replicated (some factor) m =
    insert "shard_number" (number (pos_int factor))
      (insert "replication_factor" (number (pos_int factor)) m)

unfoldable pub empty_vectors : List String → Map
empty_vectors [] = []
empty_vectors (v ∷ vectors) = insert v (object end) (empty_vectors vectors)

unfoldable pub collection_config : Config → List String → Value
collection_config cfg vectors = object (
    fields (
      replicated cfg.qdrant_replication_factor
        (("sparse_vectors", object (fields (empty_vectors vectors))) ∷ [])))

unfoldable pub document_config : Config → Value
document_config cfg = object (
    fields (
      replicated cfg.qdrant_replication_factor (
        ("hnsw_config", object (field "m" (number (pos_int 0)) end))
        ∷ ("optimizers_config", object (field "indexing_threshold" (number (pos_int 0)) end))
        ∷ (
          "vectors",
          object (
              field "distance" (string "Dot")
                (field "on_disk" (bool true) (field "size" (number (pos_int 1)) end))),
        )
        ∷ [])))

abbrev index_config : String → String → Value
index_config field_name schema = object (
    field "field_name" (string field_name)
      (field "field_schema" (string schema) (field "wait" (bool true) end)))

pub data Method : Type 0 where
  put delete : Method

-- What `create_index` asks before it changes anything.
unfoldable pub check_index :
    (String → String)
    → (List String → List String)
    → (ReadView → String → Value → List String → Result (Unit {0}))
    → ReadView
    → String
    → Value
    → Result (Value × List String)
check_index to_lowercase sort capacity db index body = do
  validate_index_name to_lowercase index
  ensure_collection_namespace_available db index
  let (mapping, vectors) = mapping_vectors sort body
  validate_mapping mapping
  validate_fast_field_namespace mapping
  capacity db index mapping vectors
  ok (mapping, vectors)

abbrev pub insert_index : ReadView → String → Value → List String → ReadView
insert_index db index mapping vectors = record db {
  indices = upsert index (record { mapping = mapping; vectors = vectors }) db.indices;
}

-- The statements of the transaction of `delete_index`.
unfoldable pub delete_rows : ReadView → String → ReadView
delete_rows db index = record {
  indices = erase index db.indices;
  aliases = filter (λ (row : String × String). not (row.1 == index)) db.aliases;
}

-- What `delete_index` asks before it changes anything.
unfoldable pub check_concrete : ReadView → String → Result (Unit {0})
check_concrete db index = do
  (concrete_index, metadata) ← get_index db index
  refuse (not (concrete_index == index))
      (bad "index.name" "index deletion requires a concrete index name, not an alias")

module _ {Q : Type 0} (mutation : Method → String → Option Value → Q → Result (Unit {0}) × Q) where
  abbrev drop_collection : String → Q → Q
  drop_collection name' q = (mutation delete (concat "/collections/" name') none q).1

  unfoldable pub cleanup_failed_index_creation : String → Bool → Q → Q
  cleanup_failed_index_creation index document_created q =
      let dropped = drop_collection (collection index) q in
      if document_created then drop_collection (document_collection index) dropped else dropped

  -- A call, after whose failure the created collections are cleaned up.
  abbrev or_cleanup : String → Bool → Result (Unit {0}) × Q → Result (Unit {0}) × Q
  or_cleanup index document_created (ok done, q) = (ok done, q)
  or_cleanup index document_created (err e, q) =
      (err e, cleanup_failed_index_creation index document_created q)

  -- The next call, if there was no error.
  abbrev pub and_then : Result (Unit {0}) × Q → (Q → Result (Unit {0}) × Q) → Result (Unit {0}) × Q
  and_then (ok done, q) next = next q
  and_then (err e, q) next = (err e, q)

  abbrev put_index : Config → String → String → String → Q → Result (Unit {0}) × Q
  put_index cfg index field_name schema q = or_cleanup index cfg.document_projection (
      mutation put (concat "/collections/" (concat (collection index) "/index"))
        (some (index_config field_name schema)) q)

  unfoldable pub put_field_indices : Config → String → Map → Q → Result (Unit {0}) × Q
  put_field_indices cfg index [] q = (ok tt, q)
  put_field_indices cfg index ((field_name, spec) ∷ props) q =
      let rest = λ (q' : Q). put_field_indices cfg index props q' in
      elim (payload_field_schema spec) [
        | none ↦ rest q
        | some schema ↦ and_then (put_index cfg index field_name schema q) rest
      ]

  unfoldable pub put_documents : Config → String → Q → Result (Unit {0}) × Q
  put_documents cfg index q =
      if cfg.document_projection
      then or_cleanup index false (
          mutation put (concat "/collections/" (document_collection index))
            (some (document_config cfg)) q)
      else (ok tt, q)

  -- The calls of `create_index`, in their order.
  unfoldable pub create_collections :
      Config → String → Value → List String → Q → Result (Unit {0}) × Q
  create_collections cfg index mapping vectors q =
      and_then
        (and_then
          (and_then
            (mutation put (concat "/collections/" (collection index))
              (some (collection_config cfg vectors)) q)
            (put_documents cfg index))
          (put_field_indices cfg index (properties mapping)))
        (put_index cfg index "_qeg_fast_fields" "keyword")

  abbrev pub recorded :
      ReadView
      → String
      → Value × List String
      → Result (Unit {0}) × Q
      → Result (Unit {0}) × ReadView × Q
  recorded db index (mapping, vectors) (ok done, q) =
      (ok tt, insert_index db index mapping vectors, q)
  recorded db index made (err e, q) = (err e, db, q)

  abbrev pub created :
      Config
      → ReadView
      → String
      → Q
      → Result (Value × List String)
      → Result (Unit {0}) × ReadView × Q
  created cfg db index q (err e) = (err e, db, q)
  created cfg db index q (ok (mapping, vectors)) =
      recorded db index (mapping, vectors) (create_collections cfg index mapping vectors q)

  unfoldable pub create_index :
      (String → String)
      → (List String → List String)
      → (ReadView → String → Value → List String → Result (Unit {0}))
      → Config
      → String
      → Value
      → ReadView
      → Q
      → Result (Unit {0}) × ReadView × Q
  create_index to_lowercase sort capacity cfg index body db q =
      created cfg db index q (check_index to_lowercase sort capacity db index body)

  abbrev pub deleted : ReadView → String → Result (Unit {0}) × Q → Result (Unit {0}) × ReadView × Q
  deleted db index (ok done, q) = (ok tt, delete_rows db index, q)
  deleted db index (err e, q) = (err e, db, q)

  abbrev drop_documents : Config → String → Q → Result (Unit {0}) × Q
  drop_documents cfg index q =
      if cfg.document_projection
      then mutation delete (concat "/collections/" (document_collection index)) none q
      else (ok tt, q)

  abbrev pub dropped_or :
      Config → ReadView → String → Q → Result (Unit {0}) → Result (Unit {0}) × ReadView × Q
  dropped_or cfg db index q (err e) = (err e, db, q)
  dropped_or cfg db index q (ok done) = deleted db index (
      and_then (mutation delete (concat "/collections/" (collection index)) none q)
        (drop_documents cfg index))

  unfoldable pub delete_index : Config → String → ReadView → Q → Result (Unit {0}) × ReadView × Q
  delete_index cfg index db q = dropped_or cfg db index q (check_concrete db index)
