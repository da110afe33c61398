-- ===== src/Admin/Tests.antt =====
-- A run of requests on an empty catalog.
use qdrant_es_gateway.Prelude.{◌≡◌, refl, String, true, List, [], ◌∷◌, none}
use qdrant_es_gateway.Errors.{ok}
use qdrant_es_gateway.Json.{Value, object, string, array, field, end, cons, nil, lookup}
use qdrant_es_gateway.Catalog.{IndexMetadata, ReadView, byte_length}
use qdrant_es_gateway.Sparse.Mapping.{validate_mapping}
use qdrant_es_gateway.Admin.{AdminRequest, create, delete, change_aliases, Services, handle_all}
use qdrant_es_gateway.Admin.Names.{collection, document_collection, normalize, validate_index_name}
use qdrant_es_gateway.Admin.Tables.{get_index}
use qdrant_es_gateway.Admin.Tables.Laws.{IsConsistent}
use qdrant_es_gateway.Admin.Indices.{
  Config, check_existing, ensure_collection_namespace_available, mapping_vectors, field_vectors,
  validate_fast_field_namespace, check_index, create_collections, put_documents, put_field_indices,
  create_index, check_concrete, delete_rows, delete_index,
}
use qdrant_es_gateway.Admin.Laws.{handle_all-IsConsistent}
use qdrant_es_gateway.Admin.Aliases.{
  aliases, requested_actions, parse_actions, parse_action, parse_fields, start, commit_actions,
  initial_targets, targets_of, apply_action, update, multiple, AliasAction, current_targets,
}
use qdrant_es_gateway.Admin.Aliases.Topology.{aliases-replay}
use qdrant_es_gateway.Admin.Aliases.Replay.{replay}

abbrev calls : Services (List String)
calls = record {
  mutation = λ method path body log. (ok tt, path ∷ log);
  to_lowercase = λ s. s;
  sort = λ names. names;
  index_capacity = λ db index mapping vectors. ok tt;
  catalog_capacity = λ db. ok tt;
}

abbrev cfg : Config
cfg = record { document_projection = true; qdrant_replication_factor = none }

abbrev action : String → String → String → Value
action kind alias index =
    object
      (field kind (object (field "alias" (string alias) (field "index" (string index) end))) end)

abbrev switch : Value
switch = object (
    field "actions"
      (array (cons (action "add" "current" "b") (cons (action "remove" "current" "a") nil))) end)

abbrev requests : List AdminRequest
requests =
    create "a" (object end)
    ∷ create "b" (object end)
    ∷ create "a" (object end)
    ∷ change_aliases (object (field "actions" (array (cons (action "add" "current" "a") nil)) end))
    ∷ change_aliases switch
    ∷ delete "a"
    ∷ []

abbrev empty_db : ReadView
empty_db = record { indices = []; aliases = [] }

outcome : (handle_all calls cfg requests (empty_db, [])).0.aliases ≡ ("current", "b") ∷ []
unfolding create_index check_index validate_index_name byte_length
    ensure_collection_namespace_available check_existing mapping_vectors field_vectors
    validate_mapping validate_fast_field_namespace collection document_collection normalize
    create_collections put_documents put_field_indices aliases requested_actions parse_actions
    parse_action parse_fields get_index start commit_actions initial_targets targets_of apply_action
    update multiple delete_index check_concrete delete_rows lookup
outcome = refl

handle_all-IsConsistent_example : IsConsistent (handle_all calls cfg requests (empty_db, [])).0
handle_all-IsConsistent_example =
    handle_all-IsConsistent calls cfg requests empty_db []
      (record { separate = tt; distinct = tt; points = tt })

abbrev stored : IndexMetadata
stored = record { mapping = object end; vectors = "text_all" ∷ [] }

abbrev two : ReadView
two = record { indices = ("a", stored) ∷ ("b", stored) ∷ []; aliases = ("current", "a") ∷ [] }

aliases-replay_example :
    (requested : List Value) × (actions : List AliasAction) × (requested_actions switch
      ≡ ok requested)
    × (parse_actions two requested ≡ ok actions)
    × (two.indices ≡ two.indices)
    × ((name : String)
        → current_targets (lookup name (("current", "b") ∷ []))
          ≡ replay name actions (current_targets (lookup name two.aliases)))
unfolding aliases requested_actions parse_actions parse_action parse_fields get_index start
    commit_actions initial_targets targets_of apply_action update multiple lookup
aliases-replay_example =
    aliases-replay (λ db. ok tt) switch two
      {db' = record { indices = two.indices; aliases = ("current", "b") ∷ [] }} refl
