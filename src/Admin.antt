-- ===== src/Admin.antt =====
-- Administration of the indices and aliases (src/main.rs).
pub mod Names
pub mod Tables
pub mod Indices
pub mod Aliases
pub mod Laws
mod Tests
use qdrant_es_gateway.Prelude.{String, List, [], ◌∷◌, Option}
use qdrant_es_gateway.Errors.{Result, ok, err}
use qdrant_es_gateway.Json.{Value}
use qdrant_es_gateway.Catalog.{ReadView}
use qdrant_es_gateway.Admin.Indices.{Config, Method, create_index, delete_index}
use qdrant_es_gateway.Admin.Aliases.{aliases}

-- The requests of administrators; the lock `index_admin` lets one run at a time.
pub data AdminRequest : Type 0 where
  create : (index : String) (body : Value) → AdminRequest
  delete : (index : String) → AdminRequest
  change_aliases : (body : Value) → AdminRequest

abbrev pub accepted_or : ReadView → Result ReadView → ReadView
accepted_or db (ok db') = db'
accepted_or db (err e) = db

-- What an administrator's gateway is given: the functions that stand for code of others.
pub record Services (Q : Type 0) : Type 0 where
  pub mutation : Method → String → Option Value → Q → Result (Unit {0}) × Q
  pub to_lowercase : String → String
  pub sort : List String → List String
  pub index_capacity : ReadView → String → Value → List String → Result (Unit {0})
  pub catalog_capacity : ReadView → Result (Unit {0})

module _ {Q : Type 0} (services : Services Q) (cfg : Config) where
  -- The catalog and Qdrant after a request.
  abbrev pub handle : AdminRequest → ReadView × Q → ReadView × Q
  handle (create index body) (db, q) =
      let answer =
        create_index services.mutation services.to_lowercase services.sort services.index_capacity
          cfg index body db q in
      (answer.1, answer.2)
  handle (delete index) (db, q) =
      let answer = delete_index services.mutation cfg index db q in (answer.1, answer.2)
  handle (change_aliases body) (db, q) =
      (accepted_or db (aliases services.catalog_capacity body db), q)

  abbrev pub handle_all : List AdminRequest → ReadView × Q → ReadView × Q
  handle_all [] state = state
  handle_all (request ∷ requests) state = handle_all requests (handle request state)
