-- ===== src/Admin/Laws.antt =====
-- The catalog stays consistent along every run of administrators' requests.
use qdrant_es_gateway.Prelude.{◌≡◌, refl, List, [], ◌∷◌}
use qdrant_es_gateway.Errors.{Result, ok, err}
use qdrant_es_gateway.Catalog.{ReadView}
use qdrant_es_gateway.Admin.{
  AdminRequest, create, delete, change_aliases, accepted_or, Services, handle, handle_all,
}
use qdrant_es_gateway.Admin.Indices.{Config}
use qdrant_es_gateway.Admin.Indices.Laws.{create_index-IsConsistent, delete_index-IsConsistent}
use qdrant_es_gateway.Admin.Aliases.{aliases}
use qdrant_es_gateway.Admin.Aliases.Laws.{aliases-IsConsistent}
use qdrant_es_gateway.Admin.Tables.Laws.{IsConsistent}

accepted_or-IsConsistent :
    (db : ReadView) (answer : Result ReadView)
    → ((db' : ReadView) → answer ≡ ok db' → IsConsistent db')
    → IsConsistent db
    → IsConsistent (accepted_or db answer)
accepted_or-IsConsistent db (ok db') h c = h db' refl
accepted_or-IsConsistent db (err e) h c = c

module _ {Q : Type 0} (services : Services Q) (cfg : Config) where
  handle-IsConsistent :
      (request : AdminRequest) (db : ReadView) (q : Q)
      → IsConsistent db
      → IsConsistent (handle services cfg request (db, q)).0
  handle-IsConsistent (create index body) db q c =
      create_index-IsConsistent services.mutation services.to_lowercase services.sort
        services.index_capacity cfg index body db q c
  handle-IsConsistent (delete index) db q c =
      delete_index-IsConsistent services.mutation cfg index db q c
  handle-IsConsistent (change_aliases body) db q c =
      accepted_or-IsConsistent db (aliases services.catalog_capacity body db)
        (λ db' h. aliases-IsConsistent services.catalog_capacity body db h c) c

  -- From a consistent catalog, and whatever Qdrant answers, every sequence of requests to create
  -- and delete indices and to change aliases leaves a consistent one: no two indices share a
  -- collection of Qdrant, every alias points to one index that exists, and no alias has the name
  -- of an index.
  pub handle_all-IsConsistent :
      (requests : List AdminRequest) (db : ReadView) (q : Q)
      → IsConsistent db
      → IsConsistent (handle_all services cfg requests (db, q)).0
  handle_all-IsConsistent [] db q c = c
  handle_all-IsConsistent (request ∷ requests) db q c =
      let next = handle services cfg request (db, q) in
      handle_all-IsConsistent requests next.0 next.1 (handle-IsConsistent request db q c)
