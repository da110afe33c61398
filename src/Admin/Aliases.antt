-- ===== src/Admin/Aliases.antt =====
-- The batch of alias actions: `aliases` of src/main.rs. A `HashSet` is a list of distinct texts, and
-- the `HashMap` of the targets has its entries in the order in which the batch names the aliases: the
-- order decides only which alias an error names. `capacity` is
-- `shared_catalog::validate_catalog_capacity`.
pub mod Laws
pub mod Replay
pub mod Topology
use qdrant_es_gateway.Prelude.{
  ℕ, String, Bool, true, false, not, ◌&&◌, ◌||◌, List, [], ◌∷◌, ◌++◌, map, Option, none, some,
  if◌then◌else◌, ltb, length, any, filter, ◌==◌, is_empty, codes, lex,
}
use qdrant_es_gateway.Errors.{
  Result, ok, err, bad, illegal_argument, aliases_not_found, GatewayError, ◌>>=◌, ◌>>◌, refuse,
  ok_or,
}
use qdrant_es_gateway.Parse.{concat}
use qdrant_es_gateway.Json.{
  Value, Map, get, lookup, contains_key, keys, as_object, as_array, as_str, is_less,
}
use qdrant_es_gateway.Query.PostFilter.{as_str_of}
use qdrant_es_gateway.Catalog.{ReadView}
use qdrant_es_gateway.Admin.Tables.{erase, upsert, get_index}
use qdrant_es_gateway.Admin.Indices.{contains}

pub data AliasAction : Type 0 where
  add : (alias index : String) → AliasAction
  remove : (alias index : String) → AliasAction

abbrev pub alias_of : AliasAction → String
alias_of (add alias index) = alias
alias_of (remove alias index) = alias

abbrev one_action : Value → Result (String × Value)
one_action action = elim (as_object action) [
  | some ((kind, metadata) ∷ []) ↦ ok (kind, metadata)
  | _ ↦ err (bad "_aliases.action" "each alias action must contain exactly one action")
]

-- The least of the options that are not supported; the keys of a `Map` are in order.
abbrev other_option : List String → Option String
other_option [] = none
other_option (key ∷ rest) = if key == "index" || key == "alias" then other_option rest else some key

abbrev refuse_option : String → Option String → Result (Unit {0})
refuse_option kind none = ok tt
refuse_option kind (some option) = err (
    bad (concat "_aliases." (concat kind (concat "." option))) (
      concat "alias action option [" (
        concat option
          "] is not supported; only unfiltered, unrouted, single-target aliases are supported")))

abbrev pub action_of : ReadView → String → String → String → Result AliasAction
action_of db kind alias index =
    if kind == "add"
    then refuse (contains_key alias db.indices) (
        bad "_aliases.add.alias"
          (concat "alias [" (concat alias "] conflicts with an existing index")))
      >> ok (add alias index)
    else ok (remove alias index)

pub record Requested : Type 0 where
  pub kind : String
  pub alias : String
  pub index : String

-- What an action asks for, and the checks of its shape.
unfoldable pub parse_fields : Value → Result Requested
parse_fields action = do
  (kind, value) ← one_action action
  refuse (not (kind == "add") && not (kind == "remove"))
      (bad "_aliases.action" (concat "unsupported alias action [" (concat kind "]")))
  metadata ←
      ok_or (as_object value)
        (bad (concat "_aliases." kind) "alias action metadata must be an object")
  refuse_option kind (other_option (keys metadata))
  alias ←
      ok_or (as_str_of (lookup "alias" metadata))
        (bad (concat "_aliases." (concat kind ".alias")) "missing string alias")
  index ←
      ok_or (as_str_of (lookup "index" metadata))
        (bad (concat "_aliases." (concat kind ".index")) "missing string index")
  ok (record { kind = kind; alias = alias; index = index })

-- The body of the loop over the requested actions.
unfoldable pub parse_action : ReadView → Value → Result AliasAction
parse_action db action = do
  requested ← parse_fields action
  (index, stored) ← get_index db requested.index
  action_of db requested.kind requested.alias index

unfoldable pub parse_actions : ReadView → List Value → Result (List AliasAction)
parse_actions db [] = ok []
parse_actions db (action ∷ actions) = do
  parsed ← parse_action db action
  rest ← parse_actions db actions
  ok (parsed ∷ rest)

abbrev pub Targets : Type 0
Targets = List (String × List String)

abbrev pub current_targets : Option String → List String
current_targets none = []
current_targets (some index) = index ∷ []

-- `final_targets` before the actions: each alias of the batch once, with its target.
unfoldable pub initial_targets : ReadView → List AliasAction → Targets
initial_targets db [] = []
initial_targets db (action ∷ actions) =
    let rest = initial_targets db actions in
    if contains_key (alias_of action) rest
    then rest
    else (alias_of action, current_targets (lookup (alias_of action) db.aliases)) ∷ rest

abbrev pub insert_target : String → List String → List String
insert_target index targets = if contains targets index then targets else index ∷ targets

abbrev pub remove_target : String → List String → List String
remove_target index targets = filter (λ target. not (target == index)) targets

-- `get_mut`, and a change of what it finds.
unfoldable pub update : String → (List String → List String) → Targets → Targets
update alias change [] = []
update alias change ((key, targets) ∷ rest) =
    if key == alias then (key, change targets) ∷ rest else (key, targets) ∷ update alias change rest

unfoldable pub targets_of : String → Targets → List String
targets_of alias targets = elim (lookup alias targets) [ none ↦ [] | some indices ↦ indices ]

-- `entry(alias).or_default()`, and a change of what it is.
abbrev pub update_or_default : String → (List String → List String) → Targets → Targets
update_or_default alias change targets =
    if contains_key alias targets then update alias change targets else (alias, change []) ∷ targets

-- `missing_aliases`, kept sorted as it is reported.
unfoldable pub insert_name : String → List String → List String
insert_name name [] = name ∷ []
insert_name name (other ∷ names) =
    if other == name
    then other ∷ names
    else if is_less (lex (codes name) (codes other))
    then name ∷ other ∷ names
    else other ∷ insert_name name names

pub record Progress : Type 0 where
  pub targets : Targets
  pub successful_action : Bool
  pub missing_aliases : List String

unfoldable pub apply_action : AliasAction → Progress → Progress
apply_action (add alias index) p = record p {
  targets = update_or_default alias (insert_target index) p.targets;
  successful_action = true;
}
apply_action (remove alias index) p =
    if contains (targets_of alias p.targets) index
    then record p {
      targets = update alias (remove_target index) p.targets;
      successful_action = true;
    }
    else record p { missing_aliases = insert_name alias p.missing_aliases }

abbrev pub apply_actions : List AliasAction → Progress → Progress
apply_actions [] p = p
apply_actions (action ∷ actions) p = apply_actions actions (apply_action action p)

-- The first alias with more than one target.
unfoldable pub multiple : Targets → Option String
multiple [] = none
multiple ((alias, targets) ∷ rest) = if ltb 1 (length targets) then some alias else multiple rest

abbrev pub refuse_multiple : Option String → Result (Unit {0})
refuse_multiple none = ok tt
refuse_multiple (some alias) = err (
    bad "_aliases.add.alias" (
      concat "multi-index alias [" (
        concat alias
          "] is unsupported; remove its current index and add the replacement in the same request")))

abbrev pub write_targets : String → List String → List (String × String) → List (String × String)
write_targets alias [] rows = erase alias rows
write_targets alias (index ∷ more) rows = upsert alias index rows

-- The statements of the transaction.
abbrev pub write_topology : Targets → List (String × String) → List (String × String)
write_topology [] rows = rows
write_topology ((alias, targets) ∷ rest) rows =
    write_topology rest (write_targets alias targets rows)

unfoldable pub requested_actions : Value → Result (List Value)
requested_actions body = do
  value ← ok_or (get "actions" body) (illegal_argument "No action specified")
  actions ← ok_or (as_array value) (bad "_aliases" "actions must be an array")
  refuse (is_empty actions) (illegal_argument "No action specified")
  ok actions

-- The progress before the first action.
unfoldable pub start : ReadView → List AliasAction → Progress
start db actions = record {
  targets = initial_targets db actions;
  successful_action = false;
  missing_aliases = [];
}

abbrev pub with_aliases : ReadView → List (String × String) → ReadView
with_aliases db rows = record db { aliases = rows }

-- The checks of the final topology, and the transaction.
unfoldable pub commit_actions :
    (ReadView → Result (Unit {0})) → ReadView → List AliasAction → Progress → Result ReadView
commit_actions capacity db actions p = do
  refuse_multiple (multiple p.targets)
  refuse (not (is_empty actions) && not p.successful_action) (aliases_not_found p.missing_aliases)
  capacity (with_aliases db (write_topology p.targets db.aliases))
  ok (with_aliases db (write_topology p.targets db.aliases))

-- The handler: the tables after it, or an error, on which the tables stay.
unfoldable pub aliases : (ReadView → Result (Unit {0})) → Value → ReadView → Result ReadView
aliases capacity body db = do
  requested ← requested_actions body
  actions ← parse_actions db requested
  commit_actions capacity db actions (apply_actions actions (start db actions))
