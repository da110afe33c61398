-- ===== src/Admin/Aliases/Laws.antt =====
-- A batch of alias actions keeps the catalog consistent.
use text.Mathlib.TextEquality.{eq_iff}
use qdrant_es_gateway.Prelude.{
  ◌≡◌, ◌⊎◌, ◌∙◌, refl, String, Bool, true, false, List, [], ◌∷◌, Option, none, some, if◌then◌else◌,
  filter, ◌==◌, Bool-cases, Option-cases, eq-cases, All, inl, inr, arith,
}
use qdrant_es_gateway.Errors.{
  Result, not_found, GatewayError, ok, ◌>>◌, >>=-eq-ok, refuse, ok_or-eq-ok,
}
use qdrant_es_gateway.Parse.{concat}
use qdrant_es_gateway.Json.{Value, lookup, contains_key}
use qdrant_es_gateway.Catalog.{IndexMetadata, ReadView, get_key_value}
use qdrant_es_gateway.Admin.Tables.{get_index, coalesce}
use qdrant_es_gateway.Admin.Tables.Laws.{
  DistinctKeys, DistinctKeys-filter, contains_key-erase, Points, IsConsistent,
}
use qdrant_es_gateway.Admin.Indices.{contains}
use qdrant_es_gateway.Admin.Aliases.{
  AliasAction, add, remove, alias_of, parse_fields, parse_action, parse_actions, Targets,
  current_targets, initial_targets, insert_target, remove_target, update, targets_of, Progress,
  apply_action, apply_actions, write_targets, write_topology, requested_actions, start, aliases,
}
use qdrant_es_gateway.Admin.Aliases.Topology.{commit_actions-lem}

All-filter {ℓ κ} :
    {A : Type ℓ} (P : A → Type κ) (p : A → Bool) (xs : List A) → All P xs → All P (filter p xs)
All-filter P p [] h = tt
All-filter P p (x ∷ xs) (e, h) = elim (Bool-cases (p x)) [
  | inl kept ↦ rw kept (e, All-filter P p xs h)
  | inr gone ↦ rw gone (All-filter P p xs h)
]

ok_inj {ℓ} : {A : Type ℓ} {a b : A} → ok a ≡ ok b → a ≡ b
ok_inj h = cc

module _ (indices : List (String × IndexMetadata)) where
  abbrev Exists : String → Type 0
  Exists index = contains_key index indices ≡ true

  -- An alias of the batch: its targets exist, and if it has any, its name is no index.
  abbrev Sound : String × List String → Type 0
  Sound entry = All Exists entry.1 × ((contains_key entry.0 indices ≡ false) ⊎ (entry.1 ≡ []))

  -- The action adds a target that exists to a name that is no index.
  abbrev SoundAction : AliasAction → Type 0
  SoundAction (add alias index) = (contains_key alias indices ≡ false) × Exists index
  SoundAction (remove alias index) = Unit

  insert_target-Sound :
      (alias index : String) (ts : List String)
      → SoundAction (add alias index)
      → Sound (alias, ts)
      → Sound (alias, insert_target index ts)
  insert_target-Sound alias index ts (free, there) (h, k) = elim (Bool-cases (contains ts index)) [
    | inl e ↦ rw e (h, k)
    | inr e ↦ rw e ((there, h), inl free)
  ]

  remove_target-Sound :
      (alias index : String) (ts : List String)
      → Sound (alias, ts)
      → Sound (alias, remove_target index ts)
  remove_target-Sound alias index ts (h, inl free) = (All-filter _ _ ts h, inl free)
  remove_target-Sound alias index ts (h, inr e) = (All-filter _ _ ts h, inr (rw e refl))

  update-Sound :
      (alias : String) (change : List String → List String) (targets : Targets)
      → ((ts : List String) → Sound (alias, ts) → Sound (alias, change ts))
      → All Sound targets
      → All Sound (update alias change targets)
  unfolding update
  update-Sound alias change [] h k = tt
  update-Sound alias change ((key, ts) ∷ rest) h (s, k) = elim (eq-cases key alias) [
    | inl (e, path) ↦ rw (e, path) (h ts (rw path at s), k)
    | inr (e, other) ↦ rw e (s, update-Sound alias change rest h k)
  ]

  apply_action-Sound :
      (action : AliasAction) (p : Progress)
      → SoundAction action
      → All Sound p.targets
      → All Sound (apply_action action p).targets
  unfolding apply_action
  apply_action-Sound (add alias index) p (free, there) h =
      elim (Bool-cases (contains_key alias p.targets)) [
        | inl e ↦ rw e (
            update-Sound alias (insert_target index) p.targets
              (λ ts k. insert_target-Sound alias index ts (free, there) k) h)
        | inr e ↦ rw e (((there, tt), inl free), h)
      ]
  apply_action-Sound (remove alias index) p s h =
      elim (Bool-cases (contains (targets_of alias p.targets) index)) [
        | inl e ↦ rw e (
            update-Sound alias (remove_target index) p.targets
              (λ ts k. remove_target-Sound alias index ts k) h)
        | inr e ↦ rw e h
      ]

  apply_actions-Sound :
      (actions : List AliasAction) (p : Progress)
      → All SoundAction actions
      → All Sound p.targets
      → All Sound (apply_actions actions p).targets
  apply_actions-Sound [] p s h = h
  apply_actions-Sound (action ∷ actions) p (s, ss) h =
      apply_actions-Sound actions (apply_action action p) ss (apply_action-Sound action p s h)

  -- The rows of the table are distinct, and each points from a free name to an index.
  abbrev SoundRows : List (String × String) → Type 0
  SoundRows rows = DistinctKeys rows × All (Points indices) rows

  write_targets-SoundRows :
      (alias : String) (ts : List String) (rows : List (String × String))
      → Sound (alias, ts)
      → SoundRows rows
      → SoundRows (write_targets alias ts rows)
  write_targets-SoundRows alias [] rows s (d, h) =
      (DistinctKeys-filter _ rows d, All-filter _ _ rows h)
  write_targets-SoundRows alias (t ∷ ts) rows ((there, more), inl free) (d, h) = (
    (
      contains_key-erase alias alias rows ∙ ground (arith, eq_iff alias alias),
      DistinctKeys-filter _ rows d,
    ),
    ((free, there), All-filter _ _ rows h),
  )
  write_targets-SoundRows alias (t ∷ ts) rows (s, inr e) h = cc

  write_topology-SoundRows :
      (targets : Targets) (rows : List (String × String))
      → All Sound targets
      → SoundRows rows
      → SoundRows (write_topology targets rows)
  write_topology-SoundRows [] rows s h = h
  write_topology-SoundRows ((alias, ts) ∷ rest) rows (s, ss) h =
      write_topology-SoundRows rest (write_targets alias ts rows) ss
        (write_targets-SoundRows alias ts rows s h)

  choice-SoundAction :
      (alias index : String) (adds taken : Bool) (e : GatewayError) {action : AliasAction}
      → Exists index
      → contains_key alias indices ≡ taken
      → (if adds then refuse taken e >> ok (add alias index) else ok (remove alias index))
        ≡ ok action
      → SoundAction action
  choice-SoundAction alias index true true e there c h = cc
  choice-SoundAction alias index true false e there c h = rw (← ok_inj h) (c, there)
  choice-SoundAction alias index false taken e there c h = rw (← ok_inj h) tt

  lookup-Points :
      (alias : String) (rows : List (String × String)) {index : String}
      → All (Points indices) rows
      → lookup alias rows ≡ some index
      → Points indices (alias, index)
  unfolding lookup
  lookup-Points alias [] h e = absurd (ground arith)
  lookup-Points alias ((k, v) ∷ rows) {index} (p, h) e = elim (eq-cases k alias) [
    | inl (same, path) ↦ let value : v ≡ index = ground arith in (rw path at p.0, rw value at p.1)
    | inr (other, distinct) ↦ lookup-Points alias rows h (rw other at e)
  ]

  current-Sound :
      (alias : String) (rows : List (String × String))
      → All (Points indices) rows
      → Sound (alias, current_targets (lookup alias rows))
  current-Sound alias rows h = elim (Option-cases (lookup alias rows)) [
    | inl e ↦ rw e (tt, inr refl)
    | inr (index, e) ↦
        let (free, there) = lookup-Points alias rows h e in rw e ((there, tt), inl free)
  ]

initial_targets-Sound :
    (db : ReadView) (actions : List AliasAction)
    → All (Points db.indices) db.aliases
    → All (Sound db.indices) (initial_targets db actions)
unfolding initial_targets
initial_targets-Sound db [] h = tt
initial_targets-Sound db (action ∷ actions) h =
    elim (Bool-cases (contains_key (alias_of action) (initial_targets db actions))) [
      | inl e ↦ rw e (initial_targets-Sound db actions h)
      | inr e ↦ rw e (
        current-Sound db.indices (alias_of action) db.aliases h,
        initial_targets-Sound db actions h,
      )
    ]

or_key : (b : Bool) {c : Bool} → c ≡ true → (if b then true else c) ≡ true
or_key true h = refl
or_key false h = h

lookup-found :
    (name : String) (rows : List (String × IndexMetadata)) {index : String} {stored : IndexMetadata}
    → get_key_value name rows ≡ some (index, stored)
    → contains_key index rows ≡ true
unfolding lookup
lookup-found name [] h = absurd (ground arith)
lookup-found name ((k, v) ∷ rows) {index} h = elim (Bool-cases (k == name)) [
  | inl e ↦ ground (arith, eq_iff k name, eq_iff k index)
  | inr e ↦
      let ih : contains_key index rows ≡ true =
        lookup-found name rows (rw (e, get_key_value) at h) in
      or_key (k == index) ih
]

get_index-found :
    (db : ReadView) (name : String) {index : String} {stored : IndexMetadata}
    → get_index db name ≡ ok (index, stored)
    → contains_key index db.indices ≡ true
unfolding get_index
get_index-found db name {index} {stored} h =
    let row = ok_or-eq-ok _ (not_found (concat "no such index [" (concat name "]"))) h in
    found_row (coalesce _ (lookup name db.aliases)) row
  where
    found_row :
        (target : Option String)
        → (elim target [ none ↦ none | some index' ↦ get_key_value index' db.indices ])
          ≡ some (index, stored)
        → contains_key index db.indices ≡ true
    found_row none e = absurd (ground arith)
    found_row (some target) e = lookup-found target db.indices e

parse_action-SoundAction :
    (db : ReadView) (value : Value) {action : AliasAction}
    → parse_action db value ≡ ok action
    → SoundAction db.indices action
unfolding parse_action
parse_action-SoundAction db value h =
    let (r, shaped, rest) = >>=-eq-ok (parse_fields value) _ h in
    let ((index, stored), found, made) = >>=-eq-ok (get_index db r.index) _ rest in
    choice-SoundAction db.indices r.alias index (r.kind == "add") (contains_key r.alias db.indices)
      _ (get_index-found db r.index found) refl made

parse_actions-SoundAction :
    (db : ReadView) (values : List Value) {actions : List AliasAction}
    → parse_actions db values ≡ ok actions
    → All (SoundAction db.indices) actions
unfolding parse_actions
parse_actions-SoundAction db [] h = rw (← ok_inj h) tt
parse_actions-SoundAction db (value ∷ values) h =
    let (action, first, rest) = >>=-eq-ok (parse_action db value) _ h in
    let (actions, later, all_of) = >>=-eq-ok (parse_actions db values) _ rest in
    rw (← ok_inj all_of)
      (parse_action-SoundAction db value first, parse_actions-SoundAction db values later)

-- An accepted batch keeps the catalog consistent.
pub aliases-IsConsistent :
    (capacity : ReadView → Result (Unit {0})) (body : Value) (db : ReadView) {db' : ReadView}
    → aliases capacity body db ≡ ok db'
    → IsConsistent db
    → IsConsistent db'
unfolding aliases start
aliases-IsConsistent capacity body db h c =
    let (requested, asked, rest) = >>=-eq-ok (requested_actions body) _ h in
    let (actions, parsed, committed) = >>=-eq-ok (parse_actions db requested) _ rest in
    let (single, same) = commit_actions-lem capacity db actions _ committed in
    let rows =
      write_topology-SoundRows db.indices (apply_actions actions (start db actions)).targets
        db.aliases
        (apply_actions-Sound db.indices actions (start db actions)
          (parse_actions-SoundAction db requested parsed)
          (initial_targets-Sound db actions c.points))
        (c.distinct, c.points) in
    rw (← same) (record { separate = c.separate; distinct = rows.0; points = rows.1 })
