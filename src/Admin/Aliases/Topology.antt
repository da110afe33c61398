-- ===== src/Admin/Aliases/Topology.antt =====
-- A batch of alias actions leaves each alias with the targets that the actions on it, in their
-- order, make of the target that it had.
use text.Mathlib.TextEquality.{eq_iff}
use qdrant_es_gateway.Prelude.{
  ◌≡◌, ◌∙◌, refl, sym, ap, String, false, not, ◌&&◌, List, [], ◌∷◌, Option, none, some,
  if◌then◌else◌, ltb, length, ◌==◌, is_empty, Bool-cases, head?, inl, inr, arith,
}
use qdrant_es_gateway.Errors.{Result, ok, aliases_not_found, >>=-eq-ok, refuse-eq-ok}
use qdrant_es_gateway.Json.{Value, lookup, contains_key}
use qdrant_es_gateway.Catalog.{ReadView}
use qdrant_es_gateway.Admin.Tables.{erase}
use qdrant_es_gateway.Admin.Tables.Laws.{DistinctKeys}
use qdrant_es_gateway.Admin.Aliases.{
  AliasAction, parse_actions, Targets, current_targets, targets_of, Progress, apply_actions,
  multiple, refuse_multiple, requested_actions, start, with_aliases, commit_actions, write_targets,
  write_topology, aliases,
}
use qdrant_es_gateway.Admin.Aliases.Replay.{
  replay, absent-targets, targets_of-cons, apply_actions-replay, named, initial_targets-named,
  initial_targets-DistinctKeys, initial_targets_lem, unnamed-replay, apply_actions-contains_key,
  apply_actions-DistinctKeys, initial_targets-All,
}

lookup-erase :
    (wanted key : String) (rows : List (String × String))
    → lookup wanted (erase key rows) ≡ (if key == wanted then none else lookup wanted rows)
unfolding lookup
lookup-erase wanted key [] = ground arith
lookup-erase wanted key ((k, v) ∷ rows) =
    ground (arith, lookup-erase wanted key rows, eq_iff k key, eq_iff key wanted, eq_iff k wanted)

lookup-write_targets :
    (name alias : String) (targets : List String) (rows : List (String × String))
    → lookup name (write_targets alias targets rows)
      ≡ (if alias == name then head? targets else lookup name rows)
unfolding lookup
lookup-write_targets name alias [] rows = lookup-erase name alias rows
lookup-write_targets name alias (index ∷ more) rows = ground (arith, lookup-erase name alias rows)

lookup-write_topology :
    (name : String) (targets : Targets) (rows : List (String × String))
    → DistinctKeys targets
    → lookup name (write_topology targets rows)
      ≡ (if contains_key name targets then head? (targets_of name targets) else lookup name rows)
lookup-write_topology name [] rows h = refl
lookup-write_topology name ((alias, ts) ∷ rest) rows (e, h) =
    lookup-write_topology name rest (write_targets alias ts rows) h
    ∙ ground (
      arith,
      lookup-write_targets name alias ts rows,
      targets_of-cons name alias ts rest,
      eq_iff alias name,
    )

single-list : (ts : List String) → ltb 1 (length ts) ≡ false → current_targets (head? ts) ≡ ts
single-list [] h = refl
single-list (t ∷ []) h = refl
single-list (t ∷ u ∷ ts) h = absurd (ground arith)

single-targets :
    (name : String) (targets : Targets)
    → multiple targets ≡ none
    → current_targets (head? (targets_of name targets)) ≡ targets_of name targets
unfolding multiple
single-targets name [] h = rw (absent-targets name [] refl) refl
single-targets name ((alias, ts) ∷ rest) h =
    rw (targets_of-cons name alias ts rest) elim (Bool-cases (ltb 1 (length ts))) [
      | inl several ↦ absurd (ground arith)
      | inr one ↦ elim (Bool-cases (alias == name)) [
        | inl e ↦ rw e (single-list ts one)
        | inr e ↦ rw e (single-targets name rest (ground arith))
      ]
    ]

module _ (db : ReadView) (actions : List AliasAction) (name : String) where
  final_targets : Targets
  final_targets = (apply_actions actions (start db actions)).targets

  final-named : contains_key name final_targets ≡ named name actions
  unfolding start final_targets
  final-named =
      apply_actions-contains_key name actions (start db actions) (initial_targets-All db actions)
      ∙ initial_targets-named db name actions

  final-replay :
      targets_of name final_targets
      ≡ replay name actions
          (if named name actions then current_targets (lookup name db.aliases) else [])
  unfolding start final_targets
  final-replay =
      apply_actions-replay name actions (start db actions)
      ∙ ap (replay name actions) (initial_targets_lem db name actions)

  final-DistinctKeys : DistinctKeys final_targets
  unfolding start final_targets
  final-DistinctKeys =
      apply_actions-DistinctKeys actions (start db actions)
        (initial_targets-DistinctKeys db actions)

  -- The table after the actions.
  written_lem :
      multiple final_targets ≡ none
      → current_targets (lookup name (write_topology final_targets db.aliases))
        ≡ replay name actions (current_targets (lookup name db.aliases))
  written_lem single =
      ap current_targets (lookup-write_topology name final_targets db.aliases final-DistinctKeys)
      ∙ elim (Bool-cases (named name actions)) [
        | inl e ↦
            rw (final-named, e) (single-targets name final_targets single ∙ rw e at final-replay)
        | inr e ↦
            rw (final-named, e)
              (sym (unnamed-replay name actions (current_targets (lookup name db.aliases)) e))
      ]

refuse_multiple-none : (o : Option String) → refuse_multiple o ≡ ok tt → o ≡ none
refuse_multiple-none none h = refl
refuse_multiple-none (some alias) h = cc

pub commit_actions-lem :
    (capacity : ReadView → Result (Unit {0})) (db : ReadView) (actions : List AliasAction)
    (p : Progress) {db' : ReadView}
    → commit_actions capacity db actions p ≡ ok db'
    → (multiple p.targets ≡ none) × (with_aliases db (write_topology p.targets db.aliases) ≡ db')
unfolding commit_actions
commit_actions-lem capacity db actions p h =
    let written = with_aliases db (write_topology p.targets db.aliases) in
    let (a, single, rest) = >>=-eq-ok (refuse_multiple (multiple p.targets)) _ h in
    let (done, more) =
      refuse-eq-ok (not (is_empty actions) && not p.successful_action)
        (aliases_not_found p.missing_aliases) _ rest in
    let (b, fits, last) = >>=-eq-ok (capacity written) _ more in
    (refuse_multiple-none (multiple p.targets) single, ground arith)

-- After an accepted batch the indices are unchanged, and every alias points to what the actions on
-- it, in the order of the batch, make of the index that it pointed to: at most one index, and none
-- for an alias that is gone.
pub aliases-replay :
    (capacity : ReadView → Result (Unit {0})) (body : Value) (db : ReadView) {db' : ReadView}
    → aliases capacity body db ≡ ok db'
    → (requested : List Value) × (actions : List AliasAction) × (requested_actions body
        ≡ ok requested)
      × (parse_actions db requested ≡ ok actions)
      × (db'.indices ≡ db.indices)
      × ((name : String)
          → current_targets (lookup name db'.aliases)
            ≡ replay name actions (current_targets (lookup name db.aliases)))
unfolding aliases final_targets
aliases-replay capacity body db h =
    let (requested, asked, rest) = >>=-eq-ok (requested_actions body) _ h in
    let (actions, parsed, committed) = >>=-eq-ok (parse_actions db requested) _ rest in
    let (single, same) = commit_actions-lem capacity db actions _ committed in
    (
      requested,
      actions,
      asked,
      parsed,
      ap (λ (t : ReadView). t.indices) (sym same),
      λ name.
          ap (λ (t : ReadView). current_targets (lookup name t.aliases)) (sym same)
          ∙ written_lem db actions name single,
    )
