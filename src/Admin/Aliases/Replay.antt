-- ===== src/Admin/Aliases/Replay.antt =====
-- The targets of each alias during a batch evolve by the actions on it.
use text.Mathlib.TextEquality.{eq_iff}
use qdrant_es_gateway.Prelude.{
  ◌≡◌, ◌∙◌, refl, sym, ap, String, Bool, true, false, ◌&&◌, List, [], ◌∷◌, if◌then◌else◌, any, ◌==◌,
  Bool-cases, eq-cases, All, All-map, inl, inr, arith,
}
use qdrant_es_gateway.Json.{lookup, contains_key}
use qdrant_es_gateway.Catalog.{ReadView}
use qdrant_es_gateway.Admin.Tables.Laws.{DistinctKeys}
use qdrant_es_gateway.Admin.Indices.{contains}
use qdrant_es_gateway.Admin.Aliases.{
  AliasAction, add, remove, alias_of, Targets, current_targets, initial_targets, insert_target,
  remove_target, update, targets_of, update_or_default, Progress, apply_action, apply_actions,
}

-- What the actions on one alias make of its targets.
abbrev pub replayed : String → AliasAction → List String → List String
replayed name (add alias index) targets =
    if alias == name then insert_target index targets else targets
replayed name (remove alias index) targets =
    if alias == name then remove_target index targets else targets

abbrev pub replay : String → List AliasAction → List String → List String
replay name [] targets = targets
replay name (action ∷ actions) targets = replay name actions (replayed name action targets)

targets_of-update :
    (name alias : String) (change : List String → List String) (targets : Targets)
    → targets_of name (update alias change targets) ≡ (
        if contains_key alias targets && (alias == name)
        then change (targets_of name targets)
        else targets_of name targets)
unfolding update lookup targets_of
targets_of-update name alias change [] = refl
targets_of-update name alias change ((key, ts) ∷ rest) = ground (
  arith,
  targets_of-update name alias change rest,
  eq_iff key alias,
  eq_iff key name,
  eq_iff alias name,
)

contains_key-update :
    (name alias : String) (change : List String → List String) (targets : Targets)
    → contains_key name (update alias change targets) ≡ contains_key name targets
unfolding update
contains_key-update name alias change [] = refl
contains_key-update name alias change ((key, ts) ∷ rest) =
    ground (arith, contains_key-update name alias change rest)

DistinctKeys-update :
    (alias : String) (change : List String → List String) (targets : Targets)
    → DistinctKeys targets
    → DistinctKeys (update alias change targets)
unfolding update
DistinctKeys-update alias change [] h = tt
DistinctKeys-update alias change ((key, ts) ∷ rest) (e, h) = elim (Bool-cases (key == alias)) [
  | inl same ↦ rw same (e, h)
  | inr other ↦
      rw other
        (contains_key-update key alias change rest ∙ e, DistinctKeys-update alias change rest h)
]

remove_target-absent :
    (index : String) (targets : List String)
    → contains targets index ≡ false
    → remove_target index targets ≡ targets
remove_target-absent index [] h = refl
remove_target-absent index (t ∷ targets) h = ground (arith, remove_target-absent index targets)

pub absent-targets :
    (name : String) (targets : Targets)
    → contains_key name targets ≡ false
    → targets_of name targets ≡ []
unfolding lookup targets_of
absent-targets name [] h = refl
absent-targets name ((key, ts) ∷ rest) h = ground (arith, absent-targets name rest)

pub targets_of-cons :
    (name key : String) (ts : List String) (rest : Targets)
    → targets_of name ((key, ts) ∷ rest) ≡ (if key == name then ts else targets_of name rest)
unfolding targets_of lookup
targets_of-cons name key ts rest = ground arith

added :
    (name alias : String) (change : List String → List String) (targets : Targets)
    → contains_key alias targets ≡ false
    → targets_of name ((alias, change []) ∷ targets)
      ≡ (if alias == name then change (targets_of name targets) else targets_of name targets)
added name alias change targets e =
    targets_of-cons name alias (change []) targets ∙ elim (eq-cases alias name) [
      | inl (same, path) ↦
          let none_yet : targets_of name targets ≡ [] =
            absent-targets name targets (rw path at e) in
          rw (same, none_yet) refl
      | inr (other, distinct) ↦ rw other refl
    ]

targets_of-update_or_default :
    (name alias : String) (change : List String → List String) (targets : Targets)
    → targets_of name (update_or_default alias change targets)
      ≡ (if alias == name then change (targets_of name targets) else targets_of name targets)
targets_of-update_or_default name alias change targets =
    elim (Bool-cases (contains_key alias targets)) [
      | inl e ↦ rw e (targets_of-update name alias change targets ∙ rw e refl)
      | inr e ↦ rw e (added name alias change targets e)
    ]

removed :
    (name alias index : String) (targets : Targets)
    → (if contains_key alias targets && (alias == name)
        then remove_target index (targets_of name targets)
        else targets_of name targets)
      ≡ (if alias == name
          then remove_target index (targets_of name targets)
          else targets_of name targets)
removed name alias index targets = elim (Bool-cases (contains_key alias targets)) [
  | inl e ↦ rw e refl
  | inr e ↦ elim (eq-cases alias name) [
    | inl (same, path) ↦
        let none_left : targets_of name targets ≡ [] = absent-targets name targets (rw path at e) in
        rw (e, same, none_left) refl
    | inr (other, distinct) ↦ rw (e, other) refl
  ]
]

pub unchanged :
    (name alias index : String) (targets : Targets)
    → contains (targets_of alias targets) index ≡ false
    → targets_of name targets ≡ (
        if alias == name
        then remove_target index (targets_of name targets)
        else targets_of name targets)
unchanged name alias index targets absent = elim (eq-cases alias name) [
  | inl (same, path) ↦
      rw same (sym (remove_target-absent index (targets_of name targets) (rw path at absent)))
  | inr (other, distinct) ↦ rw other refl
]

apply_action-replayed :
    (name : String) (action : AliasAction) (p : Progress)
    → targets_of name (apply_action action p).targets
      ≡ replayed name action (targets_of name p.targets)
unfolding apply_action
apply_action-replayed name (add alias index) p =
    targets_of-update_or_default name alias (insert_target index) p.targets
apply_action-replayed name (remove alias index) p =
    elim (Bool-cases (contains (targets_of alias p.targets) index)) [
      | inl there ↦ rw there (
          targets_of-update name alias (remove_target index) p.targets
          ∙ removed name alias index p.targets)
      | inr absent ↦ rw absent (unchanged name alias index p.targets absent)
    ]

-- The targets of an alias evolve by the actions on it.
pub apply_actions-replay :
    (name : String) (actions : List AliasAction) (p : Progress)
    → targets_of name (apply_actions actions p).targets
      ≡ replay name actions (targets_of name p.targets)
apply_actions-replay name [] p = refl
apply_actions-replay name (action ∷ actions) p =
    apply_actions-replay name actions (apply_action action p)
    ∙ ap (replay name actions) (apply_action-replayed name action p)

abbrev pub named : String → List AliasAction → Bool
named name actions = any (λ action. alias_of action == name) actions

pub initial_targets-named :
    (db : ReadView) (name : String) (actions : List AliasAction)
    → contains_key name (initial_targets db actions) ≡ named name actions
unfolding initial_targets
initial_targets-named db name [] = refl
initial_targets-named db name (action ∷ actions) = ground (
  arith,
  initial_targets-named db name actions,
  initial_targets-named db (alias_of action) actions,
  eq_iff (alias_of action) name,
)

pub initial_targets-DistinctKeys :
    (db : ReadView) (actions : List AliasAction) → DistinctKeys (initial_targets db actions)
unfolding initial_targets
initial_targets-DistinctKeys db [] = tt
initial_targets-DistinctKeys db (action ∷ actions) =
    elim (Bool-cases (contains_key (alias_of action) (initial_targets db actions))) [
      | inl e ↦ rw e (initial_targets-DistinctKeys db actions)
      | inr e ↦ rw e (e, initial_targets-DistinctKeys db actions)
    ]

pub initial_targets_lem :
    (db : ReadView) (name : String) (actions : List AliasAction)
    → targets_of name (initial_targets db actions)
      ≡ (if named name actions then current_targets (lookup name db.aliases) else [])
unfolding initial_targets
initial_targets_lem db name [] = absent-targets name [] refl
initial_targets_lem db name (action ∷ actions) =
    elim (Bool-cases (contains_key (alias_of action) (initial_targets db actions))) [
      | inl e ↦ rw e (
          ground (
            arith,
            initial_targets_lem db name actions,
            initial_targets-named db name actions,
            eq_iff (alias_of action) name,
          ))
      | inr e ↦ rw e (
          targets_of-cons name (alias_of action) _ (initial_targets db actions)
          ∙ ground (
            arith,
            initial_targets_lem db name actions,
            initial_targets-named db name actions,
            eq_iff (alias_of action) name,
          ))
    ]

pub unnamed-replay :
    (name : String) (actions : List AliasAction) (targets : List String)
    → named name actions ≡ false
    → replay name actions targets ≡ targets
unnamed-replay name [] targets h = refl
unnamed-replay name (add alias index ∷ actions) targets h = elim (Bool-cases (alias == name)) [
  | inl e ↦ absurd (ground arith)
  | inr e ↦ rw e (unnamed-replay name actions targets (rw e at h))
]
unnamed-replay name (remove alias index ∷ actions) targets h = elim (Bool-cases (alias == name)) [
  | inl e ↦ absurd (ground arith)
  | inr e ↦ rw e (unnamed-replay name actions targets (rw e at h))
]

-- Actions add no alias that is not in the map.
apply_action-DistinctKeys :
    (action : AliasAction) (p : Progress)
    → DistinctKeys p.targets
    → DistinctKeys (apply_action action p).targets
unfolding apply_action
apply_action-DistinctKeys (add alias index) p h = elim (Bool-cases (contains_key alias p.targets)) [
  | inl e ↦ rw e (DistinctKeys-update alias (insert_target index) p.targets h)
  | inr e ↦ rw e (e, h)
]
apply_action-DistinctKeys (remove alias index) p h =
    elim (Bool-cases (contains (targets_of alias p.targets) index)) [
      | inl e ↦ rw e (DistinctKeys-update alias (remove_target index) p.targets h)
      | inr e ↦ rw e h
    ]

apply_action-contains_key :
    (name : String) (action : AliasAction) (p : Progress)
    → contains_key (alias_of action) p.targets ≡ true
    → contains_key name (apply_action action p).targets ≡ contains_key name p.targets
unfolding apply_action
apply_action-contains_key name (add alias index) p h =
    rw (h, contains_key-update name alias (insert_target index) p.targets) refl
apply_action-contains_key name (remove alias index) p h =
    elim (Bool-cases (contains (targets_of alias p.targets) index)) [
      | inl e ↦ rw (e, contains_key-update name alias (remove_target index) p.targets) refl
      | inr e ↦ rw e refl
    ]

pub apply_actions-contains_key :
    (name : String) (actions : List AliasAction) (p : Progress)
    → All (λ action. contains_key (alias_of action) p.targets ≡ true) actions
    → contains_key name (apply_actions actions p).targets ≡ contains_key name p.targets
apply_actions-contains_key name [] p h = refl
apply_actions-contains_key name (action ∷ actions) p (e, h) =
    apply_actions-contains_key name actions (apply_action action p) (
      All-map (λ other here. apply_action-contains_key (alias_of other) action p e ∙ here) actions
        h)
    ∙ apply_action-contains_key name action p e

pub apply_actions-DistinctKeys :
    (actions : List AliasAction) (p : Progress)
    → DistinctKeys p.targets
    → DistinctKeys (apply_actions actions p).targets
apply_actions-DistinctKeys [] p h = h
apply_actions-DistinctKeys (action ∷ actions) p h =
    apply_actions-DistinctKeys actions (apply_action action p)
      (apply_action-DistinctKeys action p h)

initial_targets_mono :
    (db : ReadView) (action : AliasAction) (actions : List AliasAction) (name : String)
    → contains_key name (initial_targets db actions) ≡ true
    → contains_key name (initial_targets db (action ∷ actions)) ≡ true
unfolding initial_targets
initial_targets_mono db action actions name h = ground arith

initial_targets_first :
    (db : ReadView) (action : AliasAction) (actions : List AliasAction)
    → contains_key (alias_of action) (initial_targets db (action ∷ actions)) ≡ true
unfolding initial_targets
initial_targets_first db action actions = ground (arith, eq_iff (alias_of action) (alias_of action))

pub initial_targets-All :
    (db : ReadView) (actions : List AliasAction)
    → All (λ action. contains_key (alias_of action) (initial_targets db actions) ≡ true) actions
initial_targets-All db [] = tt
initial_targets-All db (action ∷ actions) = (
  initial_targets_first db action actions,
  All-map (λ other h. initial_targets_mono db action actions (alias_of other) h) actions
      (initial_targets-All db actions),
)
