-- ===== src/Source/Merge.antt =====
-- Partial updates: `merge_partial_document` of src/main.rs. It changes its target in place, so the
-- model returns the new target with the flag; the patch, on which it recurs, is the first argument of
-- `merge`.
pub mod Laws
use qdrant_es_gateway.Prelude.{
  ℕ, ◌≡◌, refl, ap, sym, ◌∙◌, String, Bool, true, false, not, ◌||◌, List, [], ◌∷◌, Option, none,
  some, arith, if◌then◌else◌, Option-cases, Bool-cases, eq-cases, eq_iff, inl, inr, ◌==◌,
}
use qdrant_es_gateway.Json.{
  Value, null, bool, number, string, array, object, Items, Fields, end, field, Map, lookup, insert,
  entries, fields, contains_key,
}
use qdrant_es_gateway.Json.Equality.{value_eq}

-- A target that is no object, or a patch that is none, is replaced as a whole.
abbrev replace : Value → Value → Value × Bool
replace patch target = if value_eq target patch then (target, false) else (patch, true)

unfoldable mutual
  pub merge : Value → Value → Value × Bool
  merge (object patch) (object target) =
      let (merged, changed) = merge_fields patch (entries target) false in
      (object (fields merged), changed)
  merge patch target = replace patch target

  pub merge_fields : Fields → Map → Bool → Map × Bool
  merge_fields end target changed = (target, changed)
  merge_fields (field key value patch) target changed = elim (lookup key target) [
    | some existing ↦
        let (merged, c) = merge value existing in
        merge_fields patch (insert key merged target) (changed || c)
    | none ↦ merge_fields patch (insert key value target) true
  ]

unfoldable pub merge_partial_document : Value → Value → Value × Bool
merge_partial_document target patch = merge patch target
