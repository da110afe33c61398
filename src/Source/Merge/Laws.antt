-- ===== src/Source/Merge/Laws.antt =====
-- What a partial update leaves under each key.
use qdrant_es_gateway.Prelude.{
  ◌≡◌, refl, ap, sym, ◌∙◌, String, Bool, true, false, ◌||◌, [], ◌∷◌, Option, none, some, arith,
  if◌then◌else◌, Option-cases, eq_iff, inl, inr, ◌==◌,
}
use mathlib.Core.Path.{subst}
use qdrant_es_gateway.Json.{
  Value, object, Fields, end, field, Map, lookup, insert, entries, fields, contains_key, get,
}
use qdrant_es_gateway.Source.Merge.{merge, merge_fields, merge_partial_document}

lookup-insert :
    (written : String) (v : Value) (wanted : String) (m : Map)
    → lookup wanted (insert written v m) ≡ (if written == wanted then some v else lookup wanted m)
unfolding lookup insert
lookup-insert written v wanted [] = refl
lookup-insert written v wanted (entry ∷ m) = ground (
  arith,
  lookup-insert written v wanted m,
  eq_iff entry.0 wanted,
  eq_iff entry.0 written,
  eq_iff written wanted,
)

-- The keys of a map are distinct, as `Map` has them.
abbrev pub IsMap : Map → Type 0
IsMap [] = Unit
IsMap ((k, v) ∷ m) = (contains_key k m ≡ false) × IsMap m

lookup-absent : (key : String) (m : Map) → contains_key key m ≡ false → lookup key m ≡ none
unfolding lookup
lookup-absent key [] h = refl
lookup-absent key ((k, v) ∷ m) h = ground (arith, lookup-absent key m)

-- What the patch and the target together have under a key.
abbrev pub merged : Option Value → Option Value → Option Value
merged none existing = existing
merged (some value) none = some value
merged (some value) (some existing) = some (merge_partial_document existing value).0

merge_fields-step :
    (key : String) (value : Value) (patch : Fields) (m : Map) (changed : Bool)
    → (c : Bool) × (v : Value) × (merged (some value) (lookup key m) ≡ some v)
      × (merge_fields (field key value patch) m changed ≡ merge_fields patch (insert key v m) c)
unfolding merge_partial_document merge
merge_fields-step key value patch m changed = elim (Option-cases (lookup key m)) [
  | inl e ↦ (true, value, rw (e, merged) refl, rw (e, merge_fields) refl)
  | inr (existing, e) ↦ (
    changed || (merge value existing).1,
    (merge value existing).0,
    rw (e, merged) refl,
    rw (e, merge_fields) refl,
  )
]

merged-if :
    (b : Bool) (value v : Value) (p t : Option Value)
    → (b ≡ true → p ≡ none)
    → (b ≡ true → merged (some value) t ≡ some v)
    → merged p (if b then some v else t) ≡ merged (if b then some value else p) t
merged-if true value v p t h k = rw (h refl) (sym (k refl))
merged-if false value v p t h k = refl

entries-fields : (m : Map) → entries (fields m) ≡ m
entries-fields [] = refl
entries-fields ((k, v) ∷ m) = ap (λ (r : Map). (k, v) ∷ r) (entries-fields m)

merge_fields-lookup :
    (patch : Fields) (m : Map) (changed : Bool) (j : String)
    → IsMap (entries patch)
    → lookup j (merge_fields patch m changed).0 ≡ merged (lookup j (entries patch)) (lookup j m)
unfolding merge lookup
merge_fields-lookup end m changed j h = refl
merge_fields-lookup (field key value patch) m changed j (absent, h) =
    let (c, v, now, step) = merge_fields-step key value patch m changed in
    let after =
      ap (λ (r : Map × Bool). lookup j r.0) step
      ∙ merge_fields-lookup patch (insert key v m) c j h
      ∙ ap (merged (lookup j (entries patch))) (lookup-insert key v j m) in
    after
    ∙ merged-if (key == j) value v (lookup j (entries patch)) (lookup j m)
        (λ e. lookup-absent j (entries patch) (
          subst (λ (k : String). contains_key k (entries patch) ≡ false) ((eq_iff key j).0 e)
            absent))
        (λ e.
          subst (λ (k : String). merged (some value) (lookup k m) ≡ some v) ((eq_iff key j).0 e)
            now)

-- After a partial update of an object by an object, each key has what the two together have: the
-- target's value where the patch has none, the patch's where the target has none, and else the
-- target's value updated by the patch's.
pub merge-lookup :
    (target patch : Map) (j : String)
    → IsMap patch
    → get j (merge_partial_document (object (fields target)) (object (fields patch))).0
      ≡ merged (lookup j patch) (lookup j target)
unfolding merge_partial_document merge
merge-lookup target patch j h =
    ap (lookup j) (entries-fields (merge_fields (fields patch) (entries (fields target)) false).0)
    ∙ merge_fields-lookup (fields patch) (entries (fields target)) false j
        (subst IsMap (sym (entries-fields patch)) h)
    ∙ ap (λ (m : Map). merged (lookup j m) (lookup j (entries (fields target))))
        (entries-fields patch)
    ∙ ap (λ (m : Map). merged (lookup j patch) (lookup j m)) (entries-fields target)
