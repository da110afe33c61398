-- ===== src/Source/Filter/Laws.antt =====
-- What a projection keeps, and that it keeps everything without patterns.
use qdrant_es_gateway.Prelude.{
  ◌≡◌, refl, String, Bool, true, false, [], Option, none, some, arith, if◌then◌else◌, Bool-cases,
  inl, inr,
}
use qdrant_es_gateway.Json.{
  Value, null, bool, number, string, array, object, Items, nil, cons, Fields, end, field,
}
use qdrant_es_gateway.Source.Filter.{
  SourceFilter, excluded, explicitly_included, child_path, then_some, keep_field, keep_item,
  project_scalar, project_source_value, project_fields, project_items, project_source,
}

abbrev AllowedScalar : SourceFilter → String → Type 0
AllowedScalar filter path =
    (excluded filter path ≡ false) × (explicitly_included filter path ≡ true)

-- Every value in the projection, itself included, is at a path that no pattern excludes, and every
-- scalar is at a path that the patterns include.
mutual
  pub Allowed : SourceFilter → String → Value → Type 0
  Allowed filter path (object fs) = (excluded filter path ≡ false) × AllowedFields filter path fs
  Allowed filter path (array vs) = (excluded filter path ≡ false) × AllowedItems filter path vs
  Allowed filter path null = AllowedScalar filter path
  Allowed filter path (bool b) = AllowedScalar filter path
  Allowed filter path (number n) = AllowedScalar filter path
  Allowed filter path (string s) = AllowedScalar filter path

  pub AllowedFields : SourceFilter → String → Fields → Type 0
  AllowedFields filter path end = Unit
  AllowedFields filter path (field key v fs) =
      Allowed filter (child_path path key) v × AllowedFields filter path fs

  pub AllowedItems : SourceFilter → String → Items → Type 0
  AllowedItems filter path nil = Unit
  AllowedItems filter path (cons v vs) = Allowed filter path v × AllowedItems filter path vs

keep_item-Allowed :
    (filter : SourceFilter) (path : String) (o : Option Value) (vs : Items)
    → ((w : Value) → o ≡ some w → Allowed filter path w)
    → AllowedItems filter path vs
    → AllowedItems filter path (keep_item o vs)
unfolding Allowed
keep_item-Allowed filter path none vs h k = k
keep_item-Allowed filter path (some w) vs h k = (h w refl, k)

keep_field-Allowed :
    (filter : SourceFilter) (path key : String) (o : Option Value) (fs : Fields)
    → ((w : Value) → o ≡ some w → Allowed filter (child_path path key) w)
    → AllowedFields filter path fs
    → AllowedFields filter path (keep_field key o fs)
unfolding Allowed
keep_field-Allowed filter path key none fs h k = k
keep_field-Allowed filter path key (some w) fs h k = (h w refl, k)

guarded :
    (filter : SourceFilter) (path : String) (keep : Bool) (v w : Value)
    → (if excluded filter path then none else then_some keep v) ≡ some w
    → (excluded filter path ≡ false) × (keep ≡ true) × (v ≡ w)
guarded filter path keep v w h = ground arith

mutual
  unfolding Allowed project_source_value project_scalar

  value-Allowed :
      (v : Value) (filter : SourceFilter) (path : String) (w : Value)
      → project_source_value v path filter ≡ some w
      → Allowed filter path w
  value-Allowed null filter path w h =
      let (e, i, same) = guarded filter path _ null w h in rw (← same) (e, i)
  value-Allowed (bool b) filter path w h =
      let (e, i, same) = guarded filter path _ (bool b) w h in rw (← same) (e, i)
  value-Allowed (number n) filter path w h =
      let (e, i, same) = guarded filter path _ (number n) w h in rw (← same) (e, i)
  value-Allowed (string s) filter path w h =
      let (e, i, same) = guarded filter path _ (string s) w h in rw (← same) (e, i)
  value-Allowed (array vs) filter path w h =
      let (e, i, same) = guarded filter path _ _ w h in
      rw (← same) (e, items-Allowed vs filter path)
  value-Allowed (object fs) filter path w h =
      let (e, i, same) = guarded filter path _ _ w h in
      rw (← same) (e, fields-Allowed fs filter path)

  fields-Allowed :
      (fs : Fields) (filter : SourceFilter) (path : String)
      → AllowedFields filter path (project_fields fs path filter)
  fields-Allowed end filter path = tt
  fields-Allowed (field key v fs) filter path =
      keep_field-Allowed filter path key _ _ (value-Allowed v filter (child_path path key))
        (fields-Allowed fs filter path)

  items-Allowed :
      (vs : Items) (filter : SourceFilter) (path : String)
      → AllowedItems filter path (project_items vs path filter)
  items-Allowed nil filter path = tt
  items-Allowed (cons v vs) filter path =
      keep_item-Allowed filter path _ _ (value-Allowed v filter path) (items-Allowed vs filter path)

-- A projected document holds no value at an excluded path and no scalar at a path that is not
-- included.
pub project_source-Allowed :
    (source : Value) (filter : SourceFilter) {projected : Value}
    → project_source source (some filter) ≡ some projected
    → Allowed filter "" projected
unfolding project_source
project_source-Allowed source filter {projected} h = elim (Bool-cases filter.enabled) [
  | inl on ↦ value-Allowed source filter "" projected (ground arith)
  | inr off ↦ absurd (ground arith)
]

abbrev pub everything : SourceFilter
everything = record { enabled = true; includes = []; excludes = [] }

keep_fields-nonempty :
    (key : String) (v : Value) (fs : Fields) (o : Option Value)
    → o ≡ some v
    → keep_field key o fs ≡ field key v fs
keep_fields-nonempty key v fs none h = cc
keep_fields-nonempty key v fs (some w) h = ground arith

mutual
  unfolding project_source_value project_scalar

  value-everything : (v : Value) (path : String) → project_source_value v path everything ≡ some v
  value-everything null path = refl
  value-everything (bool b) path = refl
  value-everything (number n) path = refl
  value-everything (string s) path = refl
  value-everything (array nil) path = refl
  value-everything (array (cons v vs)) path =
      rw (value-everything v path, items-everything vs path) refl
  value-everything (object end) path = ground arith
  value-everything (object (field key v fs)) path =
      rw (value-everything v (child_path path key), fields-everything fs path) refl

  fields-everything : (fs : Fields) (path : String) → project_fields fs path everything ≡ fs
  fields-everything end path = refl
  fields-everything (field key v fs) path =
      rw (value-everything v (child_path path key), fields-everything fs path) refl

  items-everything : (vs : Items) (path : String) → project_items vs path everything ≡ vs
  items-everything nil path = refl
  items-everything (cons v vs) path = rw (value-everything v path, items-everything vs path) refl

-- A filter with no patterns keeps every document whole.
pub project_source-everything :
    (source : Value) → project_source source (some everything) ≡ some source
unfolding project_source
project_source-everything source = value-everything source ""
