-- ===== src/Admin/Tables/Laws.antt =====
-- The catalog is consistent: no two indices share a collection of Qdrant, every alias has one
-- target, an index that exists, and no alias has the name of an index.
use text.Mathlib.TextEquality.{eq_iff}
use qdrant_es_gateway.Prelude.{
  ◌≡◌, ◌≢◌, refl, String, Bool, true, false, List, [], ◌∷◌, filter, All, Bool-cases, inl, inr, ◌==◌,
  if◌then◌else◌, arith,
}
use qdrant_es_gateway.Json.{contains_key}
use qdrant_es_gateway.Catalog.{ReadView}
use qdrant_es_gateway.Admin.Names.{collection, document_collection}
use qdrant_es_gateway.Admin.Tables.{erase, upsert}

abbrev pub Separate : String → String → Type 0
Separate a b =
    (collection a ≢ collection b)
    × (collection a ≢ document_collection b)
    × (document_collection a ≢ collection b)
    × (document_collection a ≢ document_collection b)

module _ {ℓ} {V : Type ℓ} where
  abbrev pub SeparateFrom : String → List (String × V) → Type 0
  SeparateFrom index [] = Unit
  SeparateFrom index ((k, v) ∷ rows) = Separate index k × SeparateFrom index rows

  abbrev pub AllSeparate : List (String × V) → Type 0
  AllSeparate [] = Unit
  AllSeparate ((k, v) ∷ rows) = SeparateFrom k rows × AllSeparate rows

  abbrev pub DistinctKeys : List (String × V) → Type 0
  DistinctKeys [] = Unit
  DistinctKeys ((k, v) ∷ rows) = (contains_key k rows ≡ false) × DistinctKeys rows

  pub SeparateFrom-erase :
      (index key : String) (rows : List (String × V))
      → SeparateFrom index rows
      → SeparateFrom index (erase key rows)
  SeparateFrom-erase index key [] h = tt
  SeparateFrom-erase index key ((k, v) ∷ rows) (s, h) = elim (Bool-cases (k == key)) [
    | inl e ↦ rw e (SeparateFrom-erase index key rows h)
    | inr e ↦ rw e (s, SeparateFrom-erase index key rows h)
  ]

  pub AllSeparate-erase :
      (key : String) (rows : List (String × V)) → AllSeparate rows → AllSeparate (erase key rows)
  AllSeparate-erase key [] h = tt
  AllSeparate-erase key ((k, v) ∷ rows) (s, h) = elim (Bool-cases (k == key)) [
    | inl e ↦ rw e (AllSeparate-erase key rows h)
    | inr e ↦ rw e (SeparateFrom-erase k key rows s, AllSeparate-erase key rows h)
  ]

  pub contains_key-filter :
      (p : String × V → Bool) (key : String) (rows : List (String × V))
      → contains_key key rows ≡ false
      → contains_key key (filter p rows) ≡ false
  contains_key-filter p key [] h = refl
  contains_key-filter p key ((k, v) ∷ rows) h = ground (arith, contains_key-filter p key rows)

  pub DistinctKeys-filter :
      (p : String × V → Bool) (rows : List (String × V))
      → DistinctKeys rows
      → DistinctKeys (filter p rows)
  DistinctKeys-filter p [] h = tt
  DistinctKeys-filter p ((k, v) ∷ rows) (e, h) = elim (Bool-cases (p (k, v))) [
    | inl kept ↦ rw kept (contains_key-filter p k rows e, DistinctKeys-filter p rows h)
    | inr gone ↦ rw gone (DistinctKeys-filter p rows h)
  ]

  pub contains_key-erase :
      (wanted key : String) (rows : List (String × V))
      → contains_key wanted (erase key rows)
        ≡ (if key == wanted then false else contains_key wanted rows)
  contains_key-erase wanted key [] = ground arith
  contains_key-erase wanted key ((k, v) ∷ rows) =
      ground (
        arith,
        contains_key-erase wanted key rows,
        eq_iff k key,
        eq_iff key wanted,
        eq_iff k wanted,
      )

  pub contains_key-upsert :
      (wanted key : String) (v : V) (rows : List (String × V))
      → contains_key wanted (upsert key v rows)
        ≡ (if key == wanted then true else contains_key wanted rows)
  contains_key-upsert wanted key v rows = ground (arith, contains_key-erase wanted key rows)

-- An alias whose target is an index, and whose name is none.
abbrev pub Points {ℓ} : {V : Type ℓ} → List (String × V) → String × String → Type 0
Points indices row = (contains_key row.0 indices ≡ false) × (contains_key row.1 indices ≡ true)

pub record IsConsistent (db : ReadView) : Type 0 where
  pub separate : AllSeparate db.indices
  pub distinct : DistinctKeys db.aliases
  pub points : All (Points db.indices) db.aliases
