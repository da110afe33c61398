-- ===== src/Documents/Text/Laws.antt =====
-- A field without an underscore in its name is searched where its text is indexed.
use Prim.Native.Char.{code}
use text.Mathlib.TextEquality.{eq_iff, Char-path}
use text.Mathlib.TextPositions.{eq_refl}
use text.Mathlib.TextLemmas.{nil-append, cons-append}
use qdrant_es_gateway.Prelude.{
  ◌≡◌, ◌≢◌, ◌∙◌, refl, sym, ap, String, true, false, List, [], ◌∷◌, none, some, if◌then◌else◌, eqb,
  eqb_iff, any, codes, Bool-cases, Option-cases, eq-cases, inl, inr, ◌==◌, arith,
}
use qdrant_es_gateway.Parse.{concat, strip_prefix}
use qdrant_es_gateway.Json.{Value, Map, Fields, object, string, entries, insert, lookup}
use qdrant_es_gateway.Admin.Indices.{replace_dots, contains}
use qdrant_es_gateway.Documents.Text.{
  replace_underscores, field_value, field_texts, flatten_text, text_vector, search_vector_for_field,
}

insert-lookup {ℓ} :
    {V : Type ℓ} (asked key : String) (v : V) (rows : List (String × V))
    → lookup asked (insert key v rows) ≡ (if key == asked then some v else lookup asked rows)
unfolding insert lookup
insert-lookup asked key v [] = refl
insert-lookup asked key v ((k, w) ∷ rows) =
    ground (arith, insert-lookup asked key v rows, eq_iff k key, eq_iff k asked, eq_iff key asked)

some_inj {ℓ} : {A : Type ℓ} {a b : A} → some a ≡ some b → a ≡ b
some_inj h = cc

strip_all : some "all" ≡ strip_prefix "text_" "text_all"
unfolding strip_prefix
strip_all = refl

strip_prefix-concat : (p s : String) → strip_prefix p (concat p s) ≡ some s
unfolding strip_prefix
strip_prefix-concat String.[] s = rw (nil-append s) refl
strip_prefix-concat (String.◌∷◌ c p) s =
    rw (cons-append c p s) (ground (arith, strip_prefix-concat p s))

-- No underscore: dots become underscores, and those become dots again.
round_trip :
    (name : String)
    → any (eqb b'_') (codes name) ≡ false
    → replace_underscores (replace_dots name) ≡ name
unfolding replace_underscores replace_dots
round_trip String.[] h = refl
round_trip (String.◌∷◌ c s) h =
    let tail : replace_underscores (replace_dots s) ≡ s = round_trip s (ground arith) in
    elim (Bool-cases (eqb (code c) b'.')) [
      | inl dot ↦
          let head : c ≡ "." = Char-path c "." ((eqb_iff (code c) b'.').0 dot) in
          rw (head, tail) refl
      | inr other ↦
          let plain : eqb (code c) b'_' ≡ false = ground arith in rw (other, plain, tail) refl
    ]

field_texts-some :
    (obj : Map) (v : String) (vectors : List String) (field : String)
    → strip_prefix "text_" v ≡ some field
    → field_texts obj (v ∷ vectors) ≡ insert v (field_value obj v field) (field_texts obj vectors)
unfolding field_texts
field_texts-some obj v vectors field h = rw (h, field_texts) refl

field_texts-none :
    (obj : Map) (v : String) (vectors : List String)
    → strip_prefix "text_" v ≡ none
    → field_texts obj (v ∷ vectors) ≡ field_texts obj vectors
unfolding field_texts
field_texts-none obj v vectors h = rw (h, field_texts) refl

field_texts-lookup :
    (obj : Map) (vectors : List String) (vector field : String)
    → strip_prefix "text_" vector ≡ some field
    → contains vectors vector ≡ true
    → lookup vector (field_texts obj vectors) ≡ some (field_value obj vector field)
field_texts-lookup obj [] vector field p h = absurd (ground arith)
field_texts-lookup obj (v ∷ vectors) vector field p h = elim (eq-cases v vector) [
  | inl (same, path) ↦
      let begun : strip_prefix "text_" v ≡ some field = rw (← path) at p in
      ap (lookup vector) (field_texts-some obj v vectors field begun)
      ∙ insert-lookup vector v (field_value obj v field) (field_texts obj vectors)
      ∙ rw (path, eq_refl vector) refl
  | inr (other, distinct) ↦
      let ih : lookup vector (field_texts obj vectors) ≡ some (field_value obj vector field) =
        field_texts-lookup obj vectors vector field p (rw other at h) in
      elim (Option-cases (strip_prefix "text_" v)) [
        | inl e ↦ ap (lookup vector) (field_texts-none obj v vectors e) ∙ ih
        | inr (f, e) ↦
            ap (lookup vector) (field_texts-some obj v vectors f e)
            ∙ insert-lookup vector v (field_value obj v f) (field_texts obj vectors)
            ∙ rw other ih
      ]
]

text_vector-concat :
    (name : String)
    → any (eqb b'_') (codes name) ≡ false
    → text_vector name ≡ concat "text_" (replace_dots name)
unfolding text_vector
text_vector-concat name plain = elim (eq-cases name "_all") [
  | inl (same, path) ↦ absurd (underscored path)
  | inr (other, distinct) ↦ rw other refl
]
  where
    underscored : name ≡ "_all" → ⊥
    underscored path = cc (rw path at plain)

text_vector-ne-all :
    (name : String)
    → any (eqb b'_') (codes name) ≡ false
    → name ≢ "all"
    → ("text_all" == concat "text_" (replace_dots name)) ≡ false
unfolding replace_underscores
text_vector-ne-all name plain other =
    elim (eq-cases "text_all" (concat "text_" (replace_dots name))) [
      | inl (same, path) ↦
          let rest : some "all" ≡ some (replace_dots name) =
            strip_all
            ∙ ap (strip_prefix "text_") path
            ∙ strip_prefix-concat "text_" (replace_dots name) in
          absurd
            (other (sym (round_trip name plain) ∙ ap replace_underscores (sym (some_inj rest))))
      | inr (e, distinct) ↦ e
    ]

-- Where the index has the vector of a field whose name has no underscore, and that is not called
-- "all", a search on the field goes to a vector that holds the string which the document has under
-- the field's name.
pub search-indexed :
    (mapping : Value) (source : Fields) (vectors : List String) (name text : String)
    → any (eqb b'_') (codes name) ≡ false
    → name ≢ "all"
    → contains vectors (text_vector name) ≡ true
    → lookup name (entries source) ≡ some (string text)
    → (vector : String) × (search_vector_for_field mapping vectors name ≡ some vector)
      × (lookup vector (flatten_text (object source) vectors) ≡ some text)
unfolding search_vector_for_field flatten_text field_value
search-indexed mapping source vectors name text plain other there stored =
    let vector = concat "text_" (replace_dots name) in
    let same : text_vector name ≡ vector = text_vector-concat name plain in
    let held : contains vectors vector ≡ true = rw same at there in
    let found : lookup vector (field_texts (entries source) vectors)
        ≡ some (field_value (entries source) vector (replace_dots name)) =
      field_texts-lookup (entries source) vectors vector (replace_dots name)
        (strip_prefix-concat "text_" (replace_dots name)) held in
    (
      vector,
      rw (same, held) refl,
      insert-lookup vector "text_all" _ (field_texts (entries source) vectors)
          ∙ rw (text_vector-ne-all name plain other, found, round_trip name plain, stored) refl,
    )
