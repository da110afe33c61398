-- ===== src/Sparse/Vector/Laws.antt =====
-- A sparse vector has its identifiers in order, and each with the weight that the tokens state.
use qdrant_es_gateway.Prelude.{
  ℕ, ◌^◌, ◌<◌, ◌≡◌, ◌≢◌, ◌∙◌, refl, sym, ap, String, true, false, [], ◌∷◌, Option, none, some,
  if◌then◌else◌, leb, eqb, ◌==◌, Bool-cases, Option-cases, eq-cases, inl, inr, All, All-map, arith,
}
use qdrant_es_gateway.Errors.{ok, bad, >>=-eq-ok, ok_or, ok_or-eq-ok}
use qdrant_es_gateway.Parse.{parse_unsigned, u32_limit}
use qdrant_es_gateway.Parse.Laws.{parse_unsigned-lt}
use qdrant_es_gateway.Json.{Value, Fields, object, entries, Map, lookup, contains_key}
use qdrant_es_gateway.Json.Float.{Float, as_f64}
use qdrant_es_gateway.Search.Window.{show_u64}
use qdrant_es_gateway.Search.Window.Show.{show_u64-inj}
use qdrant_es_gateway.Source.Merge.Laws.{IsMap}
use qdrant_es_gateway.Sparse.Vector.Narrow.{IsF32, to_f32-IsF32}
use qdrant_es_gateway.Sparse.Vector.{
  to_f32, is_positive, token_id, positive_f32, weight, and_then, Pairs, collect_pairs, insert_pair,
  sort_pairs, vector_json, vector_pairs, vector,
}

ok_inj {ℓ} : {A : Type ℓ} {a b : A} → ok a ≡ ok b → a ≡ b
ok_inj h = cc

some_inj {ℓ} : {A : Type ℓ} {a b : A} → some a ≡ some b → a ≡ b
some_inj h = cc

none-ne-some {ℓ} : {A : Type ℓ} {a : A} → none ≡ some a → ⊥
none-ne-some h = cc

-- The weight under an identifier.
abbrev pub weight_at : ℕ → Pairs → Option Float
weight_at id [] = none
weight_at id ((other, f) ∷ pairs) = if eqb other id then some f else weight_at id pairs

-- The weight that the tokens state under the decimal text of an identifier.
abbrev pub stated_weight : ℕ → Map → Option Float
stated_weight id tokens = elim (lookup (show_u64 id) tokens) [
  | none ↦ none
  | some value ↦ weight value
]

abbrev pub Above : ℕ → Pairs → Type 0
Above id pairs = All (λ (p : ℕ × Float). id < p.0) pairs

abbrev pub Ascending : Pairs → Type 0
Ascending [] = Unit
Ascending ((id, f) ∷ pairs) = Above id pairs × Ascending pairs

-- A 32-bit identifier with a positive finite 32-bit float.
abbrev pub IsWeight : ℕ × Float → Type 0
IsWeight p = (p.0 < 2 ^ 32) × (p.1.negative ≡ false) × (0 < p.1.magnitude) × IsF32 p.1

weight_at-insert_pair :
    (id : ℕ) (f : Float) (wanted : ℕ) (pairs : Pairs)
    → weight_at wanted (insert_pair id f pairs)
      ≡ (if eqb id wanted then some f else weight_at wanted pairs)
unfolding insert_pair
weight_at-insert_pair id f wanted [] = refl
weight_at-insert_pair id f wanted ((other, g) ∷ pairs) =
    ground (arith, weight_at-insert_pair id f wanted pairs)

weight_at-sort_pairs :
    (wanted : ℕ) (pairs : Pairs) → weight_at wanted (sort_pairs pairs) ≡ weight_at wanted pairs
unfolding sort_pairs
weight_at-sort_pairs wanted [] = refl
weight_at-sort_pairs wanted ((id, f) ∷ pairs) =
    weight_at-insert_pair id f wanted (sort_pairs pairs)
    ∙ rw (weight_at-sort_pairs wanted pairs) refl

All-insert_pair :
    (P : ℕ × Float → Type 0) (id : ℕ) (f : Float) (pairs : Pairs)
    → P (id, f)
    → All P pairs
    → All P (insert_pair id f pairs)
unfolding insert_pair
All-insert_pair P id f [] p h = (p, tt)
All-insert_pair P id f ((other, g) ∷ pairs) p (q, h) = elim (Bool-cases (leb id other)) [
  | inl e ↦ rw e (p, (q, h))
  | inr e ↦ rw e (q, All-insert_pair P id f pairs p h)
]

All-sort_pairs : (P : ℕ × Float → Type 0) (pairs : Pairs) → All P pairs → All P (sort_pairs pairs)
unfolding sort_pairs
All-sort_pairs P [] h = tt
All-sort_pairs P ((id, f) ∷ pairs) (p, h) =
    All-insert_pair P id f (sort_pairs pairs) p (All-sort_pairs P pairs h)

Ascending-insert_pair :
    (id : ℕ) (f : Float) (pairs : Pairs)
    → weight_at id pairs ≡ none
    → Ascending pairs
    → Ascending (insert_pair id f pairs)
unfolding insert_pair
Ascending-insert_pair id f [] new h = (tt, tt)
Ascending-insert_pair id f ((other, g) ∷ pairs) new (above, h) = elim (Bool-cases (leb id other)) [
  | inl e ↦
      let below : id < other = ground arith in
      rw e ((below, All-map (λ (p : ℕ × Float) lt. omega arith) pairs above), (above, h))
  | inr e ↦
      let after : other < id = ground arith in
      rw e (
        All-insert_pair (λ (p : ℕ × Float). other < p.0) id f pairs after above,
        Ascending-insert_pair id f pairs (ground arith) h,
      )
]

token_id-lem :
    (token : String) {id : ℕ} → token_id token ≡ ok id → (show_u64 id ≡ token) × (id < 2 ^ 32)
unfolding token_id
token_id-lem token {id} h = elim (Option-cases (parse_unsigned u32_limit token)) [
  | inl e ↦ absurd (ground arith)
  | inr (n, e) ↦ elim (eq-cases (show_u64 n) token) [
    | inl (same, path) ↦
        let n_id : n ≡ id = ground arith in
        (rw n_id at path, rw n_id at (parse_unsigned-lt u32_limit token e))
    | inr (other, distinct) ↦ absurd (ground arith)
  ]
]

positive_f32-some :
    (o : Option Float) {f : Float}
    → positive_f32 o ≡ some f
    → (o ≡ some f) × (f.negative ≡ false) × (0 < f.magnitude)
unfolding positive_f32
positive_f32-some none e = absurd (ground arith)
positive_f32-some (some g) {f} e = elim (Bool-cases (is_positive g)) [
  | inl p ↦
      let same : g ≡ f = some_inj (rw p at e) in
      let q : is_positive f ≡ true = rw same at p in
      (ap (λ x. some x) same, ground arith, ground arith)
  | inr p ↦ absurd (none-ne-some (rw p at e))
]

and_then-to_f32 : (o : Option Float) {f : Float} → and_then o to_f32 ≡ some f → IsF32 f
and_then-to_f32 none h = absurd (none-ne-some h)
and_then-to_f32 (some g) h = to_f32-IsF32 g h

weight-some :
    (value : Value) {f : Float}
    → weight value ≡ some f
    → (f.negative ≡ false) × (0 < f.magnitude) × IsF32 f
unfolding weight
weight-some value h =
    let (narrowed, sign, positive) = positive_f32-some (and_then (as_f64 value) to_f32) h in
    (sign, positive, and_then-to_f32 (as_f64 value) narrowed)

-- One round of the loop.
collect_pairs-lem :
    (token : String) (value : Value) (tokens : Map) {pairs : Pairs}
    → collect_pairs ((token, value) ∷ tokens) ≡ ok pairs
    → (id : ℕ) × (f : Float) × (rest : Pairs) × (pairs ≡ (id, f) ∷ rest)
      × (show_u64 id ≡ token)
      × (id < 2 ^ 32)
      × (weight value ≡ some f)
      × (collect_pairs tokens ≡ ok rest)
unfolding collect_pairs
collect_pairs-lem token value tokens h =
    let (id, parsed, a) = >>=-eq-ok (token_id token) _ h in
    let (f, converted, b) =
      >>=-eq-ok
        (ok_or (weight value)
          (bad "sparse_vector" "weights must be positive finite float32 numbers"))
        _ a in
    let (rest, later, c) = >>=-eq-ok (collect_pairs tokens) _ b in
    let (text, small) = token_id-lem token parsed in
    (id, f, rest, sym (ok_inj c), text, small, ok_or-eq-ok (weight value) _ converted, later)

stated_weight-cons :
    (id : ℕ) (token : String) (value : Value) (tokens : Map)
    → stated_weight id ((token, value) ∷ tokens)
      ≡ (if token == show_u64 id then weight value else stated_weight id tokens)
unfolding lookup
stated_weight-cons id token value tokens = ground arith

stated_weight-absent :
    (id : ℕ) (tokens : Map) → lookup (show_u64 id) tokens ≡ none → stated_weight id tokens ≡ none
stated_weight-absent id tokens h = rw (h, stated_weight) refl

weight_at-collect_pairs :
    (tokens : Map) {pairs : Pairs} (id : ℕ)
    → collect_pairs tokens ≡ ok pairs
    → id < 2 ^ 32
    → weight_at id pairs ≡ stated_weight id tokens
unfolding collect_pairs lookup
weight_at-collect_pairs [] id h small = rw (← ok_inj h) refl
weight_at-collect_pairs ((token, value) ∷ tokens) id h small =
    let (n, f, rest, e, text, n_small, w, later) = collect_pairs-lem token value tokens h in
    rw (e, stated_weight-cons id token value tokens)
      elim (eq-cases token (show_u64 id)) [
        | inl (same, path) ↦
            let n_id : n ≡ id = show_u64-inj n id (omega arith) (omega arith) (text ∙ path) in
            rw (same, w) (ground arith)
        | inr (other, distinct) ↦
            let n_other : n ≢ id = λ q. distinct (sym text ∙ ap show_u64 q) in
            rw other (ground (arith, weight_at-collect_pairs tokens id later small))
      ]

collect_pairs-IsWeight :
    (tokens : Map) {pairs : Pairs} → collect_pairs tokens ≡ ok pairs → All IsWeight pairs
unfolding collect_pairs
collect_pairs-IsWeight [] h = rw (← ok_inj h) tt
collect_pairs-IsWeight ((token, value) ∷ tokens) h =
    let (n, f, rest, e, text, n_small, w, later) = collect_pairs-lem token value tokens h in
    let (sign, positive, narrow) = weight-some value w in
    rw e ((n_small, sign, positive, narrow), collect_pairs-IsWeight tokens later)

lookup-absent : (key : String) (m : Map) → contains_key key m ≡ false → lookup key m ≡ none
unfolding lookup
lookup-absent key [] h = refl
lookup-absent key ((k, v) ∷ m) h = ground (arith, lookup-absent key m)

sort_pairs-Ascending :
    (tokens : Map) {pairs : Pairs}
    → IsMap tokens
    → collect_pairs tokens ≡ ok pairs
    → Ascending (sort_pairs pairs)
unfolding collect_pairs sort_pairs
sort_pairs-Ascending [] distinct h = rw (← ok_inj h) tt
sort_pairs-Ascending ((token, value) ∷ tokens) (absent, distinct) h =
    let (n, f, rest, e, text, n_small, w, later) = collect_pairs-lem token value tokens h in
    let new : weight_at n (sort_pairs rest) ≡ none =
      weight_at-sort_pairs n rest
      ∙ weight_at-collect_pairs tokens n later n_small
      ∙ stated_weight-absent n tokens (rw text (lookup-absent token tokens absent)) in
    rw e
      (Ascending-insert_pair n f (sort_pairs rest) new (sort_pairs-Ascending tokens distinct later))

vector-pairs :
    (tokens : Fields) {made : Value}
    → vector (object tokens) ≡ ok made
    → (pairs : Pairs) × (collect_pairs (entries tokens) ≡ ok pairs)
      × (made ≡ vector_json (sort_pairs pairs))
unfolding vector vector_pairs
vector-pairs tokens h =
    let (sorted, sorted_e, c) = >>=-eq-ok (vector_pairs (object tokens)) _ h in
    let (pairs, collected, d) = >>=-eq-ok (collect_pairs (entries tokens)) _ sorted_e in
    (pairs, collected, sym (ok_inj c) ∙ ap vector_json (sym (ok_inj d)))

-- Where the keys of the object are distinct, an accepted vector is the JSON of pairs with 32-bit
-- identifiers in strictly ascending order and positive weights that are finite 32-bit floats, and an
-- identifier has the weight that the object states under its decimal text, narrowed, or none where
-- there is none.
pub vector-weights :
    (tokens : Fields) {made : Value}
    → IsMap (entries tokens)
    → vector (object tokens) ≡ ok made
    → (pairs : Pairs) × (made ≡ vector_json pairs)
      × Ascending pairs
      × All IsWeight pairs
      × ((id : ℕ) → id < 2 ^ 32 → weight_at id pairs ≡ stated_weight id (entries tokens))
vector-weights tokens distinct h =
    let (pairs, collected, c) = vector-pairs tokens h in
    (
      sort_pairs pairs,
      c,
      sort_pairs-Ascending (entries tokens) distinct collected,
      All-sort_pairs IsWeight pairs (collect_pairs-IsWeight (entries tokens) collected),
      λ id small.
          weight_at-sort_pairs id pairs
          ∙ weight_at-collect_pairs (entries tokens) id collected small,
    )
