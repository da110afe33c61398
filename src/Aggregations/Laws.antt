-- ===== src/Aggregations/Laws.antt =====
-- Streaming over the documents counts, under each key, the documents that hold it.
use text.Mathlib.TextEquality.{eq_iff}
use qdrant_es_gateway.Prelude.{
  ℕ, ◌+◌, ◌≤◌, ◌≡◌, ◌∙◌, refl, sym, String, Bool, false, not, ◌&&◌, List, [], ◌∷◌, if◌then◌else◌,
  any, ltb, length, codes, lex, ◌==◌, Bool-cases, eq-cases, inl, inr, arith, count,
}
use Prim.Native.Nat.{Ordering}
use qdrant_es_gateway.Errors.{Result, ok, bad, >>=-eq-ok, refuse-eq-ok}
use qdrant_es_gateway.Json.{Value}
use qdrant_es_gateway.Sparse.Name.Laws.{codes-inj}
use qdrant_es_gateway.Search.Order.Sign.{Signed}
use qdrant_es_gateway.Aggregations.{
  Reduction, terms, max_buckets, too_many, field_values, terms_key, is_scalar, term_keys,
  observe_terms, observe, observe_all,
}
use qdrant_es_gateway.Aggregations.Counts.{text_cmp, is_eq, among, bump, bump_new, bump_all}

lex-eq : (xs ys : List ℕ) → lex xs ys ≡ Ordering.eq → xs ≡ ys
lex-eq [] [] h = refl
lex-eq [] (y ∷ ys) h = cc
lex-eq (x ∷ xs) [] h = cc
lex-eq (x ∷ xs) (y ∷ ys) h = ground (arith, lex-eq xs ys)

lex_self : (xs : List ℕ) → lex xs xs ≡ Ordering.eq
lex_self [] = refl
lex_self (x ∷ xs) = ground (arith, lex_self xs)

lex_trans :
    (xs ys zs : List ℕ)
    → lex xs ys ≡ Ordering.lt
    → lex ys zs ≡ Ordering.lt
    → lex xs zs ≡ Ordering.lt
lex_trans [] [] zs h k = cc
lex_trans [] (y ∷ ys) [] h k = cc
lex_trans [] (y ∷ ys) (z ∷ zs) h k = refl
lex_trans (x ∷ xs) [] zs h k = cc
lex_trans (x ∷ xs) (y ∷ ys) [] h k = cc
lex_trans (x ∷ xs) (y ∷ ys) (z ∷ zs) h k = ground (arith, lex_trans xs ys zs)

lex_turn : (xs ys : List ℕ) → lex xs ys ≡ Ordering.gt → lex ys xs ≡ Ordering.lt
lex_turn [] [] h = cc
lex_turn [] (y ∷ ys) h = cc
lex_turn (x ∷ xs) [] h = refl
lex_turn (x ∷ xs) (y ∷ ys) h = ground (arith, lex_turn xs ys)

is_eq-text_cmp : (a b : String) → is_eq (text_cmp a b) ≡ (a == b)
is_eq-text_cmp a b = elim (eq-cases a b) [
  | inl (e, path) ↦ rw (path, lex_self (codes b)) (sym (rw path at e))
  | inr (e, distinct) ↦
      rw e (not_eq (text_cmp a b) (λ h. distinct (codes-inj a b (lex-eq (codes a) (codes b) h))))
]
  where
    not_eq : (o : Ordering) → (o ≡ Ordering.eq → ⊥) → is_eq o ≡ false
    not_eq Ordering.lt h = refl
    not_eq Ordering.eq h = absurd (h refl)
    not_eq Ordering.gt h = refl

abbrev pub Counts : Type 0
Counts = List (String × Value × ℕ)

-- The documents counted under a key.
abbrev pub documents_at : String → Counts → ℕ
documents_at key [] = 0
documents_at key ((k, v, n) ∷ rest) =
    if k == key then n + documents_at key rest else documents_at key rest

abbrev pub AboveKey : String → Counts → Type 0
AboveKey key [] = Unit
AboveKey key ((k, v, n) ∷ rest) = (text_cmp key k ≡ Ordering.lt) × AboveKey key rest

-- The keys are in strictly ascending order, so each occurs once.
abbrev pub SortedKeys : Counts → Type 0
SortedKeys [] = Unit
SortedKeys ((k, v, n) ∷ rest) = AboveKey k rest × SortedKeys rest

AboveKey-trans :
    (a b : String) (rest : Counts) → text_cmp a b ≡ Ordering.lt → AboveKey b rest → AboveKey a rest
AboveKey-trans a b [] h k = tt
AboveKey-trans a b ((c, v, n) ∷ rest) h (p, k) =
    (lex_trans (codes a) (codes b) (codes c) h p, AboveKey-trans a b rest h k)

data Side (a b : String) : Type 0 where
  before : text_cmp a b ≡ Ordering.lt → Side a b
  equal : text_cmp a b ≡ Ordering.eq → a ≡ b → Side a b
  behind : text_cmp a b ≡ Ordering.gt → text_cmp b a ≡ Ordering.lt → Side a b

side : (a b : String) → Side a b
side a b = go (text_cmp a b) refl
  where
    go : (o : Ordering) → text_cmp a b ≡ o → Side a b
    go Ordering.lt h = before h
    go Ordering.eq h = equal h (codes-inj a b (lex-eq (codes a) (codes b) h))
    go Ordering.gt h = behind h (lex_turn (codes a) (codes b) h)

module _ (key : String) (value : Value) (c : String) (v : Value) (n : ℕ) (rest : Counts) where
  bump-before :
      text_cmp key c ≡ Ordering.lt
      → bump text_cmp key value ((c, v, n) ∷ rest) ≡ (key, value, 1) ∷ (c, v, n) ∷ rest
  unfolding bump
  bump-before e = rw (e, bump) refl

  bump-equal :
      text_cmp key c ≡ Ordering.eq
      → bump text_cmp key value ((c, v, n) ∷ rest) ≡ (c, v, n + 1) ∷ rest
  unfolding bump
  bump-equal e = rw (e, bump) refl

  bump-behind :
      text_cmp key c ≡ Ordering.gt
      → bump text_cmp key value ((c, v, n) ∷ rest) ≡ (c, v, n) ∷ bump text_cmp key value rest
  unfolding bump
  bump-behind e = rw (e, bump) refl

AboveKey-bump :
    (low key : String) (value : Value) (counts : Counts)
    → text_cmp low key ≡ Ordering.lt
    → AboveKey low counts
    → AboveKey low (bump text_cmp key value counts)
unfolding bump
AboveKey-bump low key value [] h k = (h, tt)
AboveKey-bump low key value ((c, v, n) ∷ rest) h (p, k) = elim (side key c) [
  | before e ↦ rw (bump-before key value c v n rest e) (h, (p, k))
  | equal e path ↦ rw (bump-equal key value c v n rest e) (p, k)
  | behind e back ↦
      rw (bump-behind key value c v n rest e) (p, AboveKey-bump low key value rest h k)
]

SortedKeys-bump :
    (key : String) (value : Value) (counts : Counts)
    → SortedKeys counts
    → SortedKeys (bump text_cmp key value counts)
unfolding bump
SortedKeys-bump key value [] h = (tt, tt)
SortedKeys-bump key value ((c, v, n) ∷ rest) (above, h) = elim (side key c) [
  | before e ↦
      rw (bump-before key value c v n rest e) ((e, AboveKey-trans key c rest e above), (above, h))
  | equal e path ↦ rw (bump-equal key value c v n rest e) (above, h)
  | behind e back ↦
      rw (bump-behind key value c v n rest e)
        (AboveKey-bump c key value rest back above, SortedKeys-bump key value rest h)
]

documents_at-bump :
    (wanted key : String) (value : Value) (counts : Counts)
    → documents_at wanted (bump text_cmp key value counts)
      ≡ documents_at wanted counts + (if key == wanted then 1 else 0)
unfolding bump
documents_at-bump wanted key value [] = ground arith
documents_at-bump wanted key value ((c, v, n) ∷ rest) = elim (side key c) [
  | before e ↦ rw (bump-before key value c v n rest e) (ground arith)
  | equal e path ↦
      rw (bump-equal key value c v n rest e)
        (ground (arith, path, eq_iff c wanted, eq_iff key wanted))
  | behind e back ↦
      rw (bump-behind key value c v n rest e)
        (ground (arith, documents_at-bump wanted key value rest))
]

abbrev held : String → List (String × Value) → Bool
held wanted keys = any (λ (entry : String × Value). entry.0 == wanted) keys

abbrev was_seen : String → List String → Bool
was_seen wanted seen = any (λ k. k == wanted) seen

among-was_seen : (key : String) (seen : List String) → among text_cmp key seen ≡ was_seen key seen
among-was_seen key [] = refl
among-was_seen key (k ∷ seen) =
    rw (is_eq-text_cmp key k, among-was_seen key seen) (ground (arith, eq_iff key k, eq_iff k key))

SortedKeys-bump_new :
    (seen : List String) (keys : List (String × Value)) (counts : Counts)
    → SortedKeys counts
    → SortedKeys (bump_new text_cmp seen keys counts)
unfolding bump_new
SortedKeys-bump_new seen [] counts h = h
SortedKeys-bump_new seen ((key, value) ∷ keys) counts h =
    elim (Bool-cases (among text_cmp key seen)) [
      | inl e ↦ rw e (SortedKeys-bump_new seen keys counts h)
      | inr e ↦ rw e (
          SortedKeys-bump_new (key ∷ seen) keys (bump text_cmp key value counts)
            (SortedKeys-bump key value counts h))
    ]

documents_at-bump_new :
    (wanted : String) (seen : List String) (keys : List (String × Value)) (counts : Counts)
    → documents_at wanted (bump_new text_cmp seen keys counts)
      ≡ documents_at wanted counts
        + (if held wanted keys && not (was_seen wanted seen) then 1 else 0)
unfolding bump_new
documents_at-bump_new wanted seen [] counts = omega arith
documents_at-bump_new wanted seen ((key, value) ∷ keys) counts = elim (eq-cases key wanted) [
  | inl (e, path) ↦ ground (
    arith,
    among-was_seen key seen,
    path,
    documents_at-bump_new wanted seen keys counts,
    documents_at-bump_new wanted (key ∷ seen) keys (bump text_cmp key value counts),
    documents_at-bump wanted key value counts,
  )
  | inr (e, distinct) ↦ ground (
    arith,
    documents_at-bump_new wanted seen keys counts,
    documents_at-bump_new wanted (key ∷ seen) keys (bump text_cmp key value counts),
    documents_at-bump wanted key value counts,
  )
]

ok_inj {ℓ} : {A : Type ℓ} {a b : A} → ok a ≡ ok b → a ≡ b
ok_inj h = cc

module _ {Zone : Type 0} (to_string : Value → String) (show_float : Bool → ℕ → String)
    (bucket_key : Value → String → Zone → Result Signed) where
  term_keys-held :
      (wanted : String) (vs : List Value) {keys : List (String × Value)}
      → term_keys to_string show_float bucket_key vs ≡ ok keys
      → held wanted keys ≡ any (λ v. terms_key to_string show_float v == wanted) vs
  unfolding term_keys
  term_keys-held wanted [] h = rw (← ok_inj h) refl
  term_keys-held wanted (v ∷ vs) h =
      let (scalar, rest) =
        refuse-eq-ok (not (is_scalar v)) (bad "aggs" "terms field must contain scalar values") _
          h in
      let (keys, later, made) = >>=-eq-ok (term_keys to_string show_float bucket_key vs) _ rest in
      rw (← ok_inj made) (ground (arith, term_keys-held wanted vs later))

  -- The document has a value with the key in the field.
  abbrev pub holds : String → String → Value → Bool
  holds name key source =
      any (λ v. terms_key to_string show_float v == key) (field_values source name)

  observe_terms-lem :
      (name : String) (source : Value) (counts : Counts) {counts' : Counts}
      → observe_terms to_string show_float bucket_key name source counts ≡ ok counts'
      → SortedKeys counts
      → SortedKeys counts'
        × (length counts' ≤ 10000)
        × ((key : String)
            → documents_at key counts'
              ≡ documents_at key counts + (if holds name key source then 1 else 0))
  unfolding observe_terms bump_all
  observe_terms-lem name source counts h sorted =
      let (keys, read, rest) =
        >>=-eq-ok (term_keys to_string show_float bucket_key (field_values source name)) _ h in
      let bumped = bump_all text_cmp keys counts in
      let (few, made) = refuse-eq-ok (ltb max_buckets (length bumped)) too_many _ rest in
      rw (← ok_inj made) (
        SortedKeys-bump_new [] keys counts sorted,
        ground arith,
        λ key.
            documents_at-bump_new key [] keys counts
            ∙ ground (arith, term_keys-held key (field_values source name) read),
      )

  -- From counts in order, such as none, and at most 10000 of them, streaming over the documents leaves
  -- at most 10000 buckets with keys in strictly ascending order, and under each key the count grows
  -- by the number of documents that have a value with that key in the field, however often a
  -- document has it; where it succeeds.
  pub terms-documents :
      (name : String) (size : ℕ) (sources : List Value) (counts : Counts)
      {reduction : Reduction Zone}
      → SortedKeys counts
      → length counts ≤ 10000
      → observe_all to_string show_float bucket_key sources (terms name size counts) ≡ ok reduction
      → (counts' : Counts) × (reduction ≡ terms name size counts')
        × SortedKeys counts'
        × (length counts' ≤ 10000)
        × ((key : String)
            → documents_at key counts' ≡ documents_at key counts + count (holds name key) sources)
  unfolding observe_all observe
  terms-documents name size [] counts sorted few h =
      (counts, sym (ok_inj h), sorted, few, λ key. omega arith)
  terms-documents name size (source ∷ sources) counts sorted few h =
      let (next, observed, rest) =
        >>=-eq-ok (observe to_string show_float bucket_key source (terms name size counts)) _ h in
      let (counts1, one, made) =
        >>=-eq-ok (observe_terms to_string show_float bucket_key name source counts) _ observed in
      let (sorted1, few1, added) = observe_terms-lem name source counts one sorted in
      let (counts', e, sorted', few', all_added) =
        terms-documents name size sources counts1 sorted1 few1 (rw (← ok_inj made) at rest) in
      (counts', e, sorted', few', λ key. ground (arith, all_added key, added key))
