-- ===== src/Query/Filter/Laws.antt =====
-- `walk` ends, and satisfies the equation of the source.
use qdrant_es_gateway.Prelude.{
  ℕ, ◌≤◌, ◌<◌, ◌≡◌, refl, String, List, [], ◌∷◌, some, arith, All, All-map, Option-cases, inl, inr,
}
use mathlib.Core.Path.{fun_ext}
use qdrant_es_gateway.Prelude.Fixpoint.{fix_eq, IsLocal}
use qdrant_es_gateway.Errors.{Result, ok, GatewayError, ◌>>=◌}
use qdrant_es_gateway.Json.{Value, Map, object, get, as_object, as_array}
use qdrant_es_gateway.Json.Size.{size, map_size, as_object-size, as_array-size, sizes-All}
use qdrant_es_gateway.Query.Bool.{bool_clauses}
use qdrant_es_gateway.Query.Bool.Sizes.{bool_clauses-size, get_object-size}
use qdrant_es_gateway.Query.Filter.{
  Conditions, and_then, fold, clause_condition, walk_must_not, push_should, walk_should, walk_bool,
  walk_dis_max, walk_entry, walk_clause, walk,
}

pub fold-congr {ℓ κ} :
    {A : Type ℓ} {S : Type κ} (f g : A → S → Result S) (xs : List A)
    → All (λ x. f x ≡ g x) xs
    → fold f xs ≡ fold g xs
fold-congr f g [] h = refl
fold-congr f g (x ∷ xs) (e, h) = fun_ext (λ s. rw (e, fold-congr f g xs h) refl)

get_array-size :
    (key : String) (v : Value) {vs : List Value}
    → and_then (get key v) as_array ≡ some vs
    → All (λ q. size q ≤ size v) vs
get_array-size key (object fs) {vs} h = elim (Option-cases (get key (object fs))) [
  | inl e ↦ absurd (ground arith)
  | inr (w, e) ↦
      let a : as_array w ≡ some vs = rw e at h in
      sizes-All vs (size (object fs))
        (omega (arith, as_array-size w a, get_object-size (object fs) _ key w refl e))
]
get_array-size key _ h = absurd (cc)

module _ (f g : Value → Conditions → Result Conditions) where
  clause_condition-congr :
      (e : GatewayError) (q : Value) → f q ≡ g q → clause_condition f e q ≡ clause_condition g e q
  clause_condition-congr e q h = rw h refl

  walk_must_not-congr : (q : Value) → f q ≡ g q → walk_must_not f q ≡ walk_must_not g q
  unfolding walk_must_not
  walk_must_not-congr q h = fun_ext (λ c. rw h refl)

  push_should-congr : (q : Value) → f q ≡ g q → push_should f q ≡ push_should g q
  unfolding push_should
  push_should-congr q h = fun_ext (λ c. rw h refl)

  module _ (b : Map) (h : (q : Value) → size q ≤ map_size b → f q ≡ g q) where
    agree : (key : String) → All (λ q. f q ≡ g q) (bool_clauses b key)
    agree key = All-map h (bool_clauses b key) (bool_clauses-size b key (map_size b) (omega arith))

    walk_should-congr : walk_should f b ≡ walk_should g b
    unfolding walk_should
    walk_should-congr = fun_ext (λ c.
        rw
          (fold-congr (push_should f) (push_should g) (bool_clauses b "should")
            (All-map push_should-congr (bool_clauses b "should") (agree "should")))
          refl)

    bool_body-congr :
        (c : Conditions)
        → (fold f (bool_clauses b "must") c >>= λ c1. fold f (bool_clauses b "filter") c1 >>= λ c2.
            fold (walk_must_not f) (bool_clauses b "must_not") c2 >>= λ c3. walk_should f b c3)
          ≡ (fold g (bool_clauses b "must") c >>= λ c1.
              fold g (bool_clauses b "filter") c1 >>= λ c2.
              fold (walk_must_not g) (bool_clauses b "must_not") c2 >>= λ c3. walk_should g b c3)
    bool_body-congr c =
        rw
          (
            fold-congr f g (bool_clauses b "must") (agree "must"),
            fold-congr f g (bool_clauses b "filter") (agree "filter"),
            fold-congr (walk_must_not f) (walk_must_not g) (bool_clauses b "must_not")
                (All-map walk_must_not-congr (bool_clauses b "must_not") (agree "must_not")),
            walk_should-congr,
          )
          refl

  walk_bool-congr :
      (v : Value) → ((q : Value) → size q ≤ size v → f q ≡ g q) → walk_bool f v ≡ walk_bool g v
  unfolding walk_bool
  walk_bool-congr v h = fun_ext (λ c. elim (Option-cases (as_object v)) [
    | inl e ↦ rw e refl
    | inr (b, e) ↦
        let lt : map_size b < size v = as_object-size v e in
        rw e (bool_body-congr b (λ q le. h q (omega arith)) c)
  ])

  walk_dis_max-congr :
      (v : Value)
      → ((q : Value) → size q ≤ size v → f q ≡ g q)
      → walk_dis_max f v ≡ walk_dis_max g v
  unfolding walk_dis_max
  walk_dis_max-congr v h = fun_ext (λ c. elim (Option-cases (and_then (get "queries" v) as_array)) [
    | inl e ↦ rw e refl
    | inr (vs, e) ↦ rw (e, fold-congr f g vs (All-map h vs (get_array-size "queries" v e))) refl
  ])

  walk_entry-congr :
      (kind : String) (v : Value)
      → ((q : Value) → size q ≤ size v → f q ≡ g q)
      → walk_entry f (kind, v) ≡ walk_entry g (kind, v)
  unfolding walk_entry
  walk_entry-congr kind v h = fun_ext (λ c. rw (walk_bool-congr v h, walk_dis_max-congr v h) refl)

  walk_entries-congr :
      (m : Map) (n : ℕ)
      → map_size m ≤ n
      → ((q : Value) → size q ≤ n → f q ≡ g q)
      → All (λ e. walk_entry f e ≡ walk_entry g e) m
  unfolding map_size
  walk_entries-congr [] n h agree = tt
  walk_entries-congr ((kind, v) ∷ m) n h agree = (
    walk_entry-congr kind v (λ q le. agree q (omega arith)),
    walk_entries-congr m n (omega arith) agree,
  )

walk_clause-IsLocal : IsLocal size (λ c. ok c) walk_clause
unfolding walk_clause
walk_clause-IsLocal rec rec' q h = fun_ext (λ c. elim (Option-cases (as_object q)) [
  | inl e ↦ rw e refl
  | inr (m, e) ↦
      let p : map_size m < size q = as_object-size q e in
      rw
        (
          e,
          fold-congr (walk_entry rec) (walk_entry rec') m (
              walk_entries-congr rec rec' m (map_size m) (omega arith) (λ v le. h v (omega arith))),
        )
        refl
])

-- The recursion has fuel for every query: the function satisfies the equation of its body.
pub walk_eq : (query : Value) → walk query ≡ walk_clause walk query
unfolding walk
walk_eq query = fix_eq size (λ c. ok c) walk_clause walk_clause-IsLocal query
