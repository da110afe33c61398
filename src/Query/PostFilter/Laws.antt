-- ===== src/Query/PostFilter/Laws.antt =====
-- `validate` ends, and satisfies the equation of the source.
use qdrant_es_gateway.Prelude.{
  ℕ, ◌≤◌, ◌<◌, ◌≡◌, refl, ap, String, List, [], ◌∷◌, arith, All, All-map, Option-cases, inl, inr,
}
use mathlib.Core.Path.{fun_ext}
use qdrant_es_gateway.Prelude.Fixpoint.{fix_eq, IsLocal}
use qdrant_es_gateway.Errors.{Result, ok, ◌>>=◌, for_each}
use qdrant_es_gateway.Parse.{concat}
use qdrant_es_gateway.Json.{Value, Map, as_object}
use qdrant_es_gateway.Json.Size.{size, map_size, as_object-size}
use qdrant_es_gateway.Query.Bool.{clause_list}
use qdrant_es_gateway.Query.Bool.Sizes.{clause_list-size}
use qdrant_es_gateway.Query.PostFilter.{
  validate_bool_entry, validate_bool, validate_kind, one_clause, validate_clause, validate,
}

for_each-congr {ℓ} :
    {A : Type ℓ} (f g : A → Result (Unit {0})) (xs : List A)
    → All (λ x. f x ≡ g x) xs
    → for_each f xs ≡ for_each g xs
for_each-congr f g [] h = refl
for_each-congr f g (x ∷ xs) (e, h) = rw (e, for_each-congr f g xs h) refl

module _ (f g : Value → String → Result (Unit {0})) where
  entry-congr :
      (feature key : String) (value : Value) (n : ℕ)
      → size value ≤ n
      → ((v : Value) → size v ≤ n → f v ≡ g v)
      → validate_bool_entry f feature (key, value) ≡ validate_bool_entry g feature (key, value)
  unfolding validate_bool_entry
  entry-congr feature key value n h agree =
      let path = concat feature (concat ".bool." key) in
      rw
        (for_each-congr (λ clause. f clause path) (λ clause. g clause path) (clause_list value)
          (All-map (λ v le. ap (λ (k : String → Result (Unit {0})). k path) (agree v le))
            (clause_list value) (clause_list-size value n h)))
        refl

  entries-congr :
      (feature : String) (m : Map) (n : ℕ)
      → map_size m ≤ n
      → ((v : Value) → size v ≤ n → f v ≡ g v)
      → for_each (validate_bool_entry f feature) m ≡ for_each (validate_bool_entry g feature) m
  unfolding map_size
  entries-congr feature [] n h agree = refl
  entries-congr feature ((key, value) ∷ m) n h agree =
      rw
        (
          entry-congr feature key value n (omega arith) agree,
          entries-congr feature m n (omega arith) agree,
        )
        refl

  bool-congr :
      (feature : String) (value : Value)
      → ((v : Value) → size v ≤ size value → f v ≡ g v)
      → validate_bool f feature value ≡ validate_bool g feature value
  unfolding validate_bool
  bool-congr feature value agree = elim (Option-cases (as_object value)) [
    | inl e ↦ rw e refl
    | inr (m, e) ↦
        let p : map_size m < size value = as_object-size value e in
        rw e (entries-congr feature m (size value) (omega arith) agree)
  ]

  kind-congr :
      (feature kind : String) (value : Value)
      → ((v : Value) → size v ≤ size value → f v ≡ g v)
      → validate_kind f feature kind value ≡ validate_kind g feature kind value
  unfolding validate_kind
  kind-congr feature kind value agree = rw (bool-congr feature value agree) refl

  clause-congr :
      (feature : String) (m : Map) (n : ℕ)
      → map_size m ≤ n
      → ((v : Value) → size v ≤ n → f v ≡ g v)
      → (one_clause feature m >>= λ c. validate_kind f feature c.0 c.1)
        ≡ (one_clause feature m >>= λ c. validate_kind g feature c.0 c.1)
  unfolding map_size
  clause-congr feature [] n h agree = refl
  clause-congr feature ((kind, value) ∷ []) n h agree =
      kind-congr feature kind value (λ v le. agree v (omega arith))
  clause-congr feature (a ∷ b ∷ m) n h agree = refl

validate_clause-IsLocal : IsLocal size (λ feature. ok tt) validate_clause
unfolding validate_clause
validate_clause-IsLocal rec rec' q h = fun_ext (λ feature. elim (Option-cases (as_object q)) [
  | inl e ↦ rw e refl
  | inr (m, e) ↦
      let p : map_size m < size q = as_object-size q e in
      rw e (clause-congr rec rec' feature m (map_size m) (omega arith) (λ v le. h v (omega arith)))
])

-- The recursion has fuel for every query: the function satisfies the equation of its body.
pub validate_eq : (query : Value) → validate query ≡ validate_clause validate query
unfolding validate
validate_eq query = fix_eq size (λ feature. ok tt) validate_clause validate_clause-IsLocal query
