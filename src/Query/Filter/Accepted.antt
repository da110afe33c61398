-- ===== src/Query/Filter/Accepted.antt =====
-- What `validate_post_filter` accepts, `query_filter` translates.
use qdrant_es_gateway.Prelude.{
  ℕ, zero, suc, ◌≤◌, ◌<◌, ◌≡◌, refl, sym, ap, ◌∙◌, String, Bool, true, false, not, ◌||◌, List, [],
  ◌∷◌, ◌++◌, Option, none, some, arith, All, All-map, Option-cases, Bool-cases, eq-cases, inl, inr,
  is_empty, ltb, head?, length,
}
use mathlib.Core.Path.{subst}
use qdrant_es_gateway.Errors.{
  Result, ok, err, bad, GatewayError, is_ok, ok_or, for_each, refuse, >>=-eq-ok, ok_or-eq-ok,
}
use qdrant_es_gateway.Parse.{concat, is_empty_str}
use qdrant_es_gateway.Json.{
  Value, Map, array, object, elems, lookup, get, as_object, as_array, as_str, string, is_array,
}
use qdrant_es_gateway.Json.Size.{size, map_size, as_object-size}
use qdrant_es_gateway.Query.Fields.{single_filter_field, one_field}
use qdrant_es_gateway.Query.Bool.{bool_clauses, clause_list, minimum_should_match}
use qdrant_es_gateway.Query.Bool.Sizes.{bool_clauses-size}
use qdrant_es_gateway.Query.PostFilter.{
  validate, validate_clause, validate_kind, validate_term, validate_terms, validate_range,
  validate_exists, validate_bound, validate_bool, validate_bool_entry, validate_post_filter,
  one_clause, is_clause_key, as_str_of, is_none_or,
}
use qdrant_es_gateway.Query.PostFilter.Laws.{validate_eq}
use qdrant_es_gateway.Query.Filter.{
  Conditions, no_conditions, and_then, first_field, fold, clause_condition, condition, finish,
  walk_must_not, push_should, walk_should, walk_bool, walk_entry, walk_clause, walk, walk_term,
  walk_terms, walk_range, walk_exists, range_operator, range_entry, add_bound, query_filter,
}
use qdrant_es_gateway.Query.Filter.Laws.{walk_eq}

for_each-All {ℓ} :
    {A : Type ℓ} (f : A → Result (Unit {0})) (xs : List A)
    → for_each f xs ≡ ok tt
    → All (λ x. f x ≡ ok tt) xs
for_each-All f [] h = tt
for_each-All f (x ∷ xs) h =
    let (u, here, later) = >>=-eq-ok (f x) (λ _. for_each f xs) h in (here, for_each-All f xs later)

All-lookup {κ} :
    (P : String × Value → Type κ) (key : String) (m : Map) {v : Value}
    → All P m
    → lookup key m ≡ some v
    → P (key, v)
unfolding lookup
All-lookup P key [] a h = absurd (ground arith)
All-lookup P key ((k, w) ∷ m) {v} (p, a) h = elim (eq-cases k key) [
  | inl (e, same) ↦
      let found : w ≡ v = ground arith in
      subst P (ap (λ (s : String). (s, v)) same) (subst (λ (x : Value). P (k, x)) found p)
  | inr (e, other) ↦ All-lookup P key m a (ground arith)
]

-- A step succeeds from every state and leaves the texts alone.
abbrev Accepts {ℓ} : {A : Type ℓ} → (A → Conditions → Result Conditions) → A → Type 0
Accepts f a = (c : Conditions) → (c' : Conditions) × (f a c ≡ ok c') × (c'.text ≡ c.text)

abbrev Kept : Conditions → Result Conditions → Type 0
Kept c (ok c') = c'.text ≡ c.text
Kept c (err e) = ⊥

kept :
    (c : Conditions) (r : Result Conditions)
    → Kept c r
    → (c' : Conditions) × (r ≡ ok c') × (c'.text ≡ c.text)
kept c (ok c') h = (c', refl, h)
kept c (err e) h = absurd h

fold-Accepts :
    (f : Value → Conditions → Result Conditions) (xs : List Value)
    → All (Accepts f) xs
    → Accepts (fold f) xs
fold-Accepts f [] h c = (c, refl, refl)
fold-Accepts f (x ∷ xs) (p, h) c =
    let (c1, e1, t1) = p c in let (c2, e2, t2) = fold-Accepts f xs h c1 in (c2, rw e1 e2, t2 ∙ t1)

module _ (walk : Value → Conditions → Result Conditions) where
  clause_condition-ok :
      (e : GatewayError) (q : Value)
      → Accepts walk q
      → (v : Value) × (clause_condition walk e q ≡ ok v)
  clause_condition-ok e q accepts =
      let (c, done, texts) = accepts no_conditions in
      (condition c.must c.must_not, rw (done, texts) refl)

  walk_must_not-Accepts : (q : Value) → Accepts walk q → Accepts (walk_must_not walk) q
  unfolding walk_must_not
  walk_must_not-Accepts q accepts c =
      let (v, e) =
        clause_condition-ok (bad "query.bool.must_not" "text must_not is not supported safely") q
          accepts in
      kept c _ (rw (e, Kept) refl)

  fold-push_should :
      (qs : List Value) (vs : List Value)
      → All (Accepts walk) qs
      → (out : List Value) × (fold (push_should walk) qs vs ≡ ok out)
  unfolding push_should
  fold-push_should [] vs h = (vs, refl)
  fold-push_should (q ∷ qs) vs (p, h) =
      let (v, e) =
        clause_condition-ok (bad "query.bool.should" "text should clauses are not supported safely")
          q p in
      let (out, later) = fold-push_should qs (vs ++ v ∷ []) h in (out, rw e later)

  walk_should-Accepts :
      (b : Map) → All (Accepts walk) (bool_clauses b "should") → Accepts (walk_should walk) b
  unfolding walk_should
  walk_should-Accepts b h c =
      let (out, e) = fold-push_should (bool_clauses b "should") [] h in
      let minimum =
        minimum_should_match b (length (bool_clauses b "should"))
          (not (is_empty (bool_clauses b "must")) || not (is_empty (bool_clauses b "filter"))) in
      elim (Bool-cases (is_empty (bool_clauses b "should"))) [
        | inl none_given ↦ (c, rw none_given refl, refl)
        | inr some_given ↦ elim (Bool-cases (ltb 0 minimum)) [
          | inl wanted ↦ kept c _ (rw (some_given, e, wanted, Kept) refl)
          | inr unwanted ↦ kept c _ (rw (some_given, e, unwanted, Kept) refl)
        ]
      ]

  module _ (b : Map)
      (h : (key : String)
        → is_clause_key key ≡ true
        → All (Accepts walk) (bool_clauses b key)) where
    walk_bool-Accepts : (v : Value) → as_object v ≡ some b → Accepts (walk_bool walk) v
    unfolding walk_bool
    walk_bool-Accepts v e c =
        let (c1, e1, t1) = fold-Accepts walk (bool_clauses b "must") (h "must" refl) c in
        let (c2, e2, t2) = fold-Accepts walk (bool_clauses b "filter") (h "filter" refl) c1 in
        let (c3, e3, t3) =
          fold-Accepts (walk_must_not walk) (bool_clauses b "must_not")
            (All-map walk_must_not-Accepts (bool_clauses b "must_not") (h "must_not" refl)) c2 in
        let (c4, e4, t4) = walk_should-Accepts b (h "should" refl) c3 in
        (c4, rw (e, e1, e2, e3) e4, t4 ∙ t3 ∙ t2 ∙ t1)

single_filter_field-eq-ok :
    (v : Value) (feature : String) {f : String} {x : Value}
    → single_filter_field v feature ≡ ok (f, x)
    → first_field v ≡ some (f, x)
unfolding single_filter_field
single_filter_field-eq-ok v feature {f} {x} h =
    let (m, object_e, one_e) =
      >>=-eq-ok (ok_or (as_object v) (bad feature "filter body must be an object"))
        (one_field feature) h in
    let e : as_object v ≡ some m = ok_or-eq-ok (as_object v) _ object_e in rw e (first m one_e)
  where
    first : (m : Map) → one_field feature m ≡ ok (f, x) → head? m ≡ some (f, x)
    first [] k = cc
    first ((g, y) ∷ []) k = ground arith
    first (a ∷ b ∷ m) k = cc

or_false : (a b : Bool) → (a || b) ≡ false → (a ≡ false) × (b ≡ false)
or_false true b h = cc
or_false false b h = (refl, h)

refuse-ok : (b : Bool) (e : GatewayError) → refuse b e ≡ ok tt → b ≡ false
refuse-ok true e h = cc
refuse-ok false e h = refl

is_ok-ok {ℓ} : {A : Type ℓ} (r : Result A) → is_ok r ≡ true → (a : A) × (r ≡ ok a)
is_ok-ok (ok a) h = (a, refl)
is_ok-ok (err e) h = cc

as_array-some : (v : Value) → not (is_array v) ≡ false → (vs : List Value) × (as_array v ≡ some vs)
as_array-some (array xs) h = (elems xs, refl)
as_array-some _ h = cc

get-as_object :
    (key : String) (v : Value) {m : Map} → as_object v ≡ some m → get key v ≡ lookup key m
get-as_object key (object fs) h = ground arith
get-as_object key _ h = cc

as_str-some :
    (o : Option Value)
    → is_none_or (as_str_of o) is_empty_str ≡ false
    → (s : String) × (and_then o as_str ≡ some s)
as_str-some none h = cc
as_str-some (some (string s)) h = (s, refl)
as_str-some (some _) h = cc

walk_term-Accepts :
    (feature : String) (v : Value) → validate_term feature v ≡ ok tt → Accepts walk_term v
unfolding validate_term walk_term
walk_term-Accepts feature v h c =
    let ((f, x), e, k) = >>=-eq-ok (single_filter_field v (concat feature ".term")) _ h in
    kept c _ (rw (single_filter_field-eq-ok v _ e, Kept) refl)

walk_terms-Accepts :
    (feature : String) (v : Value) → validate_terms feature v ≡ ok tt → Accepts walk_terms v
unfolding validate_terms walk_terms
walk_terms-Accepts feature v h c =
    let ((f, x), e, k) = >>=-eq-ok (single_filter_field v (concat feature ".terms")) _ h in
    let (vs, a) = as_array-some x (refuse-ok _ _ k) in
    kept c _ (rw (single_filter_field-eq-ok v _ e, a, Kept) refl)

range_operator-ok :
    (feature op : String) (r value : Value)
    → validate_bound feature (op, value) ≡ ok tt
    → (o : Option String) × (range_operator r op ≡ ok o)
unfolding validate_bound range_operator
range_operator-ok feature op r value h = is_ok-ok (range_operator r op) (ground arith)

fold-range_entry :
    (feature : String) (r : Value) (bounds range : Map)
    → for_each (validate_bound feature) bounds ≡ ok tt
    → (out : Map) × (fold (range_entry r) bounds range ≡ ok out)
fold-range_entry feature r [] range h = (range, refl)
fold-range_entry feature r ((op, value) ∷ bounds) range h =
    let (u, here, later) =
      >>=-eq-ok (validate_bound feature (op, value)) (λ _. for_each (validate_bound feature) bounds)
        h in
    let (o, e) = range_operator-ok feature op r value here in
    let (out, rest) = fold-range_entry feature r bounds (add_bound o value range) later in
    (out, rw e rest)

walk_range-Accepts :
    (feature : String) (v : Value) → validate_range feature v ≡ ok tt → Accepts walk_range v
unfolding validate_range walk_range
walk_range-Accepts feature v h c =
    let ((f, body), e, k) = >>=-eq-ok (single_filter_field v (concat feature ".range")) _ h in
    let (bounds, object_e, entries_e) =
      >>=-eq-ok
        (ok_or (as_object body) (bad (concat feature ".range") "range body must be an object")) _
        k in
    let (out, done) = fold-range_entry feature body bounds [] entries_e in
    kept c _ (
      rw (single_filter_field-eq-ok v _ e, ok_or-eq-ok (as_object body) _ object_e, done, Kept)
        refl)

walk_exists-Accepts :
    (feature : String) (v : Value) → validate_exists feature v ≡ ok tt → Accepts walk_exists v
unfolding validate_exists walk_exists
walk_exists-Accepts feature v h c =
    let (options, object_e, k) =
      >>=-eq-ok
        (ok_or (as_object v) (bad (concat feature ".exists") "exists body must be an object")) _
        h in
    let e : as_object v ≡ some options = ok_or-eq-ok (as_object v) _ object_e in
    let (wrong, missing) = or_false _ _ (refuse-ok _ _ k) in
    let (s, named) = as_str-some (lookup "field" options) missing in
    kept c _ (rw (get-as_object "field" v e, named, Kept) refl)

-- A clause that is validated under some path.
abbrev Validated : Value → Type 0
Validated q = (feature : String) × (validate q feature ≡ ok tt)

entry-clauses :
    (feature key : String) (w : Value)
    → is_clause_key key ≡ true
    → validate_bool_entry validate feature (key, w) ≡ ok tt
    → All Validated (clause_list w)
unfolding validate_bool_entry
entry-clauses feature key w is_key h =
    let path = concat feature (concat ".bool." key) in
    All-map (λ q e. (path, e)) (clause_list w)
      (for_each-All (λ clause. validate clause path) (clause_list w) (rw is_key at h))

single-size :
    (q : Value) (kind : String) (v : Value) → as_object q ≡ some ((kind, v) ∷ []) → size v < size q
unfolding map_size
single-size q kind v e =
    let p : map_size ((kind, v) ∷ []) < size q = as_object-size q e in omega (arith, p)

validate_bool-clauses :
    (feature : String) (v : Value)
    → validate_bool validate feature v ≡ ok tt
    → (b : Map) × (as_object v ≡ some b)
      × ((key : String) → is_clause_key key ≡ true → All Validated (bool_clauses b key))
unfolding validate_bool bool_clauses
validate_bool-clauses feature v h =
    let (b, object_e, entries_e) =
      >>=-eq-ok (ok_or (as_object v) (bad (concat feature ".bool") "bool filter must be an object"))
        _ h in
    (
      b,
      ok_or-eq-ok (as_object v) _ object_e,
      λ key is_key.
          under b (for_each-All (validate_bool_entry validate feature) b entries_e) key is_key,
    )
  where
    under :
        (b : Map)
        → All (λ e. validate_bool_entry validate feature e ≡ ok tt) b
        → (key : String) → is_clause_key key ≡ true
        → All Validated (bool_clauses b key)
    under b a key is_key = elim (Option-cases (lookup key b)) [
      | inl e ↦ rw (e, All) tt
      | inr (w, e) ↦
          let entry = All-lookup (λ e. validate_bool_entry validate feature e ≡ ok tt) key b a e in
          rw (e, All) (entry-clauses feature key w is_key entry)
    ]

module _ (v : Value) (ih : (q : Value) → size q < size v → Validated q → Accepts walk q) where
  walk_bool-Validated :
      (feature : String) → validate_bool validate feature v ≡ ok tt → Accepts (walk_bool walk) v
  walk_bool-Validated feature h =
      let (b, e, clauses) = validate_bool-clauses feature v h in
      let small : map_size b < size v = as_object-size v e in
      walk_bool-Accepts walk b
        (λ key is_key.
          both (map_size b) small (bool_clauses b key)
            (bool_clauses-size b key (map_size b) (omega arith)) (clauses key is_key))
        v e
    where
      both :
          (n : ℕ)
          → n < size v
          → (qs : List Value) → All (λ q. size q ≤ n) qs
          → All Validated qs
          → All (Accepts walk) qs
      both n lt [] a b = tt
      both n lt (q ∷ qs) (le, a) (valid, b) = (ih q (omega arith) valid, both n lt qs a b)

  walk_entry-Validated :
      (feature kind : String)
      → validate_kind validate feature kind v ≡ ok tt
      → Accepts (walk_entry walk) (kind, v)
  unfolding walk_entry validate_kind
  walk_entry-Validated feature kind h = elim (eq-cases kind "match_all") [
    | inl (e, same) ↦ rw same (λ c. (c, refl, refl))
    | inr (n1, d1) ↦ elim (eq-cases kind "term") [
      | inl (e, same) ↦ rw same (walk_term-Accepts feature v (rw same at h))
      | inr (n2, d2) ↦ elim (eq-cases kind "terms") [
        | inl (e, same) ↦ rw same (walk_terms-Accepts feature v (rw same at h))
        | inr (n3, d3) ↦ elim (eq-cases kind "range") [
          | inl (e, same) ↦ rw same (walk_range-Accepts feature v (rw same at h))
          | inr (n4, d4) ↦ elim (eq-cases kind "exists") [
            | inl (e, same) ↦ rw same (walk_exists-Accepts feature v (rw same at h))
            | inr (n5, d5) ↦ elim (eq-cases kind "bool") [
              | inl (e, same) ↦ rw same (walk_bool-Validated feature (rw same at h))
              | inr (n6, d6) ↦ absurd (ground arith)
            ]
          ]
        ]
      ]
    ]
  ]

one_clause-eq-ok :
    (feature : String) (m : Map) {clause : String × Value}
    → one_clause feature m ≡ ok clause
    → m ≡ clause ∷ []
one_clause-eq-ok feature [] h = cc
one_clause-eq-ok feature (a ∷ []) h = ground arith
one_clause-eq-ok feature (a ∷ b ∷ m) h = cc

validate-entry :
    (q : Value) (feature : String)
    → validate q feature ≡ ok tt
    → (kind : String) × (v : Value) × (as_object q ≡ some ((kind, v) ∷ []))
      × (validate_kind validate feature kind v ≡ ok tt)
unfolding validate_clause
validate-entry q feature h =
    let valid : validate_clause validate q feature ≡ ok tt =
      sym (ap (λ (k : String → Result (Unit {0})). k feature) (validate_eq q)) ∙ h in
    let (m, object_e, clause_e) =
      >>=-eq-ok (ok_or (as_object q) (bad feature "filter clause must be an object")) _ valid in
    let ((kind, v), one_e, kind_e) = >>=-eq-ok (one_clause feature m) _ clause_e in
    (
      kind,
      v,
      ok_or-eq-ok (as_object q) _ object_e ∙ ap some (one_clause-eq-ok feature m one_e),
      kind_e,
    )

walk-entry :
    (q : Value) {entry : String × Value} (c c' : Conditions)
    → as_object q ≡ some (entry ∷ [])
    → walk_entry walk entry c ≡ ok c'
    → walk q c ≡ ok c'
unfolding walk_clause
walk-entry q c c' e done = rw (walk_eq q, e, done) refl

-- The induction is on a bound of the size.
walk-Validated : (n : ℕ) (q : Value) → size q < n → Validated q → Accepts walk q
walk-Validated zero q lt valid c = elim lt [ ]
walk-Validated (suc n) q lt (feature, h) c =
    let (kind, v, e, kind_e) = validate-entry q feature h in
    let smaller : size v < size q = single-size q kind v e in
    let (c', done, texts) =
      walk_entry-Validated v
        (λ r less valid_r. walk-Validated n r (omega (arith, less, smaller, lt)) valid_r) feature
        kind kind_e c in
    (c', walk-entry q c c' e done, texts)

-- A filter that `validate_post_filter` accepts is translated without an error, so it can be answered
-- by Qdrant as well as by the gateway.
pub query_filter-validated :
    (q : Value) → validate_post_filter q ≡ ok tt → (f : Option Value) × (query_filter q ≡ ok f)
unfolding query_filter validate_post_filter
query_filter-validated q h =
    let (c, done, texts) =
      walk-Validated (suc (size q)) q (omega arith) ("post_filter", h) no_conditions in
    (finish c, rw done refl)
