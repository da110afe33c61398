-- ===== src/Catalog/Laws.antt =====
-- An administrator that holds the claim is alone until it gives the claim back.
use qdrant_es_gateway.Prelude.{
  ◌≡◌, ◌≢◌, refl, ap, ◌∙◌, String, false, List, [], ◌∷◌, none, some, arith, All, eq-cases, inl, inr,
  sym, ◌==◌,
}
use qdrant_es_gateway.Catalog.{
  Keys, begin_script, publish_catalog, release_claim, CatalogCall, begin_call, publish_call,
  release_call, step, run_calls,
}

-- A call that does not use the claim.
abbrev pub Foreign : String → CatalogCall → Type 0
Foreign claim (begin_call token) = Unit
Foreign claim (publish_call token payload) = token ≢ claim
Foreign claim (release_call token) = token ≢ claim

foreign-holds : (claim token : String) → token ≢ claim → (claim == token) ≡ false
foreign-holds claim token h = elim (eq-cases claim token) [
  | inl (e, same) ↦ absurd (h (sym same))
  | inr (e, other) ↦ e
]

step-claimed :
    (claim : String) (call : CatalogCall) (keys : Keys)
    → keys.claim ≡ some claim
    → Foreign claim call
    → step call keys ≡ keys
unfolding begin_script publish_catalog release_claim
step-claimed claim (begin_call token) keys e f = ground arith
step-claimed claim (publish_call token payload) keys e f =
    ground (arith, foreign-holds claim token f)
step-claimed claim (release_call token) keys e f = ground (arith, foreign-holds claim token f)

run_calls-claimed :
    (claim : String) (calls : List CatalogCall) (keys : Keys)
    → keys.claim ≡ some claim
    → All (Foreign claim) calls
    → run_calls calls keys ≡ keys
run_calls-claimed claim [] keys e f = refl
run_calls-claimed claim (call ∷ calls) keys e (f, fs) =
    ap (run_calls calls) (step-claimed claim call keys e f)
    ∙ run_calls-claimed claim calls keys e fs

begin-claimed :
    (claim token : String) (keys : Keys)
    → keys.claim ≡ some claim
    → begin_script token keys ≡ (none, keys)
unfolding begin_script
begin-claimed claim token keys e = ground arith

-- While an administrator holds a claim, no calls of others change the catalog or the claim, and no
-- one else begins, reader or administrator.
pub claim-excludes :
    (claim token : String) (calls : List CatalogCall) (keys : Keys)
    → keys.claim ≡ some claim
    → All (Foreign claim) calls
    → (run_calls calls keys ≡ keys) × (begin_script token (run_calls calls keys) ≡ (none, keys))
claim-excludes claim token calls keys e f =
    let same = run_calls-claimed claim calls keys e f in
    (same, ap (begin_script token) same ∙ begin-claimed claim token keys e)
