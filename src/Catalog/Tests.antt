-- ===== src/Catalog/Tests.antt =====
-- A claimed catalog, and the theorem applied to it.
use qdrant_es_gateway.Prelude.{◌≡◌, refl, List, [], ◌∷◌, none, some, arith, eq_iff, true}
use qdrant_es_gateway.Catalog.{
  Keys, begin_script, release_claim, CatalogCall, begin_call, publish_call, release_call, run_calls,
}
use qdrant_es_gateway.Catalog.Laws.{claim-excludes}

abbrev keys : Keys
keys = record { catalog = some "{}"; claim = some "a" }

abbrev calls : List CatalogCall
calls = begin_call "b" ∷ publish_call "b" "[]" ∷ release_call "c" ∷ []

release_test : release_claim "a" keys ≡ (true, record { catalog = some "{}"; claim = none })
unfolding release_claim
release_test = refl

claim-excludes_example :
    (run_calls calls keys ≡ keys) × (begin_script "d" (run_calls calls keys) ≡ (none, keys))
claim-excludes_example =
    claim-excludes "a" "d" calls keys refl
      (tt, (λ e. ground (arith, eq_iff "b" "a"), (λ e. ground (arith, eq_iff "c" "a"), tt)))
