-- ===== src/Search/Totals/Laws.antt =====
-- What a reported total says.
use qdrant_es_gateway.Prelude.{
  ℕ, ◌≤◌, ◌≡◌, refl, String, Bool, true, false, ◌&&◌, some, arith, if◌then◌else◌, leb, min, eq_iff,
}
use qdrant_es_gateway.Search.Totals.{
  TrackTotalHits, enabled, disabled, threshold, total_hits_value, total_object,
}

abbrev relation : Bool → String
relation b = if b then "eq" else "gte"

relation-injective : (a b : Bool) → relation a ≡ relation b → a ≡ b
relation-injective true true h = refl
relation-injective true false h = absurd (ground (arith, eq_iff "eq" "gte"))
relation-injective false true h = absurd (ground (arith, eq_iff "gte" "eq"))
relation-injective false false h = refl

total_object-injective :
    (m n : ℕ) (a b : Bool) → some (total_object m a) ≡ some (total_object n b) → (m ≡ n) × (a ≡ b)
total_object-injective m n a b h = (ground arith, relation-injective a b (ground arith))

-- A total that is reported as an object is a lower bound of the hits; if its relation is `eq`, it is
-- their number, provided that `total` is the number of hits where it is called exact and a lower
-- bound otherwise.
pub total_hits_value_sound :
    (mode : TrackTotalHits) (total hits reported : ℕ) (exact is_exact : Bool)
    → total ≤ hits
    → (exact ≡ true → total ≡ hits)
    → total_hits_value mode total exact false ≡ some (total_object reported is_exact)
    → (reported ≤ hits) × (is_exact ≡ true → reported ≡ hits)
unfolding total_hits_value
total_hits_value_sound enabled total hits reported exact is_exact le exact_e h =
    let (m, e) = total_object-injective total reported exact is_exact h in ground arith
total_hits_value_sound disabled total hits reported exact is_exact le exact_e h = cc
total_hits_value_sound (threshold n) total hits reported exact is_exact le exact_e h =
    let (m, e) = total_object-injective (min total n) reported (exact && leb total n) is_exact h in
    ground arith
