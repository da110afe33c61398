-- ===== src/Aggregations/Counts.antt =====
-- Counts under keys in order, as a `BTreeMap` keeps them: the value that first had the key, and the
-- number of documents.
use qdrant_es_gateway.Prelude.{
  ℕ, ◌+◌, String, Bool, true, false, List, [], ◌∷◌, if◌then◌else◌, any, codes, lex,
}
use Prim.Native.Nat.{Ordering}
use qdrant_es_gateway.Json.{Value}

abbrev pub text_cmp : String → String → Ordering
text_cmp a b = lex (codes a) (codes b)

abbrev pub is_eq : Ordering → Bool
is_eq Ordering.eq = true
is_eq _ = false

module _ {K : Type 0} (order : K → K → Ordering) where
  -- `entry(key).or_insert_with(|| (value, 0)).1 += 1`
  unfoldable pub bump : K → Value → List (K × Value × ℕ) → List (K × Value × ℕ)
  bump key value [] = (key, value, 1) ∷ []
  bump key value ((k, v, n) ∷ rest) =
      let later = bump key value rest in
      elim (order key k) [
        | Ordering.eq ↦ (k, v, n + 1) ∷ rest
        | Ordering.lt ↦ (key, value, 1) ∷ (k, v, n) ∷ rest
        | Ordering.gt ↦ (k, v, n) ∷ later
      ]

  abbrev pub among : K → List K → Bool
  among key seen = any (λ k. is_eq (order key k)) seen

  -- The loop over the keys of a document: a key counts once.
  unfoldable pub bump_new : List K → List (K × Value) → List (K × Value × ℕ) → List (K × Value × ℕ)
  bump_new seen [] counts = counts
  bump_new seen ((key, value) ∷ keys) counts =
      if among key seen
      then bump_new seen keys counts
      else bump_new (key ∷ seen) keys (bump key value counts)

  unfoldable pub bump_all : List (K × Value) → List (K × Value × ℕ) → List (K × Value × ℕ)
  bump_all keys counts = bump_new [] keys counts
