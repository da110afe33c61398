-- ===== src/Aggregations/Insertion.antt =====
-- An insertion sort, which keeps the promises of `slice::sort_by`.
use qdrant_es_gateway.Prelude.{ℕ, ◌≡◌, ◌≢◌, refl, arith, [], ◌∷◌, All, Option, some}
use Prim.Native.Nat.{Ordering}
use mathlib.Core.List.{Perm}
use mathlib.Core.List.Perm
use qdrant_es_gateway.Json.{Value}
use qdrant_es_gateway.Aggregations.Finish.{Buckets}
use qdrant_es_gateway.Aggregations.Sort.{Comparison, IsTotal, IsOrdered, IsSort}

module _ (cmp' : Comparison) where
  unfoldable pub insert_bucket : Value × ℕ → Buckets → Buckets
  insert_bucket bucket [] = bucket ∷ []
  insert_bucket bucket (other ∷ buckets) =
      let later = insert_bucket bucket buckets in
      elim (cmp' bucket other) [ Ordering.gt ↦ other ∷ later | _ ↦ bucket ∷ other ∷ buckets ]

  unfoldable pub sort_buckets : Buckets → Buckets
  sort_buckets [] = []
  sort_buckets (bucket ∷ buckets) = insert_bucket bucket (sort_buckets buckets)

  data Place (a b : Value × ℕ) (rest : Buckets) : Type 0 where
    first : cmp' a b ≢ Ordering.gt → insert_bucket a (b ∷ rest) ≡ a ∷ b ∷ rest → Place a b rest
    later :
        cmp' a b ≡ Ordering.gt
        → insert_bucket a (b ∷ rest) ≡ b ∷ insert_bucket a rest
        → Place a b rest

  place : (a b : Value × ℕ) (rest : Buckets) → Place a b rest
  unfolding insert_bucket
  place a b rest = go (cmp' a b) refl
    where
      go : (o : Ordering) → cmp' a b ≡ o → Place a b rest
      go Ordering.lt e = first (ground arith) (rw (e, insert_bucket) refl)
      go Ordering.eq e = first (ground arith) (rw (e, insert_bucket) refl)
      go Ordering.gt e = later e (rw (e, insert_bucket) refl)

  insert_bucket-perm :
      (a : Value × ℕ) (buckets : Buckets) → Perm (a ∷ buckets) (insert_bucket a buckets)
  unfolding insert_bucket
  insert_bucket-perm a [] = Perm.refl (a ∷ [])
  insert_bucket-perm a (b ∷ rest) = elim (place a b rest) [
    | first h e ↦ rw e (Perm.refl (a ∷ b ∷ rest))
    | later h e ↦ rw e (Perm.trans (Perm.swap b a rest) (Perm.cons b (insert_bucket-perm a rest)))
  ]

  sort_buckets-perm : (buckets : Buckets) → Perm buckets (sort_buckets buckets)
  unfolding sort_buckets
  sort_buckets-perm [] = Perm.refl []
  sort_buckets-perm (b ∷ buckets) =
      Perm.trans (Perm.cons b (sort_buckets-perm buckets))
        (insert_bucket-perm b (sort_buckets buckets))

  All-insert_bucket :
      (Q : Value × ℕ → Type 0) (a : Value × ℕ) (buckets : Buckets)
      → Q a
      → All Q buckets
      → All Q (insert_bucket a buckets)
  unfolding insert_bucket
  All-insert_bucket Q a [] p h = (p, tt)
  All-insert_bucket Q a (b ∷ rest) p (q, h) = elim (place a b rest) [
    | first l e ↦ rw e (p, (q, h))
    | later l e ↦ rw e (q, All-insert_bucket Q a rest p h)
  ]

  All-sort_buckets :
      (Q : Value × ℕ → Type 0) (buckets : Buckets) → All Q buckets → All Q (sort_buckets buckets)
  unfolding sort_buckets
  All-sort_buckets Q [] h = tt
  All-sort_buckets Q (b ∷ buckets) (p, h) =
      All-insert_bucket Q b (sort_buckets buckets) p (All-sort_buckets Q buckets h)

  module _ {P : Value × ℕ → Type 0} (order : IsTotal cmp' P) where
    below-All :
        (a b : Value × ℕ) (rest : Buckets)
        → P a
        → P b
        → cmp' a b ≢ Ordering.gt
        → All P rest
        → All (λ c. cmp' b c ≢ Ordering.gt) rest
        → All (λ c. cmp' a c ≢ Ordering.gt) rest
    below-All a b [] p q h ps hs = tt
    below-All a b (c ∷ rest) p q h (r, ps) (g, hs) =
        (order.transitive a b c p q r h g, below-All a b rest p q h ps hs)

    turned : (a b : Value × ℕ) → P a → P b → cmp' a b ≡ Ordering.gt → cmp' b a ≢ Ordering.gt
    turned a b p q h = ground (arith, order.reversed a b p q)

    IsOrdered-insert_bucket :
        (a : Value × ℕ) (buckets : Buckets)
        → P a
        → All P buckets
        → IsOrdered cmp' buckets
        → IsOrdered cmp' (insert_bucket a buckets)
    unfolding insert_bucket
    IsOrdered-insert_bucket a [] p ps h = (tt, tt)
    IsOrdered-insert_bucket a (b ∷ rest) p (q, ps) (g, h) = elim (place a b rest) [
      | first l e ↦ rw e ((l, below-All a b rest p q l ps g), (g, h))
      | later l e ↦ rw e (
        All-insert_bucket (λ c. cmp' b c ≢ Ordering.gt) a rest (turned a b p q l) g,
        IsOrdered-insert_bucket a rest p ps h,
      )
    ]

    IsOrdered-sort_buckets :
        (buckets : Buckets) → All P buckets → IsOrdered cmp' (sort_buckets buckets)
    unfolding sort_buckets
    IsOrdered-sort_buckets [] h = tt
    IsOrdered-sort_buckets (b ∷ buckets) (p, h) =
        IsOrdered-insert_bucket b (sort_buckets buckets) p (All-sort_buckets P buckets h)
          (IsOrdered-sort_buckets buckets h)

some_inj {ℓ} : {A : Type ℓ} {a b : A} → some a ≡ some b → a ≡ b
some_inj h = cc

abbrev pub insertion : Comparison → Buckets → Option Buckets
insertion cmp' buckets = some (sort_buckets cmp' buckets)

pub insertion-IsSort : IsSort insertion
insertion-IsSort = record {
  permutes = λ cmp' buckets e. rw (← some_inj e) (sort_buckets-perm cmp' buckets);
  sorts = λ cmp' P buckets order h.
      (sort_buckets cmp' buckets, refl, IsOrdered-sort_buckets cmp' order buckets h);
}
