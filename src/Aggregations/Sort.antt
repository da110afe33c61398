-- ===== src/Aggregations/Sort.antt =====
-- What `slice::sort_by` promises, and keys of buckets on which `value_cmp` is a total order.
use qdrant_es_gateway.Prelude.{
  ℕ, ◌≡◌, ◌≢◌, refl, String, List, [], ◌∷◌, All, Option, some, codes, lex, arith,
}
use Prim.Native.Nat.{Ordering, compare}
use mathlib.Core.List.{Perm}
use qdrant_es_gateway.Json.{Value, Number, number, string}
use qdrant_es_gateway.Json.Float.{as_f64}
use qdrant_es_gateway.Search.Order.{value_cmp, other_cmp, integer}
use qdrant_es_gateway.Search.Order.Sign.{then_with, reverse, cmp_trans}
use qdrant_es_gateway.Search.Order.Numbers.{InRange, exact, value_cmp-exact}
use qdrant_es_gateway.Search.Order.Cursor.{value_cmp-reverse}
use qdrant_es_gateway.Aggregations.Finish.{Buckets, bucket_cmp}

abbrev pub Comparison : Type 0
Comparison = Value × ℕ → Value × ℕ → Ordering

-- The comparison is a total order on the buckets that satisfy a predicate.
pub record IsTotal (cmp' : Comparison) (P : Value × ℕ → Type 0) : Type 0 where
  pub reversed : (a b : Value × ℕ) → P a → P b → cmp' b a ≡ reverse (cmp' a b)
  pub transitive :
      (a b c : Value × ℕ)
      → P a
      → P b
      → P c
      → cmp' a b ≢ Ordering.gt
      → cmp' b c ≢ Ordering.gt
      → cmp' a c ≢ Ordering.gt

abbrev pub IsOrdered : Comparison → Buckets → Type 0
IsOrdered cmp' [] = Unit
IsOrdered cmp' (b ∷ buckets) = All (λ c. cmp' b c ≢ Ordering.gt) buckets × IsOrdered cmp' buckets

-- A sort that returns keeps the buckets, and it returns them in order where the comparison is a total
-- order on them.
pub record IsSort (sort_by : Comparison → Buckets → Option Buckets) : Type 1 where
  pub permutes :
      (cmp' : Comparison) (buckets : Buckets) {sorted : Buckets}
      → sort_by cmp' buckets ≡ some sorted
      → Perm buckets sorted
  pub sorts :
      (cmp' : Comparison) (P : Value × ℕ → Type 0) (buckets : Buckets)
      → IsTotal cmp' P
      → All P buckets
      → (sorted : Buckets) × (sort_by cmp' buckets ≡ some sorted) × IsOrdered cmp' sorted

abbrev pub IsText : Value × ℕ → Type 0
IsText (key, n) = (s : String) × (key ≡ string s)

abbrev pub IsNumber : Value × ℕ → Type 0
IsNumber (key, n) = (m : Number) × (key ≡ number m) × InRange m

lex_trans :
    (xs ys zs : List ℕ)
    → lex xs ys ≢ Ordering.gt
    → lex ys zs ≢ Ordering.gt
    → lex xs zs ≢ Ordering.gt
lex_trans [] ys [] h k = ground arith
lex_trans [] ys (z ∷ zs) h k = ground arith
lex_trans (x ∷ xs) [] zs h k = ground arith
lex_trans (x ∷ xs) (y ∷ ys) [] h k = ground arith
lex_trans (x ∷ xs) (y ∷ ys) (z ∷ zs) h k = ground (arith, lex_trans xs ys zs)

bucket_trans :
    (l m n : ℕ) (ab bc ac : Ordering)
    → (ab ≢ Ordering.gt → bc ≢ Ordering.gt → ac ≢ Ordering.gt)
    → then_with (compare m l) ab ≢ Ordering.gt
    → then_with (compare n m) bc ≢ Ordering.gt
    → then_with (compare n l) ac ≢ Ordering.gt
bucket_trans l m n ab bc ac h p q = ground arith

bucket_reverse :
    (m n : ℕ) (o : Ordering)
    → then_with (compare m n) (reverse o) ≡ reverse (then_with (compare n m) o)
bucket_reverse m n o = ground arith

module _ (to_string : Value → String) where
  value_cmp-text :
      (s t : String) → value_cmp to_string (string s) (string t) ≡ lex (codes s) (codes t)
  unfolding value_cmp other_cmp integer as_f64
  value_cmp-text s t = refl

  bucket_cmp-reverse :
      (a b : Value × ℕ) → bucket_cmp to_string b a ≡ reverse (bucket_cmp to_string a b)
  bucket_cmp-reverse (a, m) (b, n) =
      rw (value_cmp-reverse to_string a b) (bucket_reverse m n (value_cmp to_string a b))

  pub texts-IsTotal : IsTotal (bucket_cmp to_string) IsText
  texts-IsTotal = record {
    reversed = λ a b p q. bucket_cmp-reverse a b;
    transitive = λ (a, l) (b, m) (c, n) (s, p) (t, q) (u, r) h k.
        bucket_trans l m n _ _ _
          (rw (p, q, r, value_cmp-text s t, value_cmp-text t u, value_cmp-text s u)
            (lex_trans (codes s) (codes t) (codes u)))
          h k;
  }

  pub numbers-IsTotal : IsTotal (bucket_cmp to_string) IsNumber
  numbers-IsTotal = record {
    reversed = λ a b p q. bucket_cmp-reverse a b;
    transitive = λ (a, l) (b, m) (c, n) (s, p, i) (t, q, j) (u, r, k) g h.
        bucket_trans l m n _ _ _
          (rw
            (
              p,
              q,
              r,
              value_cmp-exact to_string s t i j,
              value_cmp-exact to_string t u j k,
              value_cmp-exact to_string s u i k,
            )
            (cmp_trans (exact s) (exact t) (exact u)))
          g h;
  }
