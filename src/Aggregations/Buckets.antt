-- ===== src/Aggregations/Buckets.antt =====
-- The buckets of a terms aggregation: the largest first, and no document lost.
use qdrant_es_gateway.Prelude.{
  ℕ, suc, zero, ◌+◌, ◌≤◌, ◌≡◌, ◌≢◌, ◌∙◌, ◌⊎◌, inl, inr, refl, ap, sym, String, List, [], ◌∷◌,
  length, drop, Option, some, All, All-map, arith,
}
use Prim.Native.Nat.{Ordering}
use qdrant_es_gateway.Json.{Value}
use qdrant_es_gateway.Aggregations.Finish.{
  take, Buckets, bucket_cmp, total, buckets_of, terms_buckets,
}
use qdrant_es_gateway.Aggregations.Sort.{
  Comparison, IsOrdered, IsSort, IsText, IsNumber, texts-IsTotal, numbers-IsTotal,
}
use mathlib.Core.Logic.{∥∥₁_elim}
use mathlib.Core.List.{Perm, Permᴰ}
use native.Mathlib.Nat.{ℕ_set}

abbrev AtMost : ℕ → Buckets → Type 0
AtMost n buckets = All (λ (b : Value × ℕ). b.1 ≤ n) buckets

-- No bucket has more documents than one before it.
abbrev pub IsDescending : Buckets → Type 0
IsDescending [] = Unit
IsDescending ((key, n) ∷ buckets) = AtMost n buckets × IsDescending buckets

total-take-drop :
    (n : ℕ) (buckets : Buckets) → total (take n buckets) + total (drop n buckets) ≡ total buckets
unfolding total
total-take-drop zero buckets = omega arith
total-take-drop (suc n) [] = omega arith
total-take-drop (suc n) ((key, m) ∷ buckets) = omega (arith, total-take-drop n buckets)

length-take : (n : ℕ) (buckets : Buckets) → length (take n buckets) ≤ n
length-take zero buckets = omega arith
length-take (suc n) [] = omega arith
length-take (suc n) (b ∷ buckets) = omega (arith, length-take n buckets)

AtMost-take : (low n : ℕ) (buckets : Buckets) → AtMost low buckets → AtMost low (take n buckets)
AtMost-take low zero buckets h = tt
AtMost-take low (suc n) [] h = tt
AtMost-take low (suc n) (b ∷ buckets) (p, h) = (p, AtMost-take low n buckets h)

IsDescending-take :
    (n : ℕ) (buckets : Buckets) → IsDescending buckets → IsDescending (take n buckets)
IsDescending-take zero buckets h = tt
IsDescending-take (suc n) [] h = tt
IsDescending-take (suc n) ((key, m) ∷ buckets) (p, h) =
    (AtMost-take m n buckets p, IsDescending-take n buckets h)

total-permᴰ : {xs ys : Buckets} → Permᴰ xs ys → total xs ≡ total ys
unfolding total
total-permᴰ Permᴰ.nil = refl
total-permᴰ (Permᴰ.cons {a = (a, m)} {b = (b, n)} e p) =
    omega (arith, ap (λ (x : Value × ℕ). x.1) e, total-permᴰ p)
total-permᴰ (Permᴰ.swap {a = (a, k)} {b = (b, l)} {a' = (c, m)} {b' = (d, n)} e f) =
    omega (arith, ap (λ (x : Value × ℕ). x.1) e, ap (λ (x : Value × ℕ). x.1) f)
total-permᴰ (Permᴰ.trans p q) = total-permᴰ p ∙ total-permᴰ q

total-perm : {xs ys : Buckets} → Perm xs ys → total xs ≡ total ys
total-perm p = ∥∥₁_elim p (ℕ_set _ _) total-permᴰ

module _ (to_string : Value → String) where
  descends : (a b : Value × ℕ) → bucket_cmp to_string a b ≢ Ordering.gt → b.1 ≤ a.1
  descends (a, m) (b, n) h = ground arith

  IsOrdered-IsDescending :
      (buckets : Buckets) → IsOrdered (bucket_cmp to_string) buckets → IsDescending buckets
  IsOrdered-IsDescending [] h = tt
  IsOrdered-IsDescending ((a, m) ∷ buckets) (p, h) =
      (All-map (descends (a, m)) buckets p, IsOrdered-IsDescending buckets h)

  module _ (sort_by : Comparison → Buckets → Option Buckets) (std : IsSort sort_by) where
    open std use {permutes, sorts}

    shown-lem :
        (size : ℕ) (counts : List (String × Value × ℕ)) (sorted : Buckets)
        → sort_by (bucket_cmp to_string) (buckets_of counts) ≡ some sorted
        → terms_buckets to_string sort_by size counts
          ≡ some (take size sorted, total (drop size sorted))
    unfolding terms_buckets
    shown-lem size counts sorted e = rw (terms_buckets, e) refl

    total-sorted :
        (size : ℕ) (counts : List (String × Value × ℕ)) (sorted : Buckets)
        → sort_by (bucket_cmp to_string) (buckets_of counts) ≡ some sorted
        → total (take size sorted) + total (drop size sorted) ≡ total (buckets_of counts)
    total-sorted size counts sorted e =
        total-take-drop size sorted
        ∙ sym (total-perm (permutes (bucket_cmp to_string) (buckets_of counts) e))

    -- Where the keys of the buckets are all texts or all numbers, a terms aggregation is answered: it
    -- shows at most as many buckets as asked, none has more documents than one before it, and with
    -- the documents of the others they have all that were counted.
    pub terms_buckets-IsDescending :
        (size : ℕ) (counts : List (String × Value × ℕ))
        → All IsText (buckets_of counts) ⊎ All IsNumber (buckets_of counts)
        → (shown : Buckets) × (others : ℕ) × (terms_buckets to_string sort_by size counts
            ≡ some (shown, others))
          × IsDescending shown
          × (length shown ≤ size)
          × (total shown + others ≡ total (buckets_of counts))
    terms_buckets-IsDescending size counts alike =
        let (sorted, e, ordered) = in_order alike in
        (
          take size sorted,
          total (drop size sorted),
          shown-lem size counts sorted e,
          IsDescending-take size sorted (IsOrdered-IsDescending sorted ordered),
          length-take size sorted,
          total-sorted size counts sorted e,
        )
      where
        in_order :
            All IsText (buckets_of counts) ⊎ All IsNumber (buckets_of counts)
            → (sorted : Buckets) × (sort_by (bucket_cmp to_string) (buckets_of counts)
                ≡ some sorted)
              × IsOrdered (bucket_cmp to_string) sorted
        in_order (inl h) =
            sorts (bucket_cmp to_string) IsText (buckets_of counts) (texts-IsTotal to_string) h
        in_order (inr h) =
            sorts (bucket_cmp to_string) IsNumber (buckets_of counts) (numbers-IsTotal to_string) h
