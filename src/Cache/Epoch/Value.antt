-- ===== src/Cache/Epoch/Value.antt =====
-- The number that an epoch stands for: the carry loop adds one, and `le` compares the numbers.
use mathlib.Core.List.{reverse, reverse-cons, reverse-reverse}
use native.Mathlib.Decide.{ℕ_discrete}
use native.Mathlib.Nat.{mul-le-mul_right}
use qdrant_es_gateway.Prelude.{
  ℕ, ◌+◌, ◌-◌, ◌*◌, ◌≤◌, ◌<◌, ◌≡◌, refl, sym, ◌∙◌, ◌≢◌, true, false, [], ◌∷◌, ◌++◌, eqb, all,
  length, arith, and_true, ap,
}
use qdrant_es_gateway.Cache.Bytes.{Bytes}
use qdrant_es_gateway.Cache.Epoch.{is_digit, is_positive, carry_loop, next_epoch}

-- The weight of the digit in front of a string: ten to the string's length.
unfoldable pub weight : Bytes → ℕ
weight [] = 1
weight (c ∷ s) = weight s * 10

-- Most significant digit first.
unfoldable pub value : Bytes → ℕ
unfolding weight
value [] = 0
value (c ∷ s) = (c - 48) * weight s + value s

-- Least significant digit first.
unfoldable pub value_rev : Bytes → ℕ
value_rev [] = 0
value_rev (c ∷ s) = (c - 48) + 10 * value_rev s

pub weight-append : (s t : Bytes) → weight (s ++ t) ≡ weight s * weight t
unfolding weight
weight-append [] t = omega arith
weight-append (c ∷ s) t = omega (arith, weight-append s t)

pub value-append : (s t : Bytes) → value (s ++ t) ≡ value s * weight t + value t
unfolding value
value-append [] t = omega arith
value-append (c ∷ s) t = rw (weight-append s t) (omega (arith, value-append s t))

value_rev-value : (s : Bytes) → value (reverse s) ≡ value_rev s
unfolding value value_rev
value_rev-value [] = refl
value_rev-value (c ∷ s) =
    rw reverse-cons (omega (arith, value-append (reverse s) (c ∷ []), value_rev-value s))

pub value_rev-reverse : (s : Bytes) → value_rev (reverse s) ≡ value s
value_rev-reverse s = sym (value_rev-value (reverse s)) ∙ ap value (reverse-reverse s)

pub carry_loop-ten :
    (c : ℕ) (rev : Bytes) (carry : ℕ) (chars : Bytes)
    → c - 48 + carry ≡ 10
    → carry_loop (c ∷ rev) carry chars ≡ carry_loop rev 1 (48 ∷ chars)
unfolding carry_loop
carry_loop-ten c rev carry chars h = rw h refl

pub carry_loop-digit :
    (c : ℕ) (rev : Bytes) (carry : ℕ) (chars : Bytes)
    → c - 48 + carry ≢ 10
    → carry_loop (c ∷ rev) carry chars ≡ carry_loop rev 0 ((48 + (c - 48 + carry)) ∷ chars)
unfolding carry_loop
carry_loop-digit c rev carry chars h =
    let e : eqb (c - 48 + carry) 10 ≡ false = ground arith in rw e refl

value-carry_loop :
    (rev : Bytes) (carry : ℕ) (chars : Bytes)
    → all is_digit rev ≡ true
    → carry ≤ 1
    → value (carry_loop rev carry chars) ≡ (value_rev rev + carry) * weight chars + value chars
unfolding value value_rev
value-carry_loop [] carry chars h k = unfold carry_loop in ground arith
value-carry_loop (c ∷ rev) carry chars h k =
    let (d, ds) = and_true (is_digit c) (all is_digit rev) h in
    elim (ℕ_discrete (c - 48 + carry) 10) [
      | yes e ↦ rw (carry_loop-ten c rev carry chars e) (
          omega (
            arith,
            value-carry_loop rev 1 (48 ∷ chars) ds (omega arith),
            ap (λ (n : ℕ). n * weight chars) e,
          ))
      | no e ↦
          let p : 48 + (c - 48 + carry) - 48 ≡ c - 48 + carry = omega arith in
          rw (carry_loop-digit c rev carry chars e) (
            omega (
              arith,
              ap (λ (n : ℕ). n * weight chars) p,
              value-carry_loop rev 0 ((48 + (c - 48 + carry)) ∷ chars) ds (omega arith),
            ))
    ]

all-append :
    (s t : Bytes) → all is_digit s ≡ true → all is_digit t ≡ true → all is_digit (s ++ t) ≡ true
all-append [] t h k = k
all-append (c ∷ s) t h k =
    let (d, ds) = and_true (is_digit c) (all is_digit s) h in rw d (all-append s t ds k)

pub all-reverse : (s : Bytes) → all is_digit s ≡ true → all is_digit (reverse s) ≡ true
all-reverse [] h = refl
all-reverse (c ∷ s) h =
    let (d, ds) = and_true (is_digit c) (all is_digit s) h in
    rw reverse-cons (all-append (reverse s) (c ∷ []) (all-reverse s ds) (rw d refl))

-- The carry loop adds one to the number that the epoch stands for.
pub value-next_epoch : (e : Bytes) → all is_digit e ≡ true → value (next_epoch e) ≡ value e + 1
unfolding next_epoch value
value-next_epoch e h =
    omega (
      arith,
      value-carry_loop (reverse e) 1 [] (all-reverse e h) (omega arith),
      value_rev-reverse e,
    )

pub value-lt-weight : (s : Bytes) → all is_digit s ≡ true → value s < weight s
unfolding value
value-lt-weight [] h = omega arith
value-lt-weight (c ∷ s) h =
    let (d, ds) = and_true (is_digit c) (all is_digit s) h in
    let p : c ≤ 57 = ground arith in
    let q : (c - 48) * weight s ≤ 9 * weight s = mul-le-mul_right (weight s) (omega arith) in
    omega (arith, value-lt-weight s ds, q)

pub weight-le-value : (s : Bytes) → is_positive s ≡ true → weight s ≤ value s * 10
unfolding value
weight-le-value [] h = cc
weight-le-value (c ∷ s) h =
    let p : 1 ≤ c - 48 = ground arith in
    let q : 1 * weight s ≤ (c - 48) * weight s = mul-le-mul_right (weight s) p in omega (arith, q)

pub weight_mono : (s t : Bytes) → length s ≤ length t → weight s ≤ weight t
unfolding weight
weight_mono [] [] h = omega arith
weight_mono [] (d ∷ t) h = omega (arith, weight_mono [] t (omega arith))
weight_mono (c ∷ s) [] h = absurd (omega arith)
weight_mono (c ∷ s) (d ∷ t) h = omega (arith, weight_mono s t (omega arith))
