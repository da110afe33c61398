-- ===== src/Sparse/Vector/Narrow.antt =====
-- The narrowing of a 64-bit float gives a finite 32-bit float.
use qdrant_es_gateway.Prelude.{
  ℕ, suc, zero, ◌+◌, ◌*◌, ◌/◌, ◌^◌, ◌≤◌, ◌<◌, ◌≡◌, ◌⊎◌, inl, inr, refl, ap, sym, ◌∙◌, max, Bool,
  true, false, some, none, if◌then◌else◌, ltb, Bool-cases, arith,
}
use native.Mathlib.Nat.{one-le-pow, pow-suc, pow-le-pow_right, div-lt_iff_lt-mul}
use qdrant_es_gateway.Json.Float.{Float}
use qdrant_es_gateway.Sparse.Vector.{excess_bits_24, round_even, to_f32}

-- A multiple of 2^e in units of 2^-1074 with at most 24 bits, not below the least positive 32-bit float,
-- 2^-149, and below 2^128, where infinity starts.
abbrev pub IsF32 : Float → Type 0
IsF32 f =
    (m : ℕ) × (e : ℕ) × (f.magnitude ≡ m * 2 ^ e)
    × (m ≤ 2 ^ 24)
    × (925 ≤ e)
    × (f.magnitude < 2 ^ 1202)

pow_pos : (e : ℕ) → 0 < 2 ^ e
pow_pos e = omega (arith, one-le-pow e 2 (omega arith))

some_inj {ℓ} : {A : Type ℓ} {a b : A} → some a ≡ some b → a ≡ b
some_inj h = cc

none-ne-some {ℓ} : {A : Type ℓ} {a : A} → none ≡ some a → ⊥
none-ne-some h = cc

below-pow : (n b e d : ℕ) → n < b * 2 ^ e → e ≤ d → n < b * 2 ^ d
below-pow n b e d h le =
    let more : 2 ^ e ≤ 2 ^ d = pow-le-pow_right (omega arith) le in grind (arith, more)

halved : (n p : ℕ) → n / 2 < 2 ^ 24 * p → n < 2 ^ 24 * (p * 2)
halved n p h = omega arith

-- Without the bits that are counted 24 remain at most, unless the fuel ends.
excess_bits_24_lem :
    (fuel n : ℕ) → (n < 2 ^ 24 * 2 ^ excess_bits_24 fuel n) ⊎ (excess_bits_24 fuel n ≡ fuel)
unfolding excess_bits_24
excess_bits_24_lem zero n = inr refl
excess_bits_24_lem (suc fuel) n = elim (Bool-cases (ltb n (2 ^ 24))) [
  | inl e ↦ rw e (inl (ground arith))
  | inr e ↦ rw e elim (excess_bits_24_lem fuel (n / 2)) [
    | inl h ↦ inl (rw (pow-suc 2 (excess_bits_24 fuel (n / 2))) (halved n _ h))
    | inr h ↦ inr (omega (arith, h))
  ]
]

round_even_lem : (e n : ℕ) → (m : ℕ) × (round_even e n ≡ m * 2 ^ e) × (m ≤ n / 2 ^ e + 1)
unfolding round_even
round_even_lem e n = choose _
  where
    choose :
        (up : Bool)
        → (m : ℕ) × ((if up then (n / 2 ^ e + 1) * 2 ^ e else n / 2 ^ e * 2 ^ e) ≡ m * 2 ^ e)
          × (m ≤ n / 2 ^ e + 1)
    choose true = (n / 2 ^ e + 1, refl, omega arith)
    choose false = (n / 2 ^ e, refl, omega arith)

no_multiple : (m p q : ℕ) → m * p < q → q ≤ p → m ≡ 0
no_multiple zero p q h k = refl
no_multiple (suc m) p q h k = absurd (grind arith)

-- What is finite after rounding has 24 bits.
rounded-bits :
    (n k m : ℕ)
    → (n < 2 ^ 24 * 2 ^ k) ⊎ (k ≡ 2100)
    → m ≤ n / 2 ^ max 925 k + 1
    → m * 2 ^ max 925 k < 2 ^ 1202
    → m ≤ 2 ^ 24
rounded-bits n k m (inl h) few finite =
    let wide : n < 2 ^ 24 * 2 ^ max 925 k = below-pow n (2 ^ 24) k (max 925 k) h (omega arith) in
    let quotient = (div-lt_iff_lt-mul (pow_pos (max 925 k))).1 wide in omega (arith, quotient, few)
rounded-bits n k m (inr h) few finite =
    let top : max 925 k ≡ 2100 = rw h (omega arith) in
    let none' = no_multiple m (2 ^ 2100) (2 ^ 1202) (rw top at finite) (omega arith) in
    omega (arith, none')

pub to_f32-IsF32 : (f : Float) {g : Float} → to_f32 f ≡ some g → IsF32 g
unfolding to_f32
to_f32-IsF32 f {g} h =
    let k = excess_bits_24 2100 f.magnitude in
    let (m, rounded, few) = round_even_lem (max 925 k) f.magnitude in
    elim (Bool-cases (ltb (round_even (max 925 k) f.magnitude) (2 ^ 1202))) [
      | inl e ↦
          let finite : round_even (max 925 k) f.magnitude < 2 ^ 1202 = ground arith in
          let same : round_even (max 925 k) f.magnitude ≡ g.magnitude =
            ap (λ (o : Float). o.magnitude) (some_inj (rw e at h)) in
          (
            m,
            max 925 k,
            sym same ∙ rounded,
            rounded-bits f.magnitude k m (excess_bits_24_lem 2100 f.magnitude) few
                (rw rounded at finite),
            omega arith,
            rw same at finite,
          )
      | inr e ↦ absurd (none-ne-some (rw e at h))
    ]
