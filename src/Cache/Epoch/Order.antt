-- ===== src/Cache/Epoch/Order.antt =====
-- Canonical epochs: `le` and equality of the strings are those of the numbers, `decimal` accepts
-- exactly the canonical strings up to the bound, and ADMIT's next epoch is one again.
use mathlib.Core.List.{reverse, reverse-cons}
use mathlib.Core.Path.{subst}
use native.Mathlib.Decide.{dec_lt, ℕ_discrete}
use native.Mathlib.Nat.{mul-le-mul_right}
use qdrant_es_gateway.Prelude.{
  ℕ, ◌+◌, ◌-◌, ◌*◌, ◌≤◌, ◌<◌, ◌≡◌, refl, sym, ◌∙◌, ap, ◌↔◌, inl, inr, ◌≢◌, Bool, true, false, ◌&&◌,
  ◌||◌, [], ◌∷◌, ◌++◌, some, eqb, leb, ltb, all, length, codes, arith, and_true, Bool-cases,
}
use qdrant_es_gateway.Cache.Bytes.{Bytes, bytes_eq, bytes_le, bytes_eq-eq}
use qdrant_es_gateway.Cache.Epoch.{
  is_digit, is_positive, decimal, le, carry_loop, next_epoch, max_epoch,
}
use qdrant_es_gateway.Cache.Epoch.Value.{
  value, weight, value-lt-weight, weight-le-value, weight_mono, value-next_epoch, all-reverse,
  carry_loop-ten, carry_loop-digit,
}

weight_same : (s t : Bytes) → length s ≡ length t → weight s ≡ weight t
weight_same s t e = omega (arith, weight_mono s t (omega arith), weight_mono t s (omega arith))

digit_lt : (x y w u v : ℕ) → x < y → u < w → x * w + u < y * w + v
digit_lt x y w u v h k =
    let p : (x + 1) * w ≤ y * w = mul-le-mul_right w (omega arith) in omega (arith, p)

-- Strings of digits of one length are ordered as their numbers.
bytes_le_iff :
    (s t : Bytes)
    → length s ≡ length t
    → all is_digit s ≡ true
    → all is_digit t ≡ true
    → (bytes_le s t ≡ true) ↔ (value s ≤ value t)
unfolding value
bytes_le_iff [] [] e h k = (λ _. omega arith, λ _. refl)
bytes_le_iff [] (d ∷ t) e h k = absurd (omega arith)
bytes_le_iff (c ∷ s) [] e h k = absurd (omega arith)
bytes_le_iff (c ∷ s) (d ∷ t) e h k =
    let (hc, hs) = and_true (is_digit c) (all is_digit s) h in
    let (hd, ht) = and_true (is_digit d) (all is_digit t) k in
    let w : weight s ≡ weight t = weight_same s t (omega arith) in
    let vs : value s < weight t = omega (arith, value-lt-weight s hs) in
    let vt : value t < weight t = value-lt-weight t ht in
    let (to, from) = bytes_le_iff s t (omega arith) hs ht in
    let c48 : 48 ≤ c = ground arith in
    let d48 : 48 ≤ d = ground arith in
    rw w (elim (dec_lt c d) [
      | yes p ↦
          let lt : (c - 48) * weight t + value s < (d - 48) * weight t + value t =
            digit_lt (c - 48) (d - 48) (weight t) (value s) (value t) (omega arith) vs in
          (λ _. omega (arith, lt), λ _. ground arith)
      | no p ↦ elim (dec_lt d c) [
        | yes q ↦
            let gt : (d - 48) * weight t + value t < (c - 48) * weight t + value s =
              digit_lt (d - 48) (c - 48) (weight t) (value t) (value s) (omega arith) vt in
            (λ b. absurd (ground arith), λ b. absurd (omega (arith, gt)))
        | no q ↦
            let same : c ≡ d = omega arith in
            let scaled : (c - 48) * weight t ≡ (d - 48) * weight t =
              ap (λ (n : ℕ). (n - 48) * weight t) same in
            (
              λ b. omega (arith, to (ground arith), scaled),
              λ b. let later : bytes_le s t ≡ true = from (omega (arith, scaled)) in ground arith,
            )
      ]
    ])

-- A canonical string is "0" or starts with a digit other than "0".
abbrev pub is_canonical : Bytes → Bool
is_canonical s = bytes_eq s (codes "0") || is_positive s

pub canonical-digits : (s : Bytes) → is_canonical s ≡ true → all is_digit s ≡ true
canonical-digits [] h = refl
canonical-digits (c ∷ []) h = ground arith
canonical-digits (c ∷ d ∷ s) h = ground arith

-- A longer canonical string stands for a larger number.
longer-lt :
    (s t : Bytes)
    → is_canonical s ≡ true
    → is_canonical t ≡ true
    → length s < length t
    → value s < value t
unfolding value weight
longer-lt s [] h k l = absurd (omega arith)
longer-lt [] (d ∷ []) h k l = cc
longer-lt (c ∷ s) (d ∷ []) h k l = absurd (omega arith)
longer-lt s (d ∷ e ∷ t) h k l =
    let positive : is_positive (d ∷ e ∷ t) ≡ true = ground arith in
    let p : weight (d ∷ e ∷ t) ≤ value (d ∷ e ∷ t) * 10 = weight-le-value (d ∷ e ∷ t) positive in
    let q : value s < weight s = value-lt-weight s (canonical-digits s h) in
    let r : weight s ≤ weight (e ∷ t) = weight_mono s (e ∷ t) (omega arith) in
    omega (arith, p, q, r)

-- `le` compares the numbers that two canonical epochs stand for.
le_iff :
    (s t : Bytes)
    → is_canonical s ≡ true
    → is_canonical t ≡ true
    → (le s t ≡ true) ↔ (value s ≤ value t)
unfolding le
le_iff s t h k =
    let ds = canonical-digits s h in
    let dt = canonical-digits t k in
    elim (dec_lt (length s) (length t)) [
      | yes p ↦
          let v : value s < value t = longer-lt s t h k p in
          (λ _. omega (arith, v), λ _. ground arith)
      | no p ↦ elim (dec_lt (length t) (length s)) [
        | yes q ↦
            let v : value t < value s = longer-lt t s k h q in
            (λ b. absurd (ground arith), λ b. absurd (omega (arith, v)))
        | no q ↦
            let same : length s ≡ length t = omega arith in
            let (to, from) = bytes_le_iff s t same ds dt in
            (λ b. to (ground arith), λ b. let fits : bytes_le s t ≡ true = from b in ground arith)
      ]
    ]

lex_antisym : (s t : Bytes) → bytes_le s t ≡ true → bytes_le t s ≡ true → s ≡ t
lex_antisym [] [] h k = refl
lex_antisym [] (d ∷ t) h k = cc
lex_antisym (c ∷ s) [] h k = cc
lex_antisym (c ∷ s) (d ∷ t) h k = elim (dec_lt c d) [
  | yes p ↦ absurd (ground arith)
  | no p ↦ elim (dec_lt d c) [
    | yes q ↦ absurd (ground arith)
    | no q ↦
        let same : c ≡ d = omega arith in
        let rest : s ≡ t = lex_antisym s t (ground arith) (ground arith) in cc
  ]
]

-- Canonical epochs that stand for one number are one string.
pub value_injective :
    (s t : Bytes) → is_canonical s ≡ true → is_canonical t ≡ true → value s ≡ value t → s ≡ t
unfolding le
value_injective s t h k e =
    let st : le s t ≡ true = (le_iff s t h k).1 (omega arith) in
    let ts : le t s ≡ true = (le_iff t s k h).1 (omega arith) in
    lex_antisym s t (ground arith) (ground arith)

max_value : value max_epoch ≡ 9223372036854775807
unfolding value
max_value = refl

-- `decimal` accepts exactly the canonical strings up to 2^63 - 1.
pub decimal_iff :
    (s : Bytes)
    → (decimal (some s) ≡ true) ↔ ((is_canonical s ≡ true) × (value s ≤ 9223372036854775807))
unfolding decimal le
decimal_iff s = (
  λ h.
      let (canonical, fits) = and_true (is_canonical s) (le_max s) h in
      (canonical, omega (arith, (le_iff s max_epoch canonical refl).0 fits, max_value)),
  λ p. rw p.0 ((le_iff s max_epoch p.0 refl).1 (omega (arith, p.1, max_value))),
)
  where
    le_max : Bytes → Bool
    le_max s = ltb (length s) 19 || (eqb (length s) 19 && bytes_le s max_epoch)

-- The digit in front of the reversed string is the last: it must not be "0".
abbrev leads : Bytes → Bool
leads [] = false
leads (c ∷ []) = leb b'1' c && leb c b'9'
leads (c ∷ d ∷ rev) = leads (d ∷ rev)

leads-append :
    (rev : Bytes) (c : ℕ) → (leb b'1' c && leb c b'9') ≡ true → leads (rev ++ c ∷ []) ≡ true
leads-append [] c h = h
leads-append (d ∷ []) c h = h
leads-append (d ∷ e ∷ rev) c h = leads-append (e ∷ rev) c h

carry_loop-is_positive :
    (rev : Bytes) (carry : ℕ) (chars : Bytes)
    → all is_digit rev ≡ true
    → leads rev ≡ true
    → carry ≤ 1
    → all is_digit chars ≡ true
    → is_positive (carry_loop rev carry chars) ≡ true
carry_loop-is_positive [] carry chars h l k d = cc
carry_loop-is_positive (c ∷ []) carry chars h l k d = unfold carry_loop in ground arith
carry_loop-is_positive (c ∷ c' ∷ rev) carry chars h l k d =
    let (hc, hs) = and_true (is_digit c) (all is_digit (c' ∷ rev)) h in
    elim (ℕ_discrete (c - 48 + carry) 10) [
      | yes e ↦
          rw (carry_loop-ten c (c' ∷ rev) carry chars e)
            (carry_loop-is_positive (c' ∷ rev) 1 (48 ∷ chars) hs l (omega arith) d)
      | no e ↦
          let digit : is_digit (48 + (c - 48 + carry)) ≡ true = ground arith in
          rw (carry_loop-digit c (c' ∷ rev) carry chars e) (
            carry_loop-is_positive (c' ∷ rev) 0 ((48 + (c - 48 + carry)) ∷ chars) hs l (omega arith)
              (rw digit d))
    ]

next_epoch-is_positive : (s : Bytes) → is_canonical s ≡ true → is_positive (next_epoch s) ≡ true
unfolding next_epoch
next_epoch-is_positive [] h = cc
next_epoch-is_positive (c ∷ s) h = elim (Bool-cases (bytes_eq (c ∷ s) (codes "0"))) [
  | inl at_zero ↦
      subst (λ e. is_positive (carry_loop (reverse e) 1 []) ≡ true)
        (sym (bytes_eq-eq (c ∷ s) (codes "0") at_zero)) (unfold carry_loop in refl)
  | inr other ↦
      let positive : is_positive (c ∷ s) ≡ true = ground arith in
      let (lead, _) = and_true (leb b'1' c && leb c b'9') (all is_digit s) positive in
      carry_loop-is_positive (reverse (c ∷ s)) 1 []
        (all-reverse (c ∷ s) (canonical-digits (c ∷ s) h))
        (rw reverse-cons (leads-append (reverse s) c lead)) (omega arith) refl
]

-- Below the bound the next epoch is accepted again, and stands for the next number.
pub next_epoch_lem :
    (s : Bytes)
    → decimal (some s) ≡ true
    → s ≢ max_epoch
    → (decimal (some (next_epoch s)) ≡ true) × (value (next_epoch s) ≡ value s + 1)
next_epoch_lem s h ne =
    let (canonical, fits) = (decimal_iff s).0 h in
    let next : value (next_epoch s) ≡ value s + 1 =
      value-next_epoch s (canonical-digits s canonical) in
    let below : value s ≢ 9223372036854775807 =
      λ e. ne (value_injective s max_epoch canonical refl (e ∙ sym max_value)) in
    let positive : is_positive (next_epoch s) ≡ true = next_epoch-is_positive s canonical in
    ((decimal_iff (next_epoch s)).1 (ground arith, omega (arith, next, below)), next)
