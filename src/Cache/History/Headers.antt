-- ===== src/Cache/History/Headers.antt =====
-- An entry is taken apart in one way only: its header ends the deployment, the semantic digest and
-- the epoch by newlines, which none of them holds.
use qdrant_es_gateway.Prelude.{◌≡◌, ◌≢◌, refl, true, [], ◌∷◌, ◌++◌, some, arith, all, and_true}
use mathlib.Core.List.{append_assoc}
use qdrant_es_gateway.Cache.Bytes.{Bytes}
use qdrant_es_gateway.Cache.Epoch.{is_digit, decimal}
use qdrant_es_gateway.Cache.Epoch.Order.{decimal_iff, canonical-digits}
use qdrant_es_gateway.Cache.Config.{valid_digest}
use qdrant_es_gateway.Cache.Scripts.{header, is_hex}

abbrev NoNewline : Bytes → Type 0
NoNewline [] = Unit
NoNewline (c ∷ s) = (c ≢ 10) × NoNewline s

NoNewline-digits : (s : Bytes) → all is_digit s ≡ true → NoNewline s
NoNewline-digits [] h = tt
NoNewline-digits (c ∷ s) h =
    let (d, ds) = and_true (is_digit c) (all is_digit s) h in
    (λ e. ground arith, NoNewline-digits s ds)

NoNewline-hex : (s : Bytes) → all is_hex s ≡ true → NoNewline s
NoNewline-hex [] h = tt
NoNewline-hex (c ∷ s) h =
    let (d, ds) = and_true (is_hex c) (all is_hex s) h in (λ e. ground arith, NoNewline-hex s ds)

newline_injective :
    (a b x y : Bytes) → NoNewline a → NoNewline b → a ++ 10 ∷ x ≡ b ++ 10 ∷ y → (a ≡ b) × (x ≡ y)
newline_injective [] [] x y h k e = (refl, cc)
newline_injective [] (d ∷ b) x y h (p, k) e = absurd (p (cc))
newline_injective (c ∷ a) [] x y (p, h) k e = absurd (p (cc))
newline_injective (c ∷ a) (d ∷ b) x y (p, h) (q, k) e =
    let (same, rest) = newline_injective a b x y h k (cc) in (cc, rest)

append_cancel : (d x y : Bytes) → d ++ x ≡ d ++ y → x ≡ y
append_cancel [] x y e = e
append_cancel (c ∷ d) x y e = append_cancel d x y (cc)

pub header-injective :
    (d s t e f x y : Bytes)
    → valid_digest s ≡ true
    → valid_digest t ≡ true
    → decimal (some e) ≡ true
    → decimal (some f) ≡ true
    → header d s e ++ x ≡ header d t f ++ y
    → (s ≡ t) × (e ≡ f) × (x ≡ y)
unfolding valid_digest
header-injective d s t e f x y hs ht he hf p =
    let p₁ : d ++ 10 ∷ (s ++ 10 ∷ (e ++ 10 ∷ x)) ≡ d ++ 10 ∷ (t ++ 10 ∷ (f ++ 10 ∷ y)) =
      simp append_assoc at p in
    let p₂ : 10 ∷ (s ++ 10 ∷ (e ++ 10 ∷ x)) ≡ 10 ∷ (t ++ 10 ∷ (f ++ 10 ∷ y)) =
      append_cancel d _ _ p₁ in
    let hex_s = (and_true _ (all is_hex s) hs).1 in
    let hex_t = (and_true _ (all is_hex t) ht).1 in
    let p₃ : s ++ 10 ∷ (e ++ 10 ∷ x) ≡ t ++ 10 ∷ (f ++ 10 ∷ y) = cc in
    let (same, p₄) = newline_injective s t _ _ (NoNewline-hex s hex_s) (NoNewline-hex t hex_t) p₃ in
    let de = canonical-digits e ((decimal_iff e).0 he).0 in
    let df = canonical-digits f ((decimal_iff f).0 hf).0 in
    let (epoch, rest) =
      newline_injective e f x y (NoNewline-digits e de) (NoNewline-digits f df) p₄ in
    (same, epoch, rest)
