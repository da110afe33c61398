-- ===== src/Search/Window/Show.antt =====
-- The decimal text of a number determines it.
use Prim.Native.Char.{code}
use text.Mathlib.TextLemmas.{nil-append, cons-append}
use native.Mathlib.Nat.{pow-succ'}
use qdrant_es_gateway.Prelude.{
  ℕ, zero, suc, ◌+◌, ◌-◌, ◌*◌, ◌/◌, ◌%◌, ◌^◌, ◌<◌, ◌≡◌, ◌∙◌, refl, sym, ap, String, List, [], ◌∷◌,
  ◌++◌, Option, none, some, ltb, Bool-cases, inl, inr, codes, arith,
}
use qdrant_es_gateway.Parse.{concat, parse_digits}
use qdrant_es_gateway.Search.Window.{digit, digits, show_u64}

pub codes-concat : (s t : String) → codes (concat s t) ≡ codes s ++ codes t
codes-concat String.[] t = rw (nil-append t) refl
codes-concat (String.◌∷◌ c s) t =
    rw (cons-append c s t) (ap (λ (l : List ℕ). code c ∷ l) (codes-concat s t))

abbrev continue_from : Option ℕ → List ℕ → Option ℕ
continue_from none cs = none
continue_from (some n) cs = parse_digits n cs

parse_digits-append :
    (n : ℕ) (cs ds : List ℕ) → parse_digits n (cs ++ ds) ≡ continue_from (parse_digits n cs) ds
unfolding parse_digits
parse_digits-append n [] ds = refl
parse_digits-append n (c ∷ cs) ds = ground (arith, parse_digits-append (n * 10 + (c - 48)) cs ds)

digit-codes : (d : ℕ) → d < 10 → codes (digit d) ≡ (48 + d) ∷ []
unfolding digit
digit-codes zero h = refl
digit-codes (suc zero) h = refl
digit-codes (suc (suc zero)) h = refl
digit-codes (suc (suc (suc zero))) h = refl
digit-codes (suc (suc (suc (suc zero)))) h = refl
digit-codes (suc (suc (suc (suc (suc zero))))) h = refl
digit-codes (suc (suc (suc (suc (suc (suc zero)))))) h = refl
digit-codes (suc (suc (suc (suc (suc (suc (suc zero))))))) h = refl
digit-codes (suc (suc (suc (suc (suc (suc (suc (suc zero)))))))) h = refl
digit-codes (suc (suc (suc (suc (suc (suc (suc (suc (suc zero))))))))) h = refl
digit-codes (suc (suc (suc (suc (suc (suc (suc (suc (suc (suc d)))))))))) h = absurd (omega arith)

parse_digits-digit : (n d : ℕ) → d < 10 → parse_digits n (codes (digit d)) ≡ some (n * 10 + d)
unfolding parse_digits
parse_digits-digit n d h = rw (digit-codes d h) (ground arith)

shorter : (fuel n : ℕ) → n < 10 ^ suc fuel → n / 10 < 10 ^ fuel
shorter fuel n h = let k : n < 10 * 10 ^ fuel = rw (pow-succ' 10 fuel) at h in omega arith

more : (fuel n : ℕ) → n < 10 ^ suc fuel → ◌<◌ 9 n → 0 < fuel
more zero n h k = absurd (omega arith)
more (suc fuel) n h k = omega arith

parse_digits-digits :
    (fuel n : ℕ) → n < 10 ^ fuel → 0 < fuel → parse_digits 0 (codes (digits fuel n)) ≡ some n
unfolding digits
parse_digits-digits zero n h pos = absurd (omega arith)
parse_digits-digits (suc fuel) n h pos = elim (Bool-cases (ltb n 10)) [
  | inl small ↦ rw small (parse_digits-digit 0 n (ground arith) ∙ ap some (omega arith))
  | inr large ↦
      rw (large, codes-concat (digits fuel (n / 10)) (digit (n % 10)))
        (parse_digits-append 0 (codes (digits fuel (n / 10))) (codes (digit (n % 10)))
          ∙ ap (λ (o : Option ℕ). continue_from o (codes (digit (n % 10))))
              (parse_digits-digits fuel (n / 10) (shorter fuel n h) (more fuel n h (ground arith)))
          ∙ parse_digits-digit (n / 10) (n % 10) (omega arith)
          ∙ ap some (omega arith))
]

pub show_u64-inj : (a b : ℕ) → a < 10 ^ 20 → b < 10 ^ 20 → show_u64 a ≡ show_u64 b → a ≡ b
unfolding show_u64
show_u64-inj a b h k e = some_inj (
    sym (parse_digits-digits 20 a h (omega arith))
    ∙ ap (λ (s : String). parse_digits 0 (codes s)) e
    ∙ parse_digits-digits 20 b k (omega arith))
  where
    some_inj : {m n : ℕ} → ◌≡◌ {A = Option ℕ} (some m) (some n) → m ≡ n
    some_inj q = cc
