-- ===== src/Prelude/Text.antt =====
-- Texts as lists of code points. Rust compares `str` values by their UTF-8 bytes, an order that
-- agrees with the order of the code points.
use Prim.Native.Nat.{ℕ, compare, Ordering}
use Prim.Native.Char.{code}
use Prim.Native.String.{String}
use mathlib.Core.List.{List, [], ◌∷◌}

-- `str::chars`.
abbrev pub codes : String → List ℕ
codes String.[] = []
codes (String.◌∷◌ c s) = code c ∷ codes s

-- `slice::cmp`, `str::cmp`: lexicographic.
abbrev pub lex : List ℕ → List ℕ → Ordering
lex [] [] = Ordering.eq
lex [] (b ∷ bs) = Ordering.lt
lex (a ∷ as_) [] = Ordering.gt
lex (a ∷ as_) (b ∷ bs) = elim (compare a b) [
  | Ordering.lt ↦ Ordering.lt
  | Ordering.eq ↦ lex as_ bs
  | Ordering.gt ↦ Ordering.gt
]
