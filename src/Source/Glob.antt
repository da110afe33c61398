-- ===== src/Source/Glob.antt =====
-- `glob_matches` of src/main.rs. An index into the pattern or the value is represented by what is
-- left from there on, and the loop by a recursion on fuel: with n characters in the value and m in
-- the pattern, n * (m + n + 1) + m + n + 1 rounds are enough (Source/Glob/Laws.antt).
pub mod Spec
pub mod Laws
use qdrant_es_gateway.Prelude.{
  ℕ, zero, suc, ◌+◌, ◌*◌, String, Bool, true, false, ◌&&◌, ◌||◌, List, [], ◌∷◌, Option, none, some,
  eqb, length, drop, codes,
}

-- The pattern behind the last star, and the value from where it is tried next.
abbrev pub Star : Type 0
Star = Option (List ℕ × List ℕ)

unfoldable pub only_stars : List ℕ → Bool
only_stars [] = true
only_stars (p ∷ ps) = eqb p b'*' && only_stars ps

-- Back to the last star, which takes one more character.
abbrev pub retry : (List ℕ → List ℕ → Star → Bool) → Star → Bool
retry go none = false
retry go (some (ps, vs)) = go ps (drop 1 vs) (some (ps, drop 1 vs))

unfoldable pub glob_loop : ℕ → List ℕ → List ℕ → Star → Bool
glob_loop zero ps vs star = false
glob_loop (suc fuel) ps [] star = only_stars ps
glob_loop (suc fuel) [] (v ∷ vs) star = retry (glob_loop fuel) star
glob_loop (suc fuel) (p ∷ ps) (v ∷ vs) star = elim (eqb p b'?' || eqb p v) [
  | true ↦ glob_loop fuel ps vs star
  | false ↦ elim (eqb p b'*') [
    | true ↦ glob_loop fuel ps (v ∷ vs) (some (ps, v ∷ vs))
    | false ↦ retry (glob_loop fuel) star
  ]
]

abbrev pub enough_fuel : List ℕ → List ℕ → ℕ
enough_fuel ps vs = length vs * (length ps + length vs + 1) + length ps + length vs + 1

unfoldable pub glob_matches : String → String → Bool
unfolding glob_loop only_stars
glob_matches pattern value =
    let ps = codes pattern in let vs = codes value in glob_loop (enough_fuel ps vs) ps vs none
