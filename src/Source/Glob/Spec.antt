-- ===== src/Source/Glob/Spec.antt =====
-- The language of a pattern: a star stands for any text, a question mark for one character, and any
-- other character for itself.
use qdrant_es_gateway.Prelude.{
  ℕ, suc, ◌≤◌, ◌≡◌, Bool, true, false, ◌&&◌, ◌||◌, List, [], ◌∷◌, arith, eqb, length, if◌then◌else◌,
  Bool-cases, inl, inr,
}

-- Some suffix of the value, itself included, satisfies the test.
unfoldable pub any_suffix : (List ℕ → Bool) → List ℕ → Bool
any_suffix f [] = f []
any_suffix f (v ∷ vs) = f (v ∷ vs) || any_suffix f vs

abbrev pub one_char : ℕ → (List ℕ → Bool) → List ℕ → Bool
one_char p rest [] = false
one_char p rest (v ∷ vs) = (eqb p b'?' || eqb p v) && rest vs

abbrev pub is_empty_text : List ℕ → Bool
is_empty_text [] = true
is_empty_text (v ∷ vs) = false

unfoldable pub describes : List ℕ → List ℕ → Bool
describes [] vs = is_empty_text vs
describes (p ∷ ps) vs =
    if eqb p b'*' then any_suffix (describes ps) vs else one_char p (describes ps) vs

-- How many characters the pattern needs at least.
unfoldable pub needs : List ℕ → ℕ
needs [] = 0
needs (p ∷ ps) = if eqb p b'*' then needs ps else suc (needs ps)

pub any_suffix-length :
    (f : List ℕ → Bool) (n : ℕ)
    → ((vs : List ℕ) → f vs ≡ true → n ≤ length vs)
    → (vs : List ℕ) → any_suffix f vs ≡ true
    → n ≤ length vs
unfolding any_suffix
any_suffix-length f n h [] e = h [] e
any_suffix-length f n h (v ∷ vs) e = elim (Bool-cases (f (v ∷ vs))) [
  | inl here ↦ h (v ∷ vs) here
  | inr not_here ↦
      let later : any_suffix f vs ≡ true = rw not_here at e in
      omega (arith, any_suffix-length f n h vs later)
]

pub describes-needs : (ps vs : List ℕ) → describes ps vs ≡ true → needs ps ≤ length vs
unfolding describes needs
describes-needs [] vs e = omega arith
describes-needs (p ∷ ps) vs e = elim (Bool-cases (eqb p b'*')) [
  | inl star ↦
      rw star (any_suffix-length (describes ps) (needs ps) (describes-needs ps) vs (rw star at e))
  | inr plain ↦ rw plain (one p ps vs (describes-needs ps) (rw plain at e))
]
  where
    one :
        (p : ℕ) (ps vs : List ℕ)
        → ((ws : List ℕ) → describes ps ws ≡ true → needs ps ≤ length ws)
        → one_char p (describes ps) vs ≡ true
        → suc (needs ps) ≤ length vs
    one p ps [] h e = cc
    one p ps (v ∷ vs) h e = ground (arith, h vs)
