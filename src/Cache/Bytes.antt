-- ===== src/Cache/Bytes.antt =====
-- Byte strings, as Redis and its Lua scripts have them: equality, order, and prefixes.
use Prim.Native.Nat.{Ordering}
use qdrant_es_gateway.Prelude.{
  ℕ, ◌≡◌, refl, ◌↔◌, ◌≢◌, Bool, true, false, ◌&&◌, List, [], ◌∷◌, ◌++◌, Option, none, some, eqb,
  lex, arith, if◌then◌else◌, eqb_refl, Bool-cases, inl, inr,
}

abbrev pub Bytes : Type 0
Bytes = List ℕ

abbrev pub bytes_eq : Bytes → Bytes → Bool
bytes_eq [] [] = true
bytes_eq (a ∷ as_) (b ∷ bs) = eqb a b && bytes_eq as_ bs
bytes_eq _ _ = false

-- `a <= b` on Lua strings, in the C locale.
abbrev pub bytes_le : Bytes → Bytes → Bool
bytes_le a b = elim (lex a b) [ Ordering.gt ↦ false | _ ↦ true ]

-- The rest of a string behind a prefix.
abbrev pub strip_prefix : Bytes → Bytes → Option Bytes
strip_prefix [] s = some s
strip_prefix (p ∷ ps) [] = none
strip_prefix (p ∷ ps) (b ∷ bs) = if eqb p b then strip_prefix ps bs else none

pub bytes_eq_refl : (a : Bytes) → bytes_eq a a ≡ true
bytes_eq_refl [] = refl
bytes_eq_refl (a ∷ as_) = rw (eqb_refl a) (bytes_eq_refl as_)

pub bytes_eq-eq : (a b : Bytes) → bytes_eq a b ≡ true → a ≡ b
bytes_eq-eq [] [] h = refl
bytes_eq-eq [] (b ∷ bs) h = cc
bytes_eq-eq (a ∷ as_) [] h = cc
bytes_eq-eq (a ∷ as_) (b ∷ bs) h = ground (arith, bytes_eq-eq as_ bs)

pub bytes_eq_iff : (a b : Bytes) → (bytes_eq a b ≡ true) ↔ (a ≡ b)
bytes_eq_iff a b = (bytes_eq-eq a b, λ e. rw e (bytes_eq_refl b))

pub bytes_eq-ne : (a b : Bytes) → a ≢ b → bytes_eq a b ≡ false
bytes_eq-ne a b h = elim (Bool-cases (bytes_eq a b)) [
  | inl e ↦ absurd (h (bytes_eq-eq a b e))
  | inr e ↦ e
]

pub strip_prefix-append : (p s : Bytes) → strip_prefix p (p ++ s) ≡ some s
strip_prefix-append [] s = refl
strip_prefix-append (b ∷ p) s = rw (eqb_refl b) (strip_prefix-append p s)

pub strip_prefix-eq : (p s : Bytes) {r : Bytes} → strip_prefix p s ≡ some r → s ≡ p ++ r
strip_prefix-eq [] s h = ground arith
strip_prefix-eq (a ∷ p) [] h = cc
strip_prefix-eq (a ∷ p) (b ∷ s) {r} h = ground (arith, strip_prefix-eq p s {r = r})
