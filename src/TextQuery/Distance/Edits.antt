-- ===== src/TextQuery/Distance/Edits.antt =====
-- Edit scripts, and the least number of edits between two texts.
use qdrant_es_gateway.Prelude.{
  ℕ, suc, ◌+◌, ◌≤◌, ◌≡◌, refl, min, List, [], ◌∷◌, ◌++◌, if◌then◌else◌, eqb, eqb_iff, Bool-cases,
  inl, inr, length, arith,
}
use native.Mathlib.Decide.{dec_le}

-- A script of `n` edits: an inserted, a deleted or a replaced character counts one.
pub data Edits : List ℕ → List ℕ → ℕ → Type 0 where
  done : Edits [] [] 0
  keep : {x y : ℕ} {xs ys : List ℕ} {n : ℕ} → x ≡ y → Edits xs ys n → Edits (x ∷ xs) (y ∷ ys) n
  replace : {x y : ℕ} {xs ys : List ℕ} {n : ℕ} → Edits xs ys n → Edits (x ∷ xs) (y ∷ ys) (suc n)
  delete : {x : ℕ} {xs ys : List ℕ} {n : ℕ} → Edits xs ys n → Edits (x ∷ xs) ys (suc n)
  insert : {y : ℕ} {xs ys : List ℕ} {n : ℕ} → Edits xs ys n → Edits xs (y ∷ ys) (suc n)

-- The recurrence of the rows.
unfoldable pub least : List ℕ → List ℕ → ℕ
least [] ys = length ys
least (x ∷ xs) [] = suc (length xs)
least (x ∷ xs) (y ∷ ys) =
    let same = least xs ys in
    let other = 1 + min (min (least xs ys) (least xs (y ∷ ys))) (least (x ∷ xs) ys) in
    if eqb x y then same else other

deletions : (xs : List ℕ) → Edits xs [] (length xs)
deletions [] = done
deletions (x ∷ xs) = delete (deletions xs)

insertions : (ys : List ℕ) → Edits [] ys (length ys)
insertions [] = done
insertions (y ∷ ys) = insert (insertions ys)

least_nil : (xs : List ℕ) → least xs [] ≡ length xs
unfolding least
least_nil [] = refl
least_nil (x ∷ xs) = refl

-- One more character on the left, one less on the right: at most one more edit.
least-steps_left :
    (x y : ℕ) (xs ys : List ℕ)
    → (least (x ∷ xs) ys ≤ suc (least xs ys)) × (least xs ys ≤ suc (least xs (y ∷ ys)))
unfolding least
least-steps_left x y [] [] = omega arith
least-steps_left x y [] (b ∷ ys) = ground (arith, least-steps_left x b [] ys)
least-steps_left x y (a ∷ xs) [] = ground (arith, least-steps_left a y xs [], least_nil xs)
least-steps_left x y (a ∷ xs) (b ∷ ys) =
    ground (arith, least-steps_left x b (a ∷ xs) ys, least-steps_left a y xs (b ∷ ys))

least-steps_right :
    (x y : ℕ) (xs ys : List ℕ)
    → (least xs (y ∷ ys) ≤ suc (least xs ys)) × (least xs ys ≤ suc (least (x ∷ xs) ys))
unfolding least
least-steps_right x y [] [] = omega arith
least-steps_right x y [] (b ∷ ys) = ground (arith, least-steps_right x b [] ys)
least-steps_right x y (a ∷ xs) [] = ground (arith, least-steps_right a y xs [], least_nil xs)
least-steps_right x y (a ∷ xs) (b ∷ ys) =
    ground (arith, least-steps_right x b (a ∷ xs) ys, least-steps_right a y xs (b ∷ ys))

-- No script has fewer edits.
pub least-le : {xs ys : List ℕ} {n : ℕ} → Edits xs ys n → least xs ys ≤ n
unfolding least
least-le done = omega arith
least-le (keep {x} {y} same s) = ground (arith, least-le s)
least-le (replace {x} {y} s) = ground (arith, least-le s)
least-le (delete {x} {xs} {ys} s) = omega (arith, (least-steps_left x 0 xs ys).0, least-le s)
least-le (insert {y} {xs} {ys} s) = omega (arith, (least-steps_right 0 y xs ys).0, least-le s)

Edits-eq : {xs ys : List ℕ} {m n : ℕ} → m ≡ n → Edits xs ys m → Edits xs ys n
Edits-eq {xs} {ys} e s = rw e at s

Edits-min : {xs ys : List ℕ} {m n : ℕ} → Edits xs ys m → Edits xs ys n → Edits xs ys (min m n)
Edits-min {m} {n} s t = elim (dec_le m n) [
  | yes h ↦ Edits-eq (omega arith) s
  | no h ↦ Edits-eq (omega arith) t
]

-- Some script has as many.
pub least-Edits : (xs ys : List ℕ) → Edits xs ys (least xs ys)
unfolding least
least-Edits [] ys = insertions ys
least-Edits (x ∷ xs) [] = deletions (x ∷ xs)
least-Edits (x ∷ xs) (y ∷ ys) = elim (Bool-cases (eqb x y)) [
  | inl same ↦ rw same (keep ((eqb_iff x y).0 same) (least-Edits xs ys))
  | inr other ↦ rw other (
      Edits-eq (omega arith) (
        Edits-min (Edits-min (replace (least-Edits xs ys)) (delete (least-Edits xs (y ∷ ys))))
          (insert (least-Edits (x ∷ xs) ys))))
]

abbrev pub rev_onto : List ℕ → List ℕ → List ℕ
rev_onto [] ys = ys
rev_onto (x ∷ xs) ys = rev_onto xs (x ∷ ys)

pub rev_onto-rev_onto : (xs ys zs : List ℕ) → rev_onto (rev_onto xs ys) zs ≡ rev_onto ys (xs ++ zs)
rev_onto-rev_onto [] ys zs = refl
rev_onto-rev_onto (x ∷ xs) ys zs = rev_onto-rev_onto xs (x ∷ ys) zs

-- Scripts read from either end.
pub Edits-rev_onto :
    {xs ys as_ bs : List ℕ} {m n : ℕ}
    → Edits xs ys m
    → Edits as_ bs n
    → Edits (rev_onto xs as_) (rev_onto ys bs) (m + n)
Edits-rev_onto done t = Edits-eq (omega arith) t
Edits-rev_onto (keep e s) t = Edits-rev_onto s (keep e t)
Edits-rev_onto (replace s) t = Edits-eq (omega arith) (Edits-rev_onto s (replace t))
Edits-rev_onto (delete s) t = Edits-eq (omega arith) (Edits-rev_onto s (delete t))
Edits-rev_onto (insert s) t = Edits-eq (omega arith) (Edits-rev_onto s (insert t))
