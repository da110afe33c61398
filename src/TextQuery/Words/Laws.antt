-- ===== src/TextQuery/Words/Laws.antt =====
-- Fuzzy matching by edit scripts.
use qdrant_es_gateway.Prelude.{
  ℕ, ◌≤◌, ◌≡◌, ◌↔◌, ◌⊎◌, inl, inr, refl, String, Bool, true, false, List, [], ◌∷◌, ◌||◌, leb_iff,
  all, any, All, codes, length, Bool-cases, and_true, arith,
}
use qdrant_es_gateway.TextQuery.Distance.{edit_distance}
use qdrant_es_gateway.TextQuery.Distance.Edits.{Edits}
use qdrant_es_gateway.TextQuery.Distance.Rows.{edit_distance-IsLeast}
use qdrant_es_gateway.TextQuery.Words.{within, maximum_edits, words, fuzzy_matches}

-- Some item of a list satisfies the predicate.
abbrev pub Some : (String → Type 0) → List String → Type 0
Some P [] = ⊥
Some P (s ∷ l) = P s ⊎ Some P l

-- One text becomes the other by no edits, by one if it has three characters or more, or by two if it
-- has six or more.
abbrev pub IsNear : String → String → Type 0
IsNear term candidate =
    (n : ℕ) × Edits (codes term) (codes candidate) n
    × ((n ≡ 0) ⊎ (((n ≡ 1) × (3 ≤ length (codes term))) ⊎ ((n ≡ 2) × (6 ≤ length (codes term)))))

maximum_edits_iff :
    (term : String) (n : ℕ)
    → (n ≤ maximum_edits term)
      ↔ ((n ≡ 0) ⊎ (((n ≡ 1) × (3 ≤ length (codes term))) ⊎ ((n ≡ 2) × (6 ≤ length (codes term)))))
unfolding maximum_edits
maximum_edits_iff term n = (λ h. ground arith, λ h. ground arith)

pub within_iff :
    (term candidate : String) (k : ℕ)
    → (within k (edit_distance term candidate) ≡ true)
      ↔ ((n : ℕ) × Edits (codes term) (codes candidate) n × (n ≤ k))
within_iff term candidate k =
    let (d, e, script, least) = edit_distance-IsLeast term candidate in
    rw e (
      (λ h. (d, script, (leb_iff d k).0 h)),
      (λ (n, s, lt). (leb_iff d k).1 (omega (arith, least n s))),
    )

IsNear-iff :
    (term candidate : String)
    → (within (maximum_edits term) (edit_distance term candidate) ≡ true) ↔ IsNear term candidate
IsNear-iff term candidate =
    let (to, from) = within_iff term candidate (maximum_edits term) in
    (
      (λ e. let (n, s, few) = to e in (n, s, (maximum_edits_iff term n).0 few)),
      (λ (n, s, few). from (n, s, (maximum_edits_iff term n).1 few)),
    )

or_right : (a : Bool) {b : Bool} → b ≡ true → (a || b) ≡ true
or_right true e = refl
or_right false e = e

any_iff :
    {P : String → Type 0} (p : String → Bool)
    → ((s : String) → (p s ≡ true) ↔ P s)
    → (l : List String) → (any p l ≡ true) ↔ Some P l
any_iff p h [] = ((λ e. absurd (ground arith)), λ s. elim s [ ])
any_iff p h (x ∷ l) =
    let (ih_to, ih_from) = any_iff p h l in
    (
      (λ e. elim (Bool-cases (p x)) [
        | inl found ↦ inl ((h x).0 found)
        | inr other ↦ inr (ih_to (rw other at e))
      ]),
      (λ s. elim s [ inl q ↦ rw ((h x).1 q) refl | inr q ↦ or_right (p x) (ih_from q) ]),
    )

all_iff :
    {P : String → Type 0} (p : String → Bool)
    → ((s : String) → (p s ≡ true) ↔ P s)
    → (l : List String) → (all p l ≡ true) ↔ All P l
all_iff p h [] = ((λ e. tt), λ s. refl)
all_iff p h (x ∷ l) =
    let (ih_to, ih_from) = all_iff p h l in
    (
      (λ e. let (a, b) = and_true _ _ e in ((h x).0 a, ih_to b)),
      (λ (a, b). rw ((h x).1 a, ih_from b) refl),
    )

-- A fuzzy query matches exactly if each of its words is near to a word of the text: it becomes
-- that word by no edits for up to two characters, by one for up to five, and by two beyond.
pub fuzzy_matches_lem :
    (split_whitespace : String → List String) (to_lowercase : String → String) (text query : String)
    → (fuzzy_matches split_whitespace to_lowercase text query ≡ true)
      ↔ All
          (λ term. Some (IsNear term) (words split_whitespace to_lowercase text))
          (words split_whitespace to_lowercase query)
unfolding fuzzy_matches
fuzzy_matches_lem split_whitespace to_lowercase text query =
    all_iff _ (λ term. any_iff _ (λ candidate. IsNear-iff term candidate) _) _
