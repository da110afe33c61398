-- ===== src/TextQuery/Match/Inclusion.antt =====
-- What a match query finds, the approximate queries find too.
use text.Mathlib.TextEquality.{eq_iff}
use qdrant_es_gateway.Prelude.{
  ℕ, ◌≡◌, ◌≢◌, inl, inr, refl, String, Bool, true, List, [], ◌∷◌, some, all, any, All, map, ◌==◌,
  codes, Bool-cases, Option-cases, and_true, arith,
}
use qdrant_es_gateway.Prelude.Fixpoint.{run, fix}
use qdrant_es_gateway.Parse.{strip_prefix}
use qdrant_es_gateway.Json.{Value, string, object, end, field, lookup}
use qdrant_es_gateway.Query.Fields.{source_field, compatibility_field}
use qdrant_es_gateway.TextQuery.Distance.{edit_distance}
use qdrant_es_gateway.TextQuery.Distance.Edits.{Edits, done, keep}
use qdrant_es_gateway.TextQuery.Words.{words, field_text, fuzzy_matches, maximum_edits, within}
use qdrant_es_gateway.TextQuery.Words.Laws.{within_iff}
use qdrant_es_gateway.TextQuery.Match.{
  all_found, prefix_found, starts_with, match_query, match_bool_prefix, fuzzy, object_text_matches,
  query_text_matches, text_query_matches,
}

Edits_self : (xs : List ℕ) → Edits xs xs 0
Edits_self [] = done
Edits_self (x ∷ xs) = keep refl (Edits_self xs)

strip_prefix_self : (s : String) → strip_prefix s s ≡ some ""
unfolding strip_prefix
strip_prefix_self String.[] = refl
strip_prefix_self (String.◌∷◌ c s) = ground (arith, strip_prefix_self s)

all_mono :
    (p q : String → Bool)
    → ((s : String) → p s ≡ true → q s ≡ true)
    → (l : List String) → all p l ≡ true
    → all q l ≡ true
all_mono p q h [] e = refl
all_mono p q h (x ∷ l) e = let (a, b) = and_true _ _ e in rw (h x a, all_mono p q h l b) refl

any_mono :
    (p q : String → Bool)
    → ((s : String) → p s ≡ true → q s ≡ true)
    → (l : List String) → any p l ≡ true
    → any q l ≡ true
any_mono p q h [] e = e
any_mono p q h (x ∷ l) e = elim (Bool-cases (p x)) [
  | inl found ↦ rw (h x found) refl
  | inr other ↦ elim (Bool-cases (q x)) [
    | inl found ↦ rw found refl
    | inr q_other ↦ rw q_other (any_mono p q h l (rw other at e))
  ]
]

equal-starts_with :
    (term candidate : String) → (candidate == term) ≡ true → starts_with candidate term ≡ true
equal-starts_with term candidate e =
    rw ((eq_iff candidate term).0 e, starts_with, strip_prefix_self term) refl

all_found-prefix_found :
    (term : String) (terms candidates : List String)
    → all_found (term ∷ terms) candidates ≡ true
    → prefix_found (term ∷ terms) candidates ≡ true
unfolding prefix_found
all_found-prefix_found term [] candidates e =
    any_mono _ _ (equal-starts_with term) candidates (and_true _ _ e).0
all_found-prefix_found term (next ∷ terms) candidates e =
    let (a, b) =
      and_true (any (λ candidate. candidate == term) candidates)
        (all_found (next ∷ terms) candidates) e in
    rw (a, all_found-prefix_found next terms candidates b) refl

equal-within :
    (term candidate : String)
    → (candidate == term) ≡ true
    → within (maximum_edits term) (edit_distance term candidate) ≡ true
equal-within term candidate e =
    rw ((eq_iff candidate term).0 e)
      ((within_iff term term _).1 (0, Edits_self (codes term), omega arith))

map_fixed : (f : String → String) (l : List String) → All (λ s. f s ≡ s) l → map f l ≡ l
map_fixed f [] h = refl
map_fixed f (x ∷ l) (e, h) = rw (e, map_fixed f l h) refl

-- A query of one field in its short form.
abbrev pub query_on : String → String → String → Value
query_on kind name text = object (field kind (object (field name (string text) end)) end)

all_found-prefix :
    (terms candidates : List String)
    → terms ≢ []
    → all_found terms candidates ≡ true
    → prefix_found terms candidates ≡ true
all_found-prefix [] candidates h e = absurd (h refl)
all_found-prefix (term ∷ terms) candidates h e = all_found-prefix_found term terms candidates e

module _ (split_whitespace : String → List String) (to_lowercase : String → String)
    (to_string : Value → String) (source : Value)
    (lowered : (text : String)
      → All (λ word. to_lowercase word ≡ word) (split_whitespace (to_lowercase text))) where
  abbrev matches : Value → Bool
  matches = text_query_matches split_whitespace to_lowercase to_string source

  field_text-IsLowered :
      (name : String)
      → All
          (λ word. to_lowercase word ≡ word)
          (split_whitespace (field_text to_lowercase to_string source name))
  unfolding field_text
  field_text-IsLowered name = elim (Option-cases (source_field source (compatibility_field name))) [
    | inl e ↦ rw (e, field_text) (lowered "")
    | inr (v, e) ↦ rw (e, field_text) (lowered _)
  ]

  found-fuzzy :
      (text query : String)
      → All (λ word. to_lowercase word ≡ word) (split_whitespace text)
      → all_found (words split_whitespace to_lowercase query) (split_whitespace text) ≡ true
      → fuzzy_matches split_whitespace to_lowercase text query ≡ true
  unfolding fuzzy_matches words
  found-fuzzy text query fixed found = rw (map_fixed to_lowercase (split_whitespace text) fixed) (
      all_mono _ _ (λ term. any_mono _ _ (equal-within term) (split_whitespace text))
        (map to_lowercase (split_whitespace query)) found)

  -- What a match query finds, the fuzzy query for the same text finds as well, and so does the
  -- prefix query if the text has a word, provided that the words of a text in lower case are in
  -- lower case.
  pub match-included :
      (name text : String)
      → matches (query_on "match" name text) ≡ true
      → (matches (query_on "fuzzy" name text) ≡ true)
        × (words split_whitespace to_lowercase text ≢ []
            → matches (query_on "match_bool_prefix" name text) ≡ true)
  unfolding text_query_matches fix run query_text_matches object_text_matches match_query
      match_bool_prefix fuzzy lookup
  match-included name text h = (
    found-fuzzy (field_text to_lowercase to_string source name) text (field_text-IsLowered name) h,
    λ some_word. all_found-prefix _ _ some_word h,
  )
