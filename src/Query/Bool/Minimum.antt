-- ===== src/Query/Bool/Minimum.antt =====
-- How many `should` clauses must match: bounds of `minimum_should_match`, and the rounding of
-- percentages.
use qdrant_es_gateway.Prelude.{
  ℕ, ◌+◌, ◌*◌, ◌%◌, ◌≤◌, ◌<◌, ◌≡◌, String, Bool, none, some, if◌then◌else◌, arith, min, max,
}
use qdrant_es_gateway.Parse.{u64_limit, parse_unsigned, strip_suffix}
use qdrant_es_gateway.Json.{Map, string, lookup}
use qdrant_es_gateway.Query.Bool.{
  minimum_should_match, explicit_minimum, minimum_value, minimum_text, percent_of, default_minimum,
}

-- The minimum is at least one where no other clause is required and there is a `should` clause, and
-- it never exceeds the number of `should` clauses.
pub minimum_bounds :
    (m : Map) (should_len : ℕ) (required : Bool)
    → (min should_len (if required then 0 else 1) ≤ minimum_should_match m should_len required)
      × (minimum_should_match m should_len required ≤ should_len)
unfolding minimum_should_match
minimum_bounds m should_len required = ground arith

pub minimum-stated :
    (m : Map) (should_len : ℕ) (required : Bool) {n : ℕ}
    → explicit_minimum m should_len ≡ some n
    → 0 < should_len
    → minimum_should_match m should_len required ≡ min (max n (default_minimum required)) should_len
unfolding minimum_should_match
minimum-stated m should_len required e pos = rw e (ground arith)

-- A percentage up to 100 of fewer than 2^57 clauses is rounded up, with no wrap-around.
pub percent_of_bounds :
    (should_len percent : ℕ)
    → percent ≤ 100
    → should_len < 144115188075855872
    → (should_len * percent ≤ 100 * percent_of should_len percent)
      × (100 * percent_of should_len percent < should_len * percent + 100)
      × (percent_of should_len percent ≤ should_len)
percent_of_bounds should_len percent h k =
    let top : should_len * percent ≤ should_len * 100 = grind arith in
    let product : should_len * percent < u64_limit = omega arith in
    let whole : should_len * percent % u64_limit ≡ should_len * percent = omega (arith, product) in
    (omega arith, omega arith, omega arith)

minimum_text-percent :
    (should_len : ℕ) (text digits : String) {percent : ℕ}
    → parse_unsigned u64_limit text ≡ none
    → strip_suffix "%" text ≡ some digits
    → parse_unsigned u64_limit digits ≡ some percent
    → minimum_text should_len text ≡ some (percent_of should_len percent)
unfolding minimum_text
minimum_text-percent should_len text digits a b c = ground arith

explicit_minimum-text :
    (m : Map) (should_len : ℕ) {text : String} {n : ℕ}
    → lookup "minimum_should_match" m ≡ some (string text)
    → minimum_text should_len text ≡ some n
    → explicit_minimum m should_len ≡ some n
unfolding explicit_minimum minimum_value
explicit_minimum-text m should_len a b = ground arith

-- Where the query states a percentage of at most 100 and there are between one and 2^57 clauses, at
-- least that share of the clauses must match, and no more clauses than the share rounded up, or
-- than one.
pub minimum-percentage :
    (m : Map) (should_len : ℕ) (required : Bool) (text digits : String) {percent : ℕ}
    → lookup "minimum_should_match" m ≡ some (string text)
    → parse_unsigned u64_limit text ≡ none
    → strip_suffix "%" text ≡ some digits
    → parse_unsigned u64_limit digits ≡ some percent
    → percent ≤ 100
    → 0 < should_len
    → should_len < 144115188075855872
    → (should_len * percent ≤ 100 * minimum_should_match m should_len required)
      × (100 * minimum_should_match m should_len required < max 101 (should_len * percent + 100))
minimum-percentage m should_len required text digits {percent} a b c d h pos k =
    let (low, high, most) = percent_of_bounds should_len percent h k in
    let stated =
      explicit_minimum-text m should_len a (minimum_text-percent should_len text digits b c d) in
    rw (minimum-stated m should_len required stated pos)
      (clamped (percent_of should_len percent) low high most)
  where
    clamped :
        (n : ℕ)
        → should_len * percent ≤ 100 * n
        → 100 * n < should_len * percent + 100
        → n ≤ should_len
        → (should_len * percent ≤ 100 * min (max n (default_minimum required)) should_len)
          × (100 * min (max n (default_minimum required)) should_len
              < max 101 (should_len * percent + 100))
    clamped n low high most = (ground arith, ground arith)
