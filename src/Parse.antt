-- ===== src/Parse.antt =====
-- What the gateway uses of Rust's string functions: splitting, prefixes and suffixes, and parsing of
-- unsigned integers.
pub mod Laws
use Prim.Native.Char.{Char, code}
use Prim.Native.String
use Prim.Native.String.{String}
use qdrant_es_gateway.Prelude.{
  ℕ, ◌+◌, ◌-◌, ◌*◌, ◌≡◌, refl, Bool, true, false, ◌&&◌, List, [], ◌∷◌, ◌++◌, Option, none, some,
  if◌then◌else◌, leb, ltb, eqb, codes, ◌==◌,
}

abbrev pub concat : String → String → String
concat s t = String.◌++◌ s t

abbrev pub push : String → Char → String
push s c = String.◌++◌ s (String.◌∷◌ c String.[])

-- `str::split` at one character: the parts before a text's end, `part` being collected.
unfoldable pub split_from : ℕ → String → String → List String
split_from mark part String.[] = part ∷ []
split_from mark part (String.◌∷◌ c s) =
    let closed = part ∷ split_from mark "" s in
    let longer = split_from mark (push part c) s in if eqb (code c) mark then closed else longer

unfoldable pub split : ℕ → String → List String
unfolding split_from
split mark s = split_from mark "" s

-- `str::strip_prefix`.
unfoldable pub strip_prefix : String → String → Option String
strip_prefix String.[] s = some s
strip_prefix (String.◌∷◌ p ps) String.[] = none
strip_prefix (String.◌∷◌ p ps) (String.◌∷◌ c s) =
    let rest = strip_prefix ps s in if eqb (code p) (code c) then rest else none

-- `str::strip_suffix`.
unfoldable pub strip_suffix : String → String → Option String
strip_suffix suffix String.[] = if suffix == "" then some "" else none
strip_suffix suffix (String.◌∷◌ c s) =
    if String.◌∷◌ c s == suffix
    then some ""
    else elim (strip_suffix suffix s) [ none ↦ none | some r ↦ some (String.◌∷◌ c r) ]

-- `str::contains` of one character.
unfoldable pub contains : ℕ → String → Bool
contains mark String.[] = false
contains mark (String.◌∷◌ c s) = if eqb (code c) mark then true else contains mark s

abbrev pub is_empty_str : String → Bool
is_empty_str s = s == ""

abbrev pub is_ascii_digit : ℕ → Bool
is_ascii_digit c = leb b'0' c && leb c b'9'

-- The number behind the digits read so far.
unfoldable pub parse_digits : ℕ → List ℕ → Option ℕ
parse_digits n [] = some n
parse_digits n (c ∷ cs) =
    let rest = parse_digits (n * 10 + (c - 48)) cs in if is_ascii_digit c then rest else none

parse_nonempty : List ℕ → Option ℕ
parse_nonempty [] = none
parse_nonempty (c ∷ cs) = parse_digits 0 (c ∷ cs)

skip_plus : List ℕ → List ℕ
skip_plus [] = []
skip_plus (c ∷ cs) = if eqb c b'+' then cs else c ∷ cs

abbrev within : ℕ → Option ℕ → Option ℕ
within limit none = none
within limit (some n) = if ltb n limit then some n else none

-- `str::parse` to an unsigned integer below `limit`: one leading plus sign is allowed.
unfoldable pub parse_unsigned : ℕ → String → Option ℕ
unfolding parse_digits parse_nonempty skip_plus
parse_unsigned limit s = within limit (parse_nonempty (skip_plus (codes s)))

abbrev pub u32_limit : ℕ
u32_limit = 4294967296

abbrev pub u64_limit : ℕ
u64_limit = 18446744073709551616
