-- ===== src/Sparse/Name/Laws.antt =====
-- Different fields have different vectors in Qdrant.
use Prim.Native.Char.{Char, char, code, IsScalar}
use text.Mathlib.TextEquality.{Char-path}
use native.Mathlib.Decide.{dec_lt}
use qdrant_es_gateway.Prelude.{
  ℕ, ◌≤◌, zero, suc, ◌+◌, ◌-◌, ◌/◌, ◌%◌, ◌<◌, ◌≡◌, ◌≢◌, ◌∙◌, refl, sym, ap, String, List, [], ◌∷◌,
  ◌++◌, if◌then◌else◌, ltb, All, All-append, drop, codes, arith,
}
use qdrant_es_gateway.Search.Window.Show.{codes-concat}
use qdrant_es_gateway.Sparse.Name.{utf8, as_bytes, hex_digit, hex, name}

abbrev unhex : ℕ → ℕ
unhex c = if ltb c 58 then c - 48 else c - 87

unhex-hex_digit : (d : ℕ) → d < 16 → unhex (code (hex_digit d)) ≡ d
unfolding hex_digit
unhex-hex_digit zero h = refl
unhex-hex_digit (suc zero) h = refl
unhex-hex_digit (suc (suc zero)) h = refl
unhex-hex_digit (suc (suc (suc zero))) h = refl
unhex-hex_digit (suc (suc (suc (suc zero)))) h = refl
unhex-hex_digit (suc (suc (suc (suc (suc zero))))) h = refl
unhex-hex_digit (suc (suc (suc (suc (suc (suc zero)))))) h = refl
unhex-hex_digit (suc (suc (suc (suc (suc (suc (suc zero))))))) h = refl
unhex-hex_digit (suc (suc (suc (suc (suc (suc (suc (suc zero)))))))) h = refl
unhex-hex_digit (suc (suc (suc (suc (suc (suc (suc (suc (suc zero))))))))) h = refl
unhex-hex_digit (suc (suc (suc (suc (suc (suc (suc (suc (suc (suc zero)))))))))) h = refl
unhex-hex_digit (suc (suc (suc (suc (suc (suc (suc (suc (suc (suc (suc zero))))))))))) h = refl
unhex-hex_digit (suc (suc (suc (suc (suc (suc (suc (suc (suc (suc (suc (suc zero)))))))))))) h =
    refl
unhex-hex_digit (suc (suc (suc (suc (suc (suc (suc (suc (suc (suc (suc (suc (suc zero)))))))))))))
      h =
    refl
unhex-hex_digit
      (suc (suc (suc (suc (suc (suc (suc (suc (suc (suc (suc (suc (suc (suc zero)))))))))))))) h =
    refl
unhex-hex_digit
      (suc (suc (suc (suc (suc (suc (suc (suc (suc (suc (suc (suc (suc (suc (suc zero)))))))))))))))
      h =
    refl
unhex-hex_digit
      (suc
        (suc (suc (suc (suc (suc (suc (suc (suc (suc (suc (suc (suc (suc (suc (suc d))))))))))))))))
      h =
    absurd (omega arith)

hex_digit-inj : (a b : ℕ) → a < 16 → b < 16 → code (hex_digit a) ≡ code (hex_digit b) → a ≡ b
hex_digit-inj a b h k e = sym (unhex-hex_digit a h) ∙ ap unhex e ∙ unhex-hex_digit b k

abbrev AreBytes : List ℕ → Type 0
AreBytes bs = All (λ b. b < 256) bs

cons_inj : {x y : ℕ} {xs ys : List ℕ} → x ∷ xs ≡ y ∷ ys → (x ≡ y) × (xs ≡ ys)
cons_inj h = (cc, cc)

hex-inj : (bs cs : List ℕ) → AreBytes bs → AreBytes cs → codes (hex bs) ≡ codes (hex cs) → bs ≡ cs
unfolding hex
hex-inj [] [] h k e = refl
hex-inj [] (c ∷ cs) h k e = cc
hex-inj (b ∷ bs) [] h k e = cc
hex-inj (b ∷ bs) (c ∷ cs) (small, h) (small', k) e =
    let (high, rest) = cons_inj e in
    let (low, later) = cons_inj rest in
    let q : b / 16 ≡ c / 16 = hex_digit-inj (b / 16) (c / 16) (omega arith) (omega arith) high in
    let r : b % 16 ≡ c % 16 = hex_digit-inj (b % 16) (c % 16) (omega arith) (omega arith) low in
    let same : b ≡ c = omega arith in let ih : bs ≡ cs = hex-inj bs cs h k later in cc

-- The four lengths of a character's bytes.
data Width (c : ℕ) : Type 0 where
  one : c < 128 → utf8 c ≡ c ∷ [] → Width c
  two : 128 ≤ c → c < 2048 → utf8 c ≡ (192 + c / 64) ∷ (128 + c % 64) ∷ [] → Width c
  three :
      2048 ≤ c
      → c < 65536
      → utf8 c ≡ (224 + c / 4096) ∷ (128 + c / 64 % 64) ∷ (128 + c % 64) ∷ []
      → Width c
  four :
      65536 ≤ c
      → utf8 c
        ≡ (240 + c / 262144) ∷ (128 + c / 4096 % 64) ∷ (128 + c / 64 % 64) ∷ (128 + c % 64) ∷ []
      → Width c

width : (c : ℕ) → Width c
unfolding utf8
width c = elim (dec_lt c 128) [
  | yes h ↦ one h (ground arith)
  | no h ↦ elim (dec_lt c 2048) [
    | yes k ↦ two (omega arith) k (ground arith)
    | no k ↦ elim (dec_lt c 65536) [
      | yes l ↦ three (omega arith) l (ground arith)
      | no l ↦ four (omega arith) (ground arith)
    ]
  ]
]

-- A character's bytes and where they end are determined by the bytes.
utf8-inj : (c d : ℕ) (xs ys : List ℕ) → utf8 c ++ xs ≡ utf8 d ++ ys → (c ≡ d) × (xs ≡ ys)
utf8-inj c d xs ys e = split (width c) (width d)
  where
    split : Width c → Width d → (c ≡ d) × (xs ≡ ys)
    split (one h p) (one k q) = ground arith
    split (one h p) (two k l q) = ground arith
    split (one h p) (three k l q) = ground arith
    split (one h p) (four k q) = ground arith
    split (two h m p) (one k q) = ground arith
    split (two h m p) (two k l q) = ground arith
    split (two h m p) (three k l q) = ground arith
    split (two h m p) (four k q) = ground arith
    split (three h m p) (one k q) = ground arith
    split (three h m p) (two k l q) = ground arith
    split (three h m p) (three k l q) = ground arith
    split (three h m p) (four k q) = ground arith
    split (four h p) (one k q) = ground arith
    split (four h p) (two k l q) = ground arith
    split (four h p) (three k l q) = ground arith
    split (four h p) (four k q) = ground arith

-- A character has a byte.
nonempty : (c : ℕ) (xs : List ℕ) → utf8 c ++ xs ≡ [] → ⊥
nonempty c xs e = none_left (width c)
  where
    none_left : Width c → ⊥
    none_left (one h p) = cc (rw p at e)
    none_left (two h k p) = cc (rw p at e)
    none_left (three h k p) = cc (rw p at e)
    none_left (four h p) = cc (rw p at e)

as_bytes-inj : (cs ds : List ℕ) → as_bytes cs ≡ as_bytes ds → cs ≡ ds
unfolding as_bytes
as_bytes-inj [] [] e = refl
as_bytes-inj [] (d ∷ ds) e = absurd (nonempty d (as_bytes ds) (sym e))
as_bytes-inj (c ∷ cs) [] e = absurd (nonempty c (as_bytes cs) e)
as_bytes-inj (c ∷ cs) (d ∷ ds) e =
    let (same, rest) = utf8-inj c d (as_bytes cs) (as_bytes ds) e in
    let ih : cs ≡ ds = as_bytes-inj cs ds rest in cc

scalar : (n : ℕ) → IsScalar n → n < 1114112
scalar n p = ground arith

code-lt : (c : Char) → code c < 1114112
code-lt (char n p) = scalar n p

pub codes-inj : (s t : String) → codes s ≡ codes t → s ≡ t
codes-inj String.[] String.[] e = refl
codes-inj String.[] (String.◌∷◌ c t) e = cc
codes-inj (String.◌∷◌ c s) String.[] e = cc
codes-inj (String.◌∷◌ c s) (String.◌∷◌ d t) e =
    let (same, rest) = cons_inj e in
    let head : c ≡ d = Char-path c d same in let tail : s ≡ t = codes-inj s t rest in cc

utf8-AreBytes : (c : ℕ) → c < 1114112 → AreBytes (utf8 c)
utf8-AreBytes c h = small (width c)
  where
    small : Width c → AreBytes (utf8 c)
    small (one k p) = rw p (omega arith)
    small (two k l p) = rw p (omega arith)
    small (three k l p) = rw p (omega arith)
    small (four k p) = rw p (omega arith)

as_bytes-AreBytes : (s : String) → AreBytes (as_bytes (codes s))
unfolding as_bytes
as_bytes-AreBytes String.[] = tt
as_bytes-AreBytes (String.◌∷◌ c s) =
    All-append (λ b. b < 256) (utf8 (code c)) (as_bytes (codes s))
      (utf8-AreBytes (code c) (code-lt c)) (as_bytes-AreBytes s)

name-inj : (a b : String) → name a ≡ name b → a ≡ b
unfolding name
name-inj a b h =
    let texts : codes "sparse_" ++ codes (hex (as_bytes (codes a)))
        ≡ codes "sparse_" ++ codes (hex (as_bytes (codes b))) =
      sym (codes-concat "sparse_" _) ∙ ap codes h ∙ codes-concat "sparse_" _ in
    codes-inj a b (
      as_bytes-inj _ _
        (hex-inj _ _ (as_bytes-AreBytes a) (as_bytes-AreBytes b) (ap (drop 7) texts)))

-- Different fields have different vectors.
pub name-ne : (a b : String) → a ≢ b → name a ≢ name b
name-ne a b h e = h (name-inj a b e)
