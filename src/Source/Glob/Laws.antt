-- ===== src/Source/Glob/Laws.antt =====
-- The loop of `glob_matches` against the language of its pattern: the fuel is enough, and going back
-- to the last star alone misses nothing.
use qdrant_es_gateway.Prelude.{
  ℕ, zero, suc, ◌+◌, ◌*◌, ◌≤◌, ◌<◌, ◌≡◌, refl, sym, ap, ◌∙◌, String, Bool, true, false, not, ◌||◌,
  List, [], ◌∷◌, ◌++◌, none, some, arith, eqb, eqb_iff, length, length-append, drop, Bool-cases,
  inl, inr, all, and_true, codes,
}
use mathlib.Core.Path.{subst}
use qdrant_es_gateway.Source.Glob.{Star, only_stars, retry, glob_loop, enough_fuel, glob_matches}
use qdrant_es_gateway.Source.Glob.Spec.{
  any_suffix, any_suffix-length, describes, needs, describes-needs,
}

abbrev pub plain : ℕ → Bool
plain c = not (eqb c b'*')

only_stars-describes : (ps : List ℕ) → only_stars ps ≡ describes ps []
unfolding only_stars describes any_suffix
only_stars-describes [] = refl
only_stars-describes (p ∷ ps) = ground (arith, only_stars-describes ps)

needs-plain : (seg ps : List ℕ) → all plain seg ≡ true → length seg ≤ needs (seg ++ ps)
unfolding needs
needs-plain [] ps h = omega arith
needs-plain (c ∷ seg) ps h = ground (arith, needs-plain seg ps)

any_suffix-drop :
    (f : List ℕ → Bool) (k : ℕ) (vs : List ℕ)
    → any_suffix f (drop (suc k) vs) ≡ true
    → any_suffix f (drop k vs) ≡ true
unfolding any_suffix
any_suffix-drop f zero [] h = h
any_suffix-drop f zero (v ∷ vs) h = ground arith
any_suffix-drop f (suc k) [] h = h
any_suffix-drop f (suc k) (v ∷ vs) h = any_suffix-drop f k vs h

any_suffix-any_suffix :
    (f : List ℕ → Bool) (k : ℕ) (vs : List ℕ)
    → any_suffix (λ ws. any_suffix f (drop k ws)) vs ≡ true
    → any_suffix f (drop k vs) ≡ true
unfolding any_suffix
any_suffix-any_suffix f k [] h = h
any_suffix-any_suffix f k (v ∷ vs) h = elim (Bool-cases (any_suffix f (drop k (v ∷ vs)))) [
  | inl here ↦ here
  | inr not_here ↦ any_suffix-drop f k (v ∷ vs) (any_suffix-any_suffix f k vs (rw not_here at h))
]

any_suffix_mono :
    (f g : List ℕ → Bool)
    → ((ws : List ℕ) → f ws ≡ true → g ws ≡ true)
    → (vs : List ℕ) → any_suffix f vs ≡ true
    → any_suffix g vs ≡ true
unfolding any_suffix
any_suffix_mono f g h [] e = h [] e
any_suffix_mono f g h (v ∷ vs) e = ground (arith, h (v ∷ vs), any_suffix_mono f g h vs)

-- What a segment without stars describes is as long as the segment.
describes-segment :
    (seg ps ws : List ℕ)
    → all plain seg ≡ true
    → describes (seg ++ b'*' ∷ ps) ws ≡ true
    → any_suffix (describes ps) (drop (length seg) ws) ≡ true
unfolding describes
describes-segment [] ps ws h e = e
describes-segment (c ∷ seg) ps [] h e = absurd (ground arith)
describes-segment (c ∷ seg) ps (w ∷ ws) h e = ground (arith, describes-segment seg ps ws)

drop-append : (xs ys zs : List ℕ) → length xs ≡ length zs → drop (length xs) (zs ++ ys) ≡ ys
drop-append [] ys [] h = refl
drop-append [] ys (z ∷ zs) h = absurd (omega arith)
drop-append (x ∷ xs) ys [] h = absurd (omega arith)
drop-append (x ∷ xs) ys (z ∷ zs) h = drop-append xs ys zs (omega arith)

-- What is left to try: the star takes at least one more character.
abbrev alternatives : Star → Bool
alternatives none = false
alternatives (some (ps, [])) = false
alternatives (some (ps, v ∷ vs)) = any_suffix (describes ps) vs

-- Since the last star, a segment of the pattern without stars has been read against as many
-- characters. `rounds` bounds how often the star can still grow.
abbrev Inv : ℕ → ℕ → List ℕ → List ℕ → Star → Type 0
Inv bound rounds ps vs none = length vs ≤ rounds
Inv bound rounds ps vs (some (sps, sv)) =
    (seg : List ℕ) × (read : List ℕ) × (sps ≡ seg ++ ps)
    × (sv ≡ read ++ vs)
    × (all plain seg ≡ true)
    × (length seg ≡ length read)
    × (length sv ≤ rounds)
    × (length sps + length sv < bound)
    × (all plain sv ≡ true)

-- At the value's end nothing is left to try: what remains is too short.
alternatives-end :
    (bound rounds : ℕ) (ps : List ℕ) (star : Star)
    → Inv bound rounds ps [] star
    → alternatives star ≡ false
alternatives-end bound rounds ps none inv = refl
alternatives-end bound rounds ps (some (sps, [])) inv = refl
alternatives-end bound rounds ps (some (sps, v ∷ vs)) (seg, read, e, e', h, l, r1, r2, r3) =
    elim (Bool-cases (any_suffix (describes sps) vs)) [
      | inr dead ↦ dead
      | inl alive ↦
          let enough : length seg ≤ length vs =
            any_suffix-length (describes sps) (length seg) long vs alive in
          absurd (omega (arith, ap length e', length-append {0} read []))
    ]
  where
    long : (ws : List ℕ) → describes sps ws ≡ true → length seg ≤ length ws
    long ws d =
        let n : needs sps ≤ length ws = describes-needs sps ws d in
        let m : length seg ≤ needs (seg ++ ps) = needs-plain seg ps h in
        let m' : length seg ≤ needs sps = rw e m in omega (arith, n, m')

-- What an earlier star could still describe, the new one can.
alternatives-star :
    (bound rounds : ℕ) (ps vs : List ℕ) (star : Star)
    → Inv bound rounds (b'*' ∷ ps) vs star
    → alternatives star ≡ true
    → any_suffix (describes ps) vs ≡ true
alternatives-star bound rounds ps vs none inv h = cc
alternatives-star bound rounds ps vs (some (sps, [])) inv h = cc
alternatives-star bound rounds ps vs (some (sps, v ∷ sv))
      (seg, read, e, e', plain_seg, l, r1, r2, r3) h =
    rw (← left) (
      any_suffix-any_suffix (describes ps) (length seg) (v ∷ sv) (
        any_suffix_mono (describes sps) (λ ws. any_suffix (describes ps) (drop (length seg) ws))
          (λ ws d. describes-segment seg ps ws plain_seg (rw e at d)) (v ∷ sv) wider))
  where
    left : drop (length seg) (v ∷ sv) ≡ vs
    left = rw e' (drop-append seg vs read l)

    wider : any_suffix (describes sps) (v ∷ sv) ≡ true
    wider = any_suffix-drop (describes sps) zero (v ∷ sv) h

append-one : (xs ys : List ℕ) (y : ℕ) → xs ++ y ∷ ys ≡ (xs ++ y ∷ []) ++ ys
append-one [] ys y = refl
append-one (x ∷ xs) ys y = ap (λ (l : List ℕ). x ∷ l) (append-one xs ys y)

all-plain-one :
    (xs : List ℕ) (x : ℕ) → all plain xs ≡ true → plain x ≡ true → all plain (xs ++ x ∷ []) ≡ true
all-plain-one [] x h k = ground arith
all-plain-one (y ∷ xs) x h k = ground (arith, all-plain-one xs x)

Inv-char :
    (bound rounds p v : ℕ) (ps vs : List ℕ) (star : Star)
    → plain p ≡ true
    → Inv bound rounds (p ∷ ps) (v ∷ vs) star
    → Inv bound rounds ps vs star
Inv-char bound rounds p v ps vs none h inv = omega (arith, inv)
Inv-char bound rounds p v ps vs (some (sps, sv)) h (seg, read, e, e', plain_seg, l, r1, r2, r3) = (
  seg ++ p ∷ [],
  read ++ v ∷ [],
  e ∙ append-one seg ps p,
  e' ∙ append-one read vs v,
  all-plain-one seg p plain_seg h,
  omega (arith, length-append {0} seg (p ∷ []), length-append {0} read (v ∷ [])),
  r1,
  r2,
  r3,
)

Inv-rounds :
    (bound rounds : ℕ) (ps vs : List ℕ) (star : Star)
    → Inv bound rounds ps vs star
    → length vs ≤ rounds
Inv-rounds bound rounds ps vs none inv = inv
Inv-rounds bound rounds ps vs (some (sps, sv)) (seg, read, e, e', plain_seg, l, r1, r2, r3) =
    omega (arith, ap length e', length-append {0} read vs)

-- The new star, and the star that grows, start a segment.
Inv-start :
    (bound rounds : ℕ) (ps vs : List ℕ)
    → length vs ≤ rounds
    → length ps + length vs < bound
    → all plain vs ≡ true
    → Inv bound rounds ps vs (some (ps, vs))
Inv-start bound rounds ps vs le lt h = ([], [], refl, refl, refl, refl, le, lt, h)

-- With enough fuel the loop says whether the rest of the pattern describes the rest of the value, or
-- an earlier star can take more of it.
abbrev Complete : ℕ → Type 0
Complete fuel =
    (bound rounds : ℕ) (ps vs : List ℕ) (star : Star)
    → Inv bound rounds ps vs star
    → all plain vs ≡ true
    → length ps + length vs < bound
    → rounds * bound + length ps + length vs < fuel
    → glob_loop fuel ps vs star ≡ (describes ps vs || alternatives star)

any_suffix-split :
    (ps vs : List ℕ)
    → (describes ps vs || alternatives (some (ps, vs))) ≡ any_suffix (describes ps) vs
unfolding any_suffix
any_suffix-split ps [] = ground arith
any_suffix-split ps (v ∷ vs) = refl

retry_lem :
    (fuel bound rounds : ℕ) (ps : List ℕ) (v : ℕ) (vs : List ℕ) (star : Star)
    → Complete fuel
    → Inv bound rounds ps (v ∷ vs) star
    → rounds * bound ≤ fuel
    → retry (glob_loop fuel) star ≡ alternatives star
retry_lem fuel bound rounds ps v vs none ih inv le = refl
retry_lem fuel bound rounds ps v vs (some (sps, [])) ih (seg, read, e, e', plain_seg, l, r1, r2, r3)
      le =
    absurd (omega (arith, ap length e', length-append {0} read (v ∷ vs)))
retry_lem fuel bound zero ps v vs (some (sps, w ∷ sv)) ih
      (seg, read, e, e', plain_seg, l, r1, r2, r3) le =
    absurd (omega (arith, r1))
retry_lem fuel bound (suc rounds) ps v vs (some (sps, w ∷ sv)) ih
      (seg, read, e, e', plain_seg, l, r1, r2, r3) le =
    ih bound rounds sps sv (some (sps, sv))
      (Inv-start bound rounds sps sv (omega (arith, r1)) (omega (arith, r2)) later) later
      (omega (arith, r2)) (grind (arith, r2))
    ∙ any_suffix-split sps sv
  where
    later : all plain sv ≡ true
    later = (and_true (plain w) (all plain sv) r3).1

or_absorb : (a b : Bool) → (b ≡ true → a ≡ true) → (a || b) ≡ a
or_absorb true b h = refl
or_absorb false true h = sym (h refl)
or_absorb false false h = refl

describes-char :
    (p v : ℕ) (ps vs : List ℕ)
    → plain p ≡ true
    → (eqb p b'?' || eqb p v) ≡ true
    → describes (p ∷ ps) (v ∷ vs) ≡ describes ps vs
unfolding describes
describes-char p v ps vs h k = ground arith

describes-other :
    (p v : ℕ) (ps vs : List ℕ)
    → eqb p b'*' ≡ false
    → (eqb p b'?' || eqb p v) ≡ false
    → describes (p ∷ ps) (v ∷ vs) ≡ false
unfolding describes
describes-other p v ps vs h k = ground arith

describes-star :
    (p : ℕ) (ps vs : List ℕ)
    → eqb p b'*' ≡ true
    → describes (p ∷ ps) vs ≡ any_suffix (describes ps) vs
unfolding describes
describes-star p ps vs h = ground arith

plain-char : (p v : ℕ) → plain v ≡ true → (eqb p b'?' || eqb p v) ≡ true → plain p ≡ true
plain-char p v h k = ground arith

alternatives-star_char :
    (bound rounds p : ℕ) (ps vs : List ℕ) (star : Star)
    → eqb p b'*' ≡ true
    → Inv bound rounds (p ∷ ps) vs star
    → alternatives star ≡ true
    → any_suffix (describes ps) vs ≡ true
alternatives-star_char bound rounds p ps vs star h inv =
    let e : p ≡ b'*' = (eqb_iff p b'*').0 h in
    alternatives-star bound rounds ps vs star
      (subst (λ (q : ℕ). Inv bound rounds (q ∷ ps) vs star) e inv)

pub glob_loop_lem : (fuel : ℕ) → Complete fuel
unfolding glob_loop
glob_loop_lem zero bound rounds ps vs star inv h lt enough = elim enough [ ]
glob_loop_lem (suc fuel) bound rounds ps [] star inv h lt enough =
    only_stars-describes ps ∙ ground (arith, alternatives-end bound rounds ps star inv)
glob_loop_lem (suc fuel) bound rounds [] (v ∷ vs) star inv h lt enough =
    retry_lem fuel bound rounds [] v vs star (glob_loop_lem fuel) inv (omega (arith, enough))
    ∙ nothing v vs
  where
    nothing :
        (v : ℕ) (vs : List ℕ) → alternatives star ≡ (describes [] (v ∷ vs) || alternatives star)
    nothing v vs = unfold describes in refl
glob_loop_lem (suc fuel) bound rounds (p ∷ ps) (v ∷ vs) star inv h lt enough =
    let (plain_v, plain_vs) = and_true (plain v) (all plain vs) h in
    elim (Bool-cases (eqb p b'?' || eqb p v)) [
      | inl same ↦
          let plain_p = plain-char p v plain_v same in
          rw (same, glob_loop, describes-char p v ps vs plain_p same)
            (glob_loop_lem fuel bound rounds ps vs star
              (Inv-char bound rounds p v ps vs star plain_p inv) plain_vs (omega (arith, lt))
              (omega (arith, enough)))
      | inr different ↦ elim (Bool-cases (eqb p b'*')) [
        | inl is_star ↦
            rw
              (
                different,
                is_star,
                glob_loop,
                describes-star p ps (v ∷ vs) is_star,
                or_absorb (any_suffix (describes ps) (v ∷ vs)) (alternatives star)
                    (alternatives-star_char bound rounds p ps (v ∷ vs) star is_star inv),
              )
              (glob_loop_lem fuel bound rounds ps (v ∷ vs) (some (ps, v ∷ vs))
                  (Inv-start bound rounds ps (v ∷ vs)
                    (Inv-rounds bound rounds (p ∷ ps) (v ∷ vs) star inv) (omega (arith, lt)) h)
                  h (omega (arith, lt)) (omega (arith, enough))
                ∙ any_suffix-split ps (v ∷ vs))
        | inr other ↦
            rw (different, other, glob_loop, describes-other p v ps vs other different)
              (retry_lem fuel bound rounds (p ∷ ps) v vs star (glob_loop_lem fuel) inv
                (omega (arith, enough)))
      ]
    ]

-- On a value without stars, `glob_matches` decides whether the pattern describes the value.
pub glob_matches_lem :
    (pattern value : String)
    → all plain (codes value) ≡ true
    → glob_matches pattern value ≡ describes (codes pattern) (codes value)
unfolding glob_matches
glob_matches_lem pattern value h =
    let ps = codes pattern in
    let vs = codes value in
    glob_loop_lem (enough_fuel ps vs) (length ps + length vs + 1) (length vs) ps vs none
      (omega arith) h (omega arith) (omega arith)
    ∙ ground arith

one_star :
    (fuel v : ℕ) (vs : List ℕ) → 2 ≤ fuel → glob_loop fuel (b'*' ∷ []) (b'*' ∷ v ∷ vs) none ≡ false
unfolding glob_loop
one_star zero v vs h = absurd (omega arith)
one_star (suc zero) v vs h = absurd (omega arith)
one_star (suc (suc fuel)) v vs h = refl

any_suffix-empty : (vs : List ℕ) → any_suffix (describes []) vs ≡ true
unfolding any_suffix describes
any_suffix-empty [] = refl
any_suffix-empty (v ∷ vs) = any_suffix-empty vs

-- The pattern `*` describes every value, and `glob_matches` refuses it on every value of two
-- characters or more that starts with a star.
pub glob_matches-star :
    (pattern value : String) (v : ℕ) (vs : List ℕ)
    → codes pattern ≡ b'*' ∷ []
    → codes value ≡ b'*' ∷ v ∷ vs
    → (glob_matches pattern value ≡ false) × (describes (codes pattern) (codes value) ≡ true)
unfolding glob_matches describes
glob_matches-star pattern value v vs e e' = (
  rw (e, e') (one_star (enough_fuel (b'*' ∷ []) (b'*' ∷ v ∷ vs)) v vs (omega arith)),
  rw (e, e') (any_suffix-empty (b'*' ∷ v ∷ vs)),
)
