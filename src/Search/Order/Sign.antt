-- ===== src/Search/Order/Sign.antt =====
-- Signs and magnitudes in order, the two zeros equal, and orderings in sequence.
use qdrant_es_gateway.Prelude.{
  ℕ, zero, suc, min, ◌+◌, ◌*◌, ◌≤◌, ◌<◌, ◌≡◌, ◌≢◌, refl, Bool, true, false, if◌then◌else◌, eqb,
  arith,
}
use Prim.Native.Nat.{Ordering, compare}

abbrev pub Signed : Type 0
Signed = Bool × ℕ

abbrev pub apart : Ordering → ℕ → ℕ → Ordering
apart order m n = if eqb (m + n) 0 then Ordering.eq else order

unfoldable pub cmp : Signed → Signed → Ordering
cmp (false, m) (false, n) = compare m n
cmp (true, m) (true, n) = compare n m
cmp (true, m) (false, n) = apart Ordering.lt m n
cmp (false, m) (true, n) = apart Ordering.gt m n

-- `Ordering::then_with` and `Ordering::reverse`.
abbrev pub then_with : Ordering → Ordering → Ordering
then_with Ordering.eq second = second
then_with first second = first

abbrev pub reverse : Ordering → Ordering
reverse Ordering.lt = Ordering.gt
reverse Ordering.eq = Ordering.eq
reverse Ordering.gt = Ordering.lt

pub cmp-reverse : (a b : Signed) → cmp b a ≡ reverse (cmp a b)
unfolding cmp
cmp-reverse (true, m) (true, n) = ground arith
cmp-reverse (true, m) (false, n) = ground arith
cmp-reverse (false, m) (true, n) = ground arith
cmp-reverse (false, m) (false, n) = ground arith

pub cmp_trans :
    (a b c : Signed) → cmp a b ≢ Ordering.gt → cmp b c ≢ Ordering.gt → cmp a c ≢ Ordering.gt
unfolding cmp
cmp_trans (true, l) (true, m) (true, n) h k = ground arith
cmp_trans (true, l) (true, m) (false, n) h k = ground arith
cmp_trans (true, l) (false, m) (true, n) h k = ground arith
cmp_trans (true, l) (false, m) (false, n) h k = ground arith
cmp_trans (false, l) (true, m) (true, n) h k = ground arith
cmp_trans (false, l) (true, m) (false, n) h k = ground arith
cmp_trans (false, l) (false, m) (true, n) h k = ground arith
cmp_trans (false, l) (false, m) (false, n) h k = ground arith

pub reverse-reverse : (o : Ordering) → reverse (reverse o) ≡ o
reverse-reverse Ordering.lt = refl
reverse-reverse Ordering.eq = refl
reverse-reverse Ordering.gt = refl

lt-scaled : (c m n : ℕ) → 0 < c → m < n → m * c < n * c
lt-scaled c m n pos h = grind arith

compare-lt : (m n : ℕ) → m < n → compare m n ≡ Ordering.lt
compare-lt m n h = ground arith

compare-gt : (m n : ℕ) → n < m → compare m n ≡ Ordering.gt
compare-gt m n h = ground arith

compare-eq : (n : ℕ) → compare n n ≡ Ordering.eq
compare-eq n = ground arith

data Compared (m n : ℕ) : Type 0 where
  below : m < n → Compared m n
  same : m ≡ n → Compared m n
  above : n < m → Compared m n

compared : (m n : ℕ) → Compared m n
compared zero zero = same refl
compared zero (suc n) = below (omega arith)
compared (suc m) zero = above (omega arith)
compared (suc m) (suc n) = elim (compared m n) [
  | below h ↦ below (omega arith)
  | same h ↦ same (omega arith)
  | above h ↦ above (omega arith)
]

-- A bound above the left side may cut the right side.
pub compare-min : (a q bound : ℕ) → a < bound → compare a (min q bound) ≡ compare a q
compare-min a q bound h = ground arith

-- Scaling by a positive factor keeps the order.
pub compare-scaled : (c m n : ℕ) → 0 < c → compare (m * c) (n * c) ≡ compare m n
compare-scaled c m n pos = elim (compared m n) [
  | below h ↦ rw (compare-lt m n h) (compare-lt (m * c) (n * c) (lt-scaled c m n pos h))
  | same h ↦ rw (h, compare-eq n) (compare-eq (n * c))
  | above h ↦ rw (compare-gt m n h) (compare-gt (m * c) (n * c) (lt-scaled c n m pos h))
]

scaled_zero : (c n : ℕ) → n ≡ 0 → n * c ≡ 0
scaled_zero c n h = grind arith

scaled_pos : (c n : ℕ) → 0 < c → 0 < n → 0 < n * c
scaled_pos c n pos h = grind arith

pub cmp-scaled :
    (c : ℕ) (s : Bool) (m : ℕ) (t : Bool) (n : ℕ)
    → 0 < c
    → cmp (s, m * c) (t, n * c) ≡ cmp (s, m) (t, n)
unfolding cmp
cmp-scaled c false m false n pos = compare-scaled c m n pos
cmp-scaled c true m true n pos = compare-scaled c n m pos
cmp-scaled c false m true n pos =
    ground (arith, scaled_zero c m, scaled_zero c n, scaled_pos c m, scaled_pos c n)
cmp-scaled c true m false n pos =
    ground (arith, scaled_zero c m, scaled_zero c n, scaled_pos c m, scaled_pos c n)

-- Of opposite signs: the sign decides, unless all parts are zero.
pub apart-quotient :
    (c n q r bound : ℕ)
    → 0 < c
    → 0 < bound
    → (apart Ordering.lt (n * c) (q * c + r)
        ≡ then_with (apart Ordering.lt n (min q bound)) (compare 0 r))
      × (apart Ordering.gt (n * c) (q * c + r)
          ≡ then_with (apart Ordering.gt n (min q bound)) (apart Ordering.gt 0 r))
apart-quotient c n q r bound pos some =
    ground (arith, scaled_zero c n, scaled_zero c q, scaled_pos c n, scaled_pos c q)

next-scaled : (c m n : ℕ) → m < n → m * c + c ≤ n * c
next-scaled c m n h = grind arith

-- Against a multiple, the quotient decides, and then the remainder.
pub compare-quotient :
    (c a q r : ℕ) → r < c → compare (a * c) (q * c + r) ≡ then_with (compare a q) (compare 0 r)
compare-quotient c a q r small = elim (compared a q) [
  | below h ↦
      rw (compare-lt a q h) (compare-lt (a * c) (q * c + r) (omega (arith, next-scaled c a q h)))
  | same h ↦ rw (h, compare-eq q) (ground arith)
  | above h ↦
      rw (compare-gt a q h) (compare-gt (a * c) (q * c + r) (omega (arith, next-scaled c q a h)))
]
