-- ===== src/TextQuery/Distance/Rows.antt =====
-- The rows hold the least numbers of edits between prefixes, read backwards.
use qdrant_es_gateway.Prelude.{
  ℕ, suc, ◌≤◌, ◌≡◌, refl, ap, String, List, [], ◌∷◌, ◌++◌, some, length, get_elem?, length-append,
  codes, arith,
}
use qdrant_es_gateway.TextQuery.Distance.{
  range_inclusive, next_cell, next_row, last_row, edit_distance,
}
use qdrant_es_gateway.TextQuery.Distance.Edits.{
  Edits, done, least, least-le, least-Edits, rev_onto, rev_onto-rev_onto, Edits-rev_onto,
}
use native.Mathlib.Numerals.{add-one}
use native.Mathlib.Nat.{add-zero}
use mathlib.Core.List.{append_assoc, append-nil}

-- The least numbers for one left text and each right one from `qs` on, one character of the
-- list more at a time.
abbrev levels : List ℕ → List ℕ → List ℕ → List ℕ
levels rs qs [] = least rs qs ∷ []
levels rs qs (y ∷ ys) = least rs qs ∷ levels rs (y ∷ qs) ys

get_elem?-middle :
    (xs : List ℕ) (y : ℕ) (ys : List ℕ) → get_elem? (xs ++ y ∷ ys) (length xs) ≡ some y
get_elem?-middle [] y ys = refl
get_elem?-middle (x ∷ xs) y ys = get_elem?-middle xs y ys

get_elem?-second :
    (xs : List ℕ) (y z : ℕ) (zs : List ℕ) → get_elem? (xs ++ y ∷ z ∷ zs) (suc (length xs)) ≡ some z
get_elem?-second [] y z zs = refl
get_elem?-second (x ∷ xs) y z zs = get_elem?-second xs y z zs

range_inclusive-eq-levels :
    (qs ys : List ℕ) → range_inclusive (length qs) (length ys) ≡ levels [] qs ys
unfolding least
range_inclusive-eq-levels qs [] = refl
range_inclusive-eq-levels qs (y ∷ ys) =
    rw add-one (ap (λ (t : List ℕ). length qs ∷ t) (range_inclusive-eq-levels (y ∷ qs) ys))

get_elem?-levels :
    (rs qs ys : List ℕ) → get_elem? (levels rs qs ys) (length ys) ≡ some (least rs (rev_onto ys qs))
get_elem?-levels rs qs [] = refl
get_elem?-levels rs qs (y ∷ ys) = get_elem?-levels rs (y ∷ qs) ys

levels_head : (rs qs ys : List ℕ) → (rest : List ℕ) × (levels rs qs ys ≡ least rs qs ∷ rest)
levels_head rs qs [] = ([], refl)
levels_head rs qs (y ∷ ys) = (levels rs (y ∷ qs) ys, refl)

next_cell_lem :
    (x y : ℕ) (rs qs row next : List ℕ) (j : ℕ)
    → get_elem? row j ≡ some (least rs qs)
    → get_elem? row (suc j) ≡ some (least rs (y ∷ qs))
    → get_elem? next j ≡ some (least (x ∷ rs) qs)
    → next_cell x y j row next ≡ some (least (x ∷ rs) (y ∷ qs))
unfolding next_cell least
next_cell_lem x y rs qs row next j d a b = ground (arith, add-one j)

-- Where the new row agrees with the levels so far, the loop completes it.
next_row_lem :
    (x : ℕ) (rs qs ys above before : List ℕ)
    → length above ≡ length before
    → next_row x (above ++ levels rs qs ys) ys (length above) (before ++ least (x ∷ rs) qs ∷ [])
      ≡ some (before ++ levels (x ∷ rs) qs ys)
unfolding next_row
next_row_lem x rs qs [] above before same = refl
next_row_lem x rs qs (y ∷ ys) above before same =
    rw (cell, next_row)
      (rw
        (
          append_assoc above (least rs qs ∷ []) (levels rs (y ∷ qs) ys),
          append_assoc before (least (x ∷ rs) qs ∷ []) (levels (x ∷ rs) (y ∷ qs) ys),
          length-append above (least rs qs ∷ []),
        )
        at
        (next_row_lem x rs (y ∷ qs) ys (above ++ least rs qs ∷ [])
          (before ++ least (x ∷ rs) qs ∷ []) longer))
  where
    longer : length (above ++ least rs qs ∷ []) ≡ length (before ++ least (x ∷ rs) qs ∷ [])
    longer = rw (length-append above, length-append before) (omega arith)

    second :
        get_elem? (above ++ levels rs qs (y ∷ ys)) (suc (length above)) ≡ some (least rs (y ∷ qs))
    second =
        let (rest, e) = levels_head rs (y ∷ qs) ys in
        rw e (get_elem?-second above (least rs qs) (least rs (y ∷ qs)) rest)

    cell :
        next_cell x y
          (length above)
          (above ++ levels rs qs (y ∷ ys))
          (before ++ least (x ∷ rs) qs ∷ [])
        ≡ some (least (x ∷ rs) (y ∷ qs))
    cell =
        next_cell_lem x y rs qs _ _ (length above) (get_elem?-middle above _ _) second
          (rw same (get_elem?-middle before _ _))

last_row_lem :
    (left rs right : List ℕ)
    → last_row left (length rs) right (levels rs [] right)
      ≡ some (levels (rev_onto left rs) [] right)
unfolding last_row least
last_row_lem [] rs right = refl
last_row_lem (x ∷ left) rs right = rw (add-one, first, last_row) (last_row_lem left (x ∷ rs) right)
  where
    first :
        next_row x (levels rs [] right) right 0 (suc (length rs) ∷ [])
        ≡ some (levels (x ∷ rs) [] right)
    first = next_row_lem x rs [] right [] [] refl

pub edit_distance-eq-least :
    (left right : String)
    → edit_distance left right ≡ some (least (rev_onto (codes left) []) (rev_onto (codes right) []))
unfolding edit_distance
edit_distance-eq-least left right =
    rw (range_inclusive-eq-levels [] (codes right), last_row_lem (codes left) [] (codes right))
      (get_elem?-levels (rev_onto (codes left) []) [] (codes right))

Edits-rev_onto_twice :
    (xs ys : List ℕ) {n : ℕ} → Edits (rev_onto xs []) (rev_onto ys []) n → Edits xs ys n
Edits-rev_onto_twice xs ys {n} s =
    rw (rev_onto-rev_onto xs [] [], rev_onto-rev_onto ys [] [], append-nil, append-nil, add-zero) at
      (Edits-rev_onto s done)

-- The distance of two texts is computed with no index out of bounds, and it is the least number
-- of insertions, deletions and replacements of a character that turn one into the other.
pub edit_distance-IsLeast :
    (left right : String)
    → (d : ℕ) × (edit_distance left right ≡ some d)
      × Edits (codes left) (codes right) d
      × ((n : ℕ) → Edits (codes left) (codes right) n → d ≤ n)
edit_distance-IsLeast left right = (
  least (rev_onto (codes left) []) (rev_onto (codes right) []),
  edit_distance-eq-least left right,
  Edits-rev_onto_twice (codes left) (codes right) (least-Edits _ _),
  λ n s. rw (add-zero n) at (least-le (Edits-rev_onto s done)),
)
