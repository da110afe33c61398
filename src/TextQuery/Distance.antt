-- ===== src/TextQuery/Distance.antt =====
-- `edit_distance` of src/main.rs; `none` would be a panic at an index past the end of a row.
pub mod Edits
pub mod Rows
mod Tests
use qdrant_es_gateway.Prelude.{
  ℕ, zero, suc, ◌+◌, min, String, true, false, List, [], ◌∷◌, ◌++◌, Option, none, some,
  if◌then◌else◌, eqb, length, get_elem?, codes,
}

infixl 5 ◌>>=◌
abbrev pub ◌>>=◌ {ℓ κ} : {A : Type ℓ} {B : Type κ} → Option A → (A → Option B) → Option B
none >>= f = none
some a >>= f = f a

-- `k ..= k + n`
abbrev pub range_inclusive : ℕ → ℕ → List ℕ
range_inclusive k zero = k ∷ []
range_inclusive k (suc n) = k ∷ range_inclusive (k + 1) n

-- What the inner loop pushes for the `j`-th character of the right text.
unfoldable pub next_cell : ℕ → ℕ → ℕ → List ℕ → List ℕ → Option ℕ
next_cell left_char right_char j row next = elim (eqb left_char right_char) [
  | true ↦ get_elem? row j
  | false ↦ do
    diagonal ← get_elem? row j
    above ← get_elem? row (j + 1)
    before ← get_elem? next j
    some (1 + min (min diagonal above) before)
]

-- The inner loop: the rest of the right text, its position, and the two rows.
unfoldable pub next_row : ℕ → List ℕ → List ℕ → ℕ → List ℕ → Option (List ℕ)
next_row left_char row [] j next = some next
next_row left_char row (right_char ∷ right) j next = do
  cell ← next_cell left_char right_char j row next
  next_row left_char row right (j + 1) (next ++ cell ∷ [])

-- The outer loop.
unfoldable pub last_row : List ℕ → ℕ → List ℕ → List ℕ → Option (List ℕ)
last_row [] i right row = some row
last_row (left_char ∷ left) i right row = do
  next ← next_row left_char row right 0 ((i + 1) ∷ [])
  last_row left (i + 1) right next

unfoldable pub edit_distance : String → String → Option ℕ
edit_distance left right = do
  let width = length (codes right)
  row ← last_row (codes left) 0 (codes right) (range_inclusive 0 width)
  get_elem? row width
