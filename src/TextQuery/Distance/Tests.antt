-- ===== src/TextQuery/Distance/Tests.antt =====
-- The distance of concrete texts.
use qdrant_es_gateway.Prelude.{ℕ, ◌≤◌, ◌≡◌, refl, some, codes}
use qdrant_es_gateway.TextQuery.Distance.{edit_distance, last_row, next_row, next_cell}
use qdrant_es_gateway.TextQuery.Distance.Edits.{Edits}
use qdrant_es_gateway.TextQuery.Distance.Rows.{edit_distance-IsLeast}

kitten : edit_distance "kitten" "sitting" ≡ some 3
unfolding edit_distance last_row next_row next_cell
kitten = refl

empty : edit_distance "abc" "" ≡ some 3
unfolding edit_distance last_row next_row next_cell
empty = refl

edit_distance-IsLeast_example :
    (d : ℕ) × (edit_distance "kitten" "sitting" ≡ some d)
    × Edits (codes "kitten") (codes "sitting") d
    × ((n : ℕ) → Edits (codes "kitten") (codes "sitting") n → d ≤ n)
edit_distance-IsLeast_example = edit_distance-IsLeast "kitten" "sitting"
