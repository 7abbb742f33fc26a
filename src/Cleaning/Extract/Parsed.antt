-- ===== src/Cleaning/Extract/Parsed.antt =====
-- The rows of a file that the reference parses, and how it takes a row.
use quer_project_q.Common.{String, ◌≡◌, none, some, List, [], ◌∷◌, arith}
use quer_project_q.Cleaning.Floats.{Floats}
use quer_project_q.Cleaning.Extract.{Row, parse_row}

-- The rows that the reference does not skip.
unfoldable pub parsed_rows : (F : Floats) → List (List String) → List (Row (Floats.Float F))
parsed_rows F [] = []
parsed_rows F (row ∷ rows) = elim (parse_row F row) [
  | none ↦ parsed_rows F rows
  | some r ↦ r ∷ parsed_rows F rows
]

pub parsed_rows-skip :
    (F : Floats) (row : List String) (rows : List (List String))
    → parse_row F row ≡ none
    → parsed_rows F (row ∷ rows) ≡ parsed_rows F rows
unfolding parsed_rows
parsed_rows-skip F row rows e = ground (arith, e)

pub parsed_rows-row :
    (F : Floats) (row : List String) (rows : List (List String)) (r : Row (Floats.Float F))
    → parse_row F row ≡ some r
    → parsed_rows F (row ∷ rows) ≡ r ∷ parsed_rows F rows
unfolding parsed_rows
parsed_rows-row F row rows r e = ground (arith, e)
