-- ===== src/Report/Table.antt =====
-- pkg/report/table.go: tables. `len` counts the bytes of a text, and the width in `%-*s` its runes.
pub mod Widths
pub mod Columns
use go_core_lab.Common.{
  ℕ, zero, suc, ◌+◌, ◌-◌, Bool, true, false, ◌&&◌, Bytes, List, [], ◌∷◌, ◌++◌, length, get_or, set,
  replicate, if◌then◌else◌, ltb, ◌==◌,
}

pub record Table : Type 0 where
  pub headers : List Bytes
  pub rows : List (List Bytes)

abbrev pub new_table : List Bytes → Table
new_table headers = record { headers = headers; rows = [] }

-- `fmt.Sprintf("%v", c)` of the values has been done.
abbrev pub add_row : List Bytes → Table → Table
add_row cols t = record t { rows = t.rows ++ (cols ∷ []) }

-- The loop that counts the columns.
unfoldable pub num_columns : ℕ → List (List Bytes) → ℕ
num_columns n [] = n
num_columns n (row ∷ rows) = num_columns (if ltb n (length row) then length row else n) rows

-- `if len(cell) > colWidths[i] { colWidths[i] = len(cell) }` for the cells from column `i` on.
unfoldable pub widen : List ℕ → ℕ → List Bytes → List ℕ
widen widths i [] = widths
widen widths i (cell ∷ cells) =
    widen (if ltb (get_or widths i 0) (length cell) then set widths i (length cell) else widths)
      (i + 1) cells

unfoldable pub widen_rows : List ℕ → List (List Bytes) → List ℕ
widen_rows widths [] = widths
widen_rows widths (row ∷ rows) = widen_rows (widen widths 0 row) rows

unfoldable pub column_widths : Table → List ℕ
column_widths t =
    widen_rows (widen (replicate (num_columns (length t.headers) t.rows) 0) 0 t.headers) t.rows

-- A line is its cells: what is printed in each column, with its width, `%-*s` or dashes, and two
-- spaces.
pub data Cell : Type 0 where
  padded : ℕ → Bytes → Cell
  dashes : ℕ → Cell

abbrev pub Line : Type 0
Line = List Cell

-- The header cells from column `i` on.
unfoldable pub header_line : List ℕ → ℕ → List Bytes → Line
header_line widths i [] = []
header_line widths i (h ∷ hs) = padded (get_or widths i 0) h ∷ header_line widths (i + 1) hs

-- The loops over the columns from `i` on, with `n` to go.
unfoldable pub separator_line : List ℕ → ℕ → ℕ → Line
separator_line widths i zero = []
separator_line widths i (suc n) = dashes (get_or widths i 0) ∷ separator_line widths (i + 1) n

unfoldable pub row_line : List ℕ → List Bytes → ℕ → ℕ → Line
row_line widths row i zero = []
row_line widths row i (suc n) =
    padded (get_or widths i 0) (get_or row i []) ∷ row_line widths row (i + 1) n

unfoldable pub row_lines : List ℕ → ℕ → List (List Bytes) → List Line
row_lines widths n [] = []
row_lines widths n (row ∷ rows) = row_line widths row 0 n ∷ row_lines widths n rows

unfoldable pub render : Table → List Line
render t =
    let n = num_columns (length t.headers) t.rows in
    let widths = column_widths t in
    if length t.headers == 0 && length t.rows == 0
    then []
    else (if ltb 0 (length t.headers)
        then header_line widths 0 t.headers ∷ separator_line widths 0 n ∷ []
        else [])
      ++ row_lines widths n t.rows
