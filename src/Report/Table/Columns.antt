-- ===== src/Report/Table/Columns.antt =====
-- pkg/report/table.go, Table.Render: the widths of the columns, and how wide the lines are.
use go_core_lab.Common.{
  ℕ, zero, suc, ◌+◌, ◌≤◌, ◌≡◌, refl, Bytes, List, [], ◌∷◌, length, get_or, All, if◌then◌else◌, ltb,
  arith,
}
use go_core_lab.Report.Table.{
  Table, padded, dashes, Line, num_columns, widen, widen_rows, column_widths, row_line,
  separator_line,
}
use go_core_lab.Report.Table.Widths.{
  FitsRow, Below, zero_add, length-widen, widen-Below, widen_least, no_widths, get_or-no_widths,
  length-no_widths, Short, widen_fits_first,
}

-- What `widen_rows` makes of some widths: they grow, by no more than the rows need.
record Widened (ws : List ℕ) (rows : List (List Bytes)) : Type 0 where
  below : Below ws (widen_rows ws rows)
  fit : All (FitsRow (widen_rows ws rows)) rows
  least : (us : List ℕ) → Below ws us → All (FitsRow us) rows → Below (widen_rows ws rows) us

rows-Widened : (rows : List (List Bytes)) (ws : List ℕ) → Short (length ws) rows → Widened ws rows
unfolding widen_rows
rows-Widened [] ws short = record {
  below = λ j. omega arith;
  fit = tt;
  least = λ us below fits. below;
}
rows-Widened (row ∷ rows) ws (here, short) =
    let grown = length-widen ws 0 row (omega (arith, here)) in
    let w = rows-Widened rows (widen ws 0 row) (rw (← grown) at short) in
    record {
      below = λ j. omega (arith, widen-Below ws 0 row (omega (arith, here)) j, w.below j);
      fit = (λ j. omega (arith, widen_fits_first ws row here j, w.below j), w.fit);
      least = λ us below (fits, later).
          w.least us
            (widen_least ws us 0 row (omega (arith, here)) below (λ k. rw (zero_add k) (fits k)))
            later;
    }

num_columns-Short :
    (n : ℕ) (rows : List (List Bytes)) → (n ≤ num_columns n rows) × Short (num_columns n rows) rows
unfolding num_columns
num_columns-Short n [] = (omega arith, tt)
num_columns-Short n (row ∷ rows) =
    let (more, short) = num_columns-Short (if ltb n (length row) then length row else n) rows in
    (ground arith, (ground arith, short))

-- The widths that Render works out are wide enough for every cell of the headers and of the rows, in
-- bytes, and no wider than any widths that are.
pub column_widths-least :
    (t : Table)
    → FitsRow (column_widths t) t.headers
      × All (FitsRow (column_widths t)) t.rows
      × ((us : List ℕ)
          → FitsRow us t.headers
          → All (FitsRow us) t.rows
          → (j : ℕ) → get_or (column_widths t) j 0 ≤ get_or us j 0)
unfolding column_widths
column_widths-least t =
    let n = num_columns (length t.headers) t.rows in
    let zeros = no_widths n in
    let size = length-no_widths n in
    let (wide, short) = num_columns-Short (length t.headers) t.rows in
    let room : length t.headers ≤ length zeros = omega (arith, size, wide) in
    let grown = length-widen zeros 0 t.headers (omega (arith, room)) in
    let w = rows-Widened t.rows (widen zeros 0 t.headers) (rw (← size, ← grown) at short) in
    (
      λ j. omega (arith, widen_fits_first zeros t.headers room j, w.below j),
      w.fit,
      λ us fits later.
          w.least us
            (widen_least zeros us 0 t.headers (omega (arith, room))
              (λ j. omega (arith, get_or-no_widths n j)) (λ k. rw (zero_add k) (fits k)))
            later,
    )

-- What fmt prints a cell in: its runes, or the width if there are fewer, and then two spaces.
-- `rune_count` is `utf8.RuneCountInString`.
module _ (rune_count : Bytes → ℕ) where
  abbrev pub line_width : Line → ℕ
  line_width [] = 0
  line_width (padded w c ∷ cells) =
      (if ltb w (rune_count c) then rune_count c else w) + 2 + line_width cells
  line_width (dashes w ∷ cells) = w + 2 + line_width cells

  module _ (few : (c : Bytes) → rune_count c ≤ length c) where
    row_line-as_wide :
        (ws : List ℕ) (row : List Bytes)
        → FitsRow ws row
        → (i n : ℕ) → line_width (row_line ws row i n) ≡ line_width (separator_line ws i n)
    unfolding row_line separator_line
    row_line-as_wide ws row fits i zero = refl
    row_line-as_wide ws row fits i (suc n) =
        ground (arith, row_line-as_wide ws row fits (i + 1) n, fits i, few (get_or row i []))

    -- If no text has more runes than bytes, each row that Render prints is as wide in runes as the
    -- line of dashes, so that the columns stand below each other.
    pub rows-as_wide :
        (t : Table) (n : ℕ)
        → All
            (λ row.
              line_width (row_line (column_widths t) row 0 n)
              ≡ line_width (separator_line (column_widths t) 0 n))
            t.rows
    rows-as_wide t n = all_wide t.rows ((column_widths-least t).1)
      where
        all_wide :
            (rows : List (List Bytes))
            → All (FitsRow (column_widths t)) rows
            → All
                (λ row.
                  line_width (row_line (column_widths t) row 0 n)
                  ≡ line_width (separator_line (column_widths t) 0 n))
                rows
        all_wide [] fits = tt
        all_wide (row ∷ rows) (here, later) =
            (row_line-as_wide (column_widths t) row here 0 n, all_wide rows later)
