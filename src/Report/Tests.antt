-- ===== src/Report/Tests.antt =====
-- pkg/report: a dump of three bytes and a table of two rows.
use go_core_lab.Common.{
  ℕ, ◌-◌, ◌^◌, ◌+◌, ◌/◌, ◌≤◌, ◌<◌, ◌≡◌, ◌↔◌, refl, false, Bytes, [], ◌∷◌, List, ok, panic, arith,
  slice, length, All, get_or,
}
use go_core_lab.Report.HexDump.{HexDumpOptions, Piece, rows, hex_dump, hex_rows, end_of}
use go_core_lab.Report.HexDump.Pieces.{digits, row_offsets, every_16}
use go_core_lab.Report.HexDump.Rows.{wanted, hex_dump-shows, hex_dump-panics_iff}
use go_core_lab.Report.Table.{Table, column_widths, row_line, separator_line}
use go_core_lab.Report.Table.Widths.{FitsRow}
use go_core_lab.Report.Table.Columns.{column_widths-least, line_width, rows-as_wide}

abbrev three : Bytes
three = 0x41 ∷ 0 ∷ 0xff ∷ []

abbrev plain : HexDumpOptions
plain = record { offset = 1; length = 1; colorize = false; upper_hex = false }

abbrev plain_rows : List Piece
plain_rows = hex_rows plain 1 (0 ∷ []) 0 1

plain_dump : hex_dump three plain ≡ ok (rows plain_rows)
unfolding hex_dump end_of slice
plain_dump = refl

hex_dump-shows_example :
    (digits plain_rows ≡ wanted plain three)
    × (row_offsets plain_rows ≡ every_16 1 ((length (wanted plain three) + 15) / 16))
hex_dump-shows_example = hex_dump-shows three plain plain_rows (omega arith) plain_dump

abbrev too_long : HexDumpOptions
too_long = record plain { length = 2 ^ 63 - 1 }

hex_dump-panics_iff_example :
    (hex_dump three too_long ≡ panic)
    ↔ ((1 < 3) × (too_long.length < 2 ^ 63) × (2 ^ 63 ≤ 1 + too_long.length))
hex_dump-panics_iff_example =
    hex_dump-panics_iff three too_long (omega arith) (omega arith) (omega arith)

abbrev two_rows : Table
two_rows = record {
  headers = (0x61 ∷ []) ∷ (0x62 ∷ 0x63 ∷ []) ∷ [];
  rows = ((0x64 ∷ 0x65 ∷ 0x66 ∷ []) ∷ []) ∷ ([] ∷ (0x67 ∷ []) ∷ []) ∷ [];
}

column_widths-least_example :
    FitsRow (column_widths two_rows) two_rows.headers
    × All (FitsRow (column_widths two_rows)) two_rows.rows
    × ((us : List ℕ)
        → FitsRow us two_rows.headers
        → All (FitsRow us) two_rows.rows
        → (j : ℕ) → get_or (column_widths two_rows) j 0 ≤ get_or us j 0)
column_widths-least_example = column_widths-least two_rows

bytes_count : (c : Bytes) → length c ≤ length c
bytes_count c = omega arith

rows-as_wide_example :
    All
      (λ row.
        line_width length (row_line (column_widths two_rows) row 0 2)
        ≡ line_width length (separator_line (column_widths two_rows) 0 2))
      two_rows.rows
rows-as_wide_example = rows-as_wide length bytes_count two_rows 2
