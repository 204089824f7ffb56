-- ===== src/Report/HexDump.antt =====
-- pkg/report/hexdump.go: the hex dump. An `int` is its bit pattern of 64 bits, negative from 2 ^ 63 on.
-- The text that is built is a list of pieces.
pub mod Pieces
pub mod Rows
use Prim.Native.String.{String}
use go_core_lab.Common.{
  negative, ℕ, zero, suc, ◌+◌, ◌-◌, ◌*◌, ◌%◌, ◌^◌, Bool, true, false, not, ◌&&◌, ◌||◌, Bytes, byte,
  window, List, [], ◌∷◌, ◌++◌, length, drop, take, Result, ok, err, panic, ◌>>=◌, slice,
  if◌then◌else◌, ltb, leb, ◌==◌,
}

pub data Color : Type 0 where
  color_reset color_dim color_ascii color_control color_high color_offset : Color

-- `%08x`, `%02x ` or `%02X ` of a byte, a byte itself, and literal text.
pub data Piece : Type 0 where
  color : Color → Piece
  offset_digits : ℕ → Piece
  hex_digits : Bool → ℕ → Piece
  char : ℕ → Piece
  literal : String → Piece

pub record HexDumpOptions : Type 0 where
  pub offset : ℕ
  pub length : ℕ
  pub colorize : Bool
  pub upper_hex : Bool

abbrev pub default_hex_dump_options : HexDumpOptions
default_hex_dump_options = record { offset = 0; length = 0; colorize = true; upper_hex = false }

unfoldable pub color_for_byte : ℕ → Color
color_for_byte b =
    if b == 0
    then color_dim
    else if leb 0x20 b && leb b 0x7e
    then color_ascii
    else if ltb b 0x20
    then color_control
    else color_high

-- One piece, between its color and the reset if the dump is colored.
abbrev pub painted : HexDumpOptions → Color → Piece → List Piece
painted opts c p = if opts.colorize then color c ∷ p ∷ color color_reset ∷ [] else p ∷ []

-- The loop over the 16 columns from `j` on, with `n` to go.
unfoldable pub hex_columns : HexDumpOptions → Bytes → ℕ → ℕ → List Piece
hex_columns opts chunk j zero = []
hex_columns opts chunk j (suc n) =
    (if j == 8 then literal " " ∷ [] else [])
    ++ ((if ltb j (length chunk)
          then painted opts (color_for_byte (byte chunk j))
              (hex_digits opts.upper_hex (byte chunk j))
          else literal "   " ∷ [])
        ++ hex_columns opts chunk (j + 1) n)

unfoldable pub ascii_column : HexDumpOptions → Bytes → List Piece
ascii_column opts [] = []
ascii_column opts (b ∷ chunk) =
    (if leb 32 b && leb b 126
      then painted opts color_ascii (char b)
      else painted opts color_dim (literal "."))
    ++ ascii_column opts chunk

unfoldable pub hex_row : HexDumpOptions → ℕ → Bytes → List Piece
hex_row opts current_offset chunk =
    painted opts color_offset (offset_digits current_offset)
    ++ (literal "  " ∷ [])
    ++ hex_columns opts chunk 0 16
    ++ (literal " |" ∷ [])
    ++ ascii_column opts chunk
    ++ (literal "|\n" ∷ [])

-- `chunk := slice[i:chunkEnd]`, where `i` is below the length.
abbrev pub chunk_at : Bytes → ℕ → Bytes
chunk_at s i =
    let chunk_end = if ltb (length s) (i + 16) then length s else i + 16 in
    window s i (chunk_end - i)

-- The loop over the rows from `i` on. It has as much fuel as the slice has bytes: a row takes one.
unfoldable pub hex_rows : HexDumpOptions → ℕ → Bytes → ℕ → ℕ → List Piece
hex_rows opts start s i zero = []
hex_rows opts start s i (suc fuel) =
    let rest = hex_rows opts start s (i + 16) fuel in
    if ltb i (length s) then hex_row opts (start + i) (chunk_at s i) ++ rest else []

pub data Dump : Type 0 where
  empty_buffer : Dump
  beyond : ℕ → ℕ → Dump
  rows : List Piece → Dump

abbrev pub start_of : HexDumpOptions → ℕ
start_of opts = if negative opts.offset then 0 else opts.offset

-- `start+opts.Length`, which wraps around.
abbrev pub end_sum : HexDumpOptions → ℕ
end_sum opts = (start_of opts + opts.length) % 2 ^ 64

-- Where the dump ends. A negative number is the larger pattern, so that it cannot be sliced to.
unfoldable pub end_of : HexDumpOptions → ℕ → ℕ
end_of opts size =
    if ltb 0 opts.length
      && not (negative opts.length)
      && (negative (end_sum opts) || ltb (end_sum opts) size)
    then end_sum opts
    else size

unfoldable pub hex_dump : Bytes → HexDumpOptions → Result (Unit {0}) Dump
hex_dump b opts =
    if length b == 0
    then ok empty_buffer
    else if leb (length b) (start_of opts)
    then ok (beyond opts.offset (length b))
    else (slice b (start_of opts) (end_of opts (length b)) >>= λ s.
        ok (rows (hex_rows opts (start_of opts) s 0 (length s))))
