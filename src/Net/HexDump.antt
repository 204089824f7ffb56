-- ===== src/Net/HexDump.antt =====
-- internal/net/dissect.go, FormatHexDump. A line of the text is the record of what Sprintf is given
-- for it: the offset, the hex part, which is written to a width of 49, and the ASCII part.
pub mod Undump
pub mod Lines
mod Tests
use go_core_lab.Common.{
  ℕ, zero, suc, ◌+◌, ◌/◌, ◌%◌, Bytes, byte, List, [], ◌∷◌, ◌++◌, length, drop, take, ◌&&◌,
  if◌then◌else◌, ltb, leb, ◌==◌,
}

abbrev pub space : ℕ
space = 0x20

-- A digit of the verb %x.
unfoldable pub hex_digit : ℕ → ℕ
hex_digit d = if ltb d 10 then 48 + d else 87 + d

abbrev pub hex_part_gap : ℕ → Bytes
hex_part_gap j = if j == 7 then space ∷ [] else []

-- The loop over `j` with `n` columns left.
unfoldable pub hex_part_from : Bytes → ℕ → ℕ → Bytes
hex_part_from chunk j zero = []
hex_part_from chunk j (suc n) =
    (if ltb j (length chunk)
      then hex_digit (byte chunk j / 16) ∷ hex_digit (byte chunk j % 16) ∷ space ∷ []
      else space ∷ space ∷ space ∷ [])
    ++ (hex_part_gap j ++ hex_part_from chunk (j + 1) n)

unfoldable pub ascii_char : ℕ → ℕ
ascii_char b = if leb 32 b && leb b 126 then b else 0x2e

unfoldable pub ascii_part : Bytes → Bytes
ascii_part [] = []
ascii_part (b ∷ chunk) = ascii_char b ∷ ascii_part chunk

pub record DumpLine : Type 0 where
  pub offset : ℕ
  pub hex_part : Bytes
  pub ascii : Bytes

-- `chunk := bytes[i:]`, cut to 16 bytes, where `i` is below the length.
abbrev pub dump_chunk : Bytes → ℕ → Bytes
dump_chunk bytes i =
    let chunk = drop i bytes in if ltb 16 (length chunk) then take 16 chunk else chunk

abbrev pub dump_line : Bytes → ℕ → DumpLine
dump_line chunk i = record {
  offset = i;
  hex_part = hex_part_from chunk 0 16;
  ascii = ascii_part chunk;
}

unfoldable pub dump_lines : Bytes → ℕ → ℕ → List DumpLine
dump_lines bytes i zero = []
dump_lines bytes i (suc fuel) =
    let rest = dump_lines bytes (i + 16) fuel in
    if ltb i (length bytes) then dump_line (dump_chunk bytes i) i ∷ rest else []

-- A line is at least one byte, so that the bytes are enough fuel.
unfoldable pub format_hex_dump : Bytes → List DumpLine
format_hex_dump bytes = if length bytes == 0 then [] else dump_lines bytes 0 (length bytes)
