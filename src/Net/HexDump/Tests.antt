-- ===== src/Net/HexDump/Tests.antt =====
-- internal/net/dissect.go, FormatHexDump: a dump of three bytes.
use go_core_lab.Common.{◌+◌, ◌/◌, ◌≡◌, refl, Bytes, [], ◌∷◌, length, All, arith}
use go_core_lab.Net.HexDump.{ascii_part, ascii_char, format_hex_dump}
use go_core_lab.Net.HexDump.Lines.{undumped, sidebar, offsets, format_hex_dump-undumped}
use go_core_lab.Report.HexDump.Pieces.{every_16}

abbrev three : Bytes
three = 0x41 ∷ 0 ∷ 0xff ∷ []

three_ascii : ascii_part three ≡ 0x41 ∷ 0x2e ∷ 0x2e ∷ []
unfolding ascii_part ascii_char
three_ascii = refl

format_hex_dump-undumped_example :
    let lines = format_hex_dump three in
    (undumped lines ≡ three)
    × (sidebar lines ≡ ascii_part three)
    × (offsets lines ≡ every_16 0 ((length three + 15) / 16))
    × All (λ l. length l.hex_part ≡ 49) lines
format_hex_dump-undumped_example =
    format_hex_dump-undumped three (omega arith, (omega arith, (omega arith, tt)))
