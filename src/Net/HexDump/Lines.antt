-- ===== src/Net/HexDump/Lines.antt =====
-- internal/net/dissect.go, FormatHexDump: what the lines show.
use go_core_lab.Common.{
  ℕ, zero, suc, ◌+◌, ◌-◌, ◌/◌, ◌≤◌, ◌<◌, ◌≡◌, refl, sym, ap, ◌∙◌, Bool-cases, inl, inr, Bytes, List,
  [], ◌∷◌, ◌++◌, length, length-append, drop, take, drop_past, take_past, drop-drop, length-take,
  take-append-drop, All, ltb, ◌==◌, ltb→lt, arith,
}
use go_core_lab.Net.HexDump.{
  hex_part_gap, hex_part_from, ascii_part, ascii_char, DumpLine, dump_chunk, dump_line, dump_lines,
  format_hex_dump,
}
use go_core_lab.Net.HexDump.Undump.{undump, undump-hex_part_from}
use go_core_lab.Report.HexDump.Pieces.{every_16}

-- The hex parts of the lines read back, the ASCII parts, and the offsets.
abbrev pub undumped : List DumpLine → Bytes
undumped [] = []
undumped (l ∷ lines) = undump l.hex_part ++ undumped lines

abbrev pub sidebar : List DumpLine → Bytes
sidebar [] = []
sidebar (l ∷ lines) = l.ascii ++ sidebar lines

abbrev pub offsets : List DumpLine → List ℕ
offsets [] = []
offsets (l ∷ lines) = l.offset ∷ offsets lines

-- How wide the columns from `j` on are, `n` of them.
abbrev width : ℕ → ℕ → ℕ
width j zero = 0
width j (suc n) = suc (suc (suc (length (hex_part_gap j) + width (j + 1) n)))

length-hex_part_from : (chunk : Bytes) (j n : ℕ) → length (hex_part_from chunk j n) ≡ width j n
unfolding hex_part_from
length-hex_part_from chunk j zero = refl
length-hex_part_from chunk j (suc n) =
    let rest =
      length-append (hex_part_gap j) (hex_part_from chunk (j + 1) n)
      ∙ ap (λ k. length (hex_part_gap j) + k) (length-hex_part_from chunk (j + 1) n) in
    elim (Bool-cases (ltb j (length chunk))) [
      | inl e ↦ rw e (ap (λ k. suc (suc (suc k))) rest)
      | inr e ↦ rw e (ap (λ k. suc (suc (suc k))) rest)
    ]

hex_part_49 : (chunk : Bytes) → length (hex_part_from chunk 0 16) ≡ 49
hex_part_49 chunk = length-hex_part_from chunk 0 16

ascii_part-append : (xs ys : Bytes) → ascii_part (xs ++ ys) ≡ ascii_part xs ++ ascii_part ys
unfolding ascii_part
ascii_part-append [] ys = refl
ascii_part-append (x ∷ xs) ys = ap (λ l. ascii_char x ∷ l) (ascii_part-append xs ys)

All-take : (P : ℕ → Type 0) (n : ℕ) (xs : Bytes) → All P xs → All P (take n xs)
All-take P zero xs all = tt
All-take P (suc n) [] all = tt
All-take P (suc n) (x ∷ xs) (p, all) = (p, All-take P n xs all)

All-drop : (P : ℕ → Type 0) (n : ℕ) (xs : Bytes) → All P xs → All P (drop n xs)
All-drop P zero xs all = all
All-drop P (suc n) [] all = tt
All-drop P (suc n) (x ∷ xs) (p, all) = All-drop P n xs all

module _ (bytes : Bytes) (i : ℕ) where
  dump_chunk_eq : dump_chunk bytes i ≡ take 16 (drop i bytes)
  dump_chunk_eq = elim (Bool-cases (ltb 16 (length (drop i bytes)))) [
    | inl e ↦ rw e refl
    | inr e ↦ rw e (sym (take_past 16 (drop i bytes) (ground arith)))
  ]

  dump_chunk-rest : dump_chunk bytes i ++ drop (i + 16) bytes ≡ drop i bytes
  dump_chunk-rest =
      ap (λ c. c ++ drop (i + 16) bytes) dump_chunk_eq
      ∙ rw (← drop-drop 16 i bytes) (take-append-drop 16 (drop i bytes))

  undump-dump_chunk :
      All (λ b. b < 256) bytes
      → undump (hex_part_from (dump_chunk bytes i) 0 16) ≡ dump_chunk bytes i
  undump-dump_chunk small = rw (dump_chunk_eq) (
      undump-hex_part_from (take 16 (drop i bytes)) 0 16
        (All-take _ 16 (drop i bytes) (All-drop _ i bytes small))
      ∙ take_past 16 (take 16 (drop i bytes)) (omega (arith, length-take 16 (drop i bytes))))

-- What the lines show of the bytes from `i` on.
record Shows (bytes : Bytes) (i : ℕ) (lines : List DumpLine) : Type 0 where
  read : undumped lines ≡ drop i bytes
  chars : sidebar lines ≡ ascii_part (drop i bytes)
  placed : offsets lines ≡ every_16 i ((length bytes - i + 15) / 16)
  wide : All (λ l. length l.hex_part ≡ 49) lines

nothing-Shows : (bytes : Bytes) (i : ℕ) → length bytes ≤ i → Shows bytes i []
unfolding ascii_part
nothing-Shows bytes i h =
    let none : (length bytes - i + 15) / 16 ≡ 0 = omega arith in
    record {
      read = sym (drop_past i bytes h);
      chars = ap ascii_part (sym (drop_past i bytes h));
      placed = rw none refl;
      wide = tt;
    }

line-Shows :
    (bytes : Bytes) (i : ℕ) (lines : List DumpLine)
    → All (λ b. b < 256) bytes
    → i < length bytes
    → Shows bytes (i + 16) lines
    → Shows bytes i (dump_line (dump_chunk bytes i) i ∷ lines)
line-Shows bytes i lines small inside s =
    let one_more : (length bytes - i + 15) / 16 ≡ suc ((length bytes - (i + 16) + 15) / 16) =
      omega arith in
    record {
      read = rw (undump-dump_chunk bytes i small, s.read) (dump_chunk-rest bytes i);
      chars =
          rw (s.chars, ← ascii_part-append (dump_chunk bytes i) (drop (i + 16) bytes))
            (ap ascii_part (dump_chunk-rest bytes i));
      placed = rw (s.placed, one_more) refl;
      wide = (hex_part_49 (dump_chunk bytes i), s.wide);
    }

dump_lines-Shows :
    (bytes : Bytes) (i fuel : ℕ)
    → All (λ b. b < 256) bytes
    → length bytes ≤ i + fuel
    → Shows bytes i (dump_lines bytes i fuel)
unfolding dump_lines
dump_lines-Shows bytes i zero small h = nothing-Shows bytes i (omega arith)
dump_lines-Shows bytes i (suc fuel) small h = elim (Bool-cases (ltb i (length bytes))) [
  | inl e ↦ rw e (
      line-Shows bytes i _ small (ltb→lt i (length bytes) e)
        (dump_lines-Shows bytes (i + 16) fuel small (omega arith)))
  | inr e ↦ rw e (nothing-Shows bytes i (ground arith))
]

format_hex_dump-Shows :
    (bytes : Bytes) → All (λ b. b < 256) bytes → Shows bytes 0 (format_hex_dump bytes)
unfolding format_hex_dump
format_hex_dump-Shows bytes small = elim (Bool-cases (length bytes == 0)) [
  | inl e ↦ rw e (nothing-Shows bytes 0 (ground arith))
  | inr e ↦ rw e (dump_lines-Shows bytes 0 (length bytes) small (omega arith))
]

-- The hex parts of all lines, read back, are the bytes; the ASCII parts are the bytes with a dot for
-- each that is not printable; the lines begin at 0 and every 16 bytes from it, with as many lines as
-- the bytes need; and each hex part is 49 characters wide, for bytes below 256.
pub format_hex_dump-undumped :
    (bytes : Bytes)
    → All (λ b. b < 256) bytes
    → let lines = format_hex_dump bytes in
      (undumped lines ≡ bytes)
      × (sidebar lines ≡ ascii_part bytes)
      × (offsets lines ≡ every_16 0 ((length bytes + 15) / 16))
      × All (λ l. length l.hex_part ≡ 49) lines
format_hex_dump-undumped bytes small =
    let s = format_hex_dump-Shows bytes small in
    let all_of_them : length bytes - 0 + 15 ≡ length bytes + 15 = omega arith in
    (s.read, s.chars, s.placed ∙ ap (λ k. every_16 0 (k / 16)) all_of_them, s.wide)
