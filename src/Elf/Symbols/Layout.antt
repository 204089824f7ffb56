-- ===== src/Elf/Symbols/Layout.antt =====
-- internal/binary/elf_symbols.go, parseSymbolTable: the entries of the table in the format of ELF.
use go_core_lab.Common.{
  ℕ, ◌+◌, ◌*◌, ◌^◌, ◌<◌, ◌≡◌, Bytes, List, [], ◌∷◌, ◌++◌, length, ByteOrder, ok, Layout, take, drop,
  encode_layout, uint_field, index_field, arith,
}
use go_core_lab.Elf.Types.{Section, Symbol}
use go_core_lab.Elf.Symbols.{symbol_64, symbol_32}
use go_core_lab.Elf.Symbols.Meaning.{Resolved, symbol_of-Resolved}

-- The fields of an entry of 64 and of 32 bits, each in its own order.
abbrev pub layout_64 : Symbol → Layout
layout_64 s =
    (4, s.name_off) ∷ (1, s.info) ∷ (1, s.other) ∷ (2, s.shndx) ∷ (8, s.value) ∷ (8, s.size) ∷ []

abbrev pub layout_32 : Symbol → Layout
layout_32 s =
    (4, s.name_off) ∷ (4, s.value) ∷ (4, s.size) ∷ (1, s.info) ∷ (1, s.other) ∷ (2, s.shndx) ∷ []

-- A symbol whose fields fit a word of `w` bytes, 4 bytes, 2 bytes or a byte.
pub record Fits (w : ℕ) (s : Symbol) : Type 0 where
  pub name_off : s.name_off < 256 ^ 4
  pub info : s.info < 256
  pub other : s.other < 256
  pub shndx : s.shndx < 256 ^ 2
  pub value : s.value < 256 ^ w
  pub size : s.size < 256 ^ w

module _ (o : ByteOrder) (sections : List Section) (strings start rest : Bytes) (s : Symbol) where
  pub symbol_64_at :
      (i : ℕ)
      → length start ≡ i * 24
      → s.index ≡ i
      → Fits 8 s × Resolved sections strings s
      → symbol_64 o sections strings (start ++ (encode_layout o (layout_64 s) ++ rest)) i ≡ ok s
  unfolding symbol_64
  symbol_64_at i len number (fits, resolved) = rw (
    uint_field o start rest (i * 24) len (take 0 (layout_64 s)) (drop 1 (layout_64 s)) 4 s.name_off
        (i * 24) (omega arith) fits.name_off,
    index_field o start rest (i * 24) len (take 1 (layout_64 s)) (drop 2 (layout_64 s)) s.info
        (i * 24 + 4) (omega arith) fits.info,
    index_field o start rest (i * 24) len (take 2 (layout_64 s)) (drop 3 (layout_64 s)) s.other
        (i * 24 + 5) (omega arith) fits.other,
    uint_field o start rest (i * 24) len (take 3 (layout_64 s)) (drop 4 (layout_64 s)) 2 s.shndx
        (i * 24 + 6) (omega arith) fits.shndx,
    uint_field o start rest (i * 24) len (take 4 (layout_64 s)) (drop 5 (layout_64 s)) 8 s.value
        (i * 24 + 8) (omega arith) fits.value,
    uint_field o start rest (i * 24) len (take 5 (layout_64 s)) (drop 6 (layout_64 s)) 8 s.size
        (i * 24 + 16) (omega arith) fits.size,
    ← number,
    symbol_of-Resolved sections strings s resolved,
  )

  pub symbol_32_at :
      (i : ℕ)
      → length start ≡ i * 16
      → s.index ≡ i
      → Fits 4 s × Resolved sections strings s
      → symbol_32 o sections strings (start ++ (encode_layout o (layout_32 s) ++ rest)) i ≡ ok s
  unfolding symbol_32
  symbol_32_at i len number (fits, resolved) = rw (
    uint_field o start rest (i * 16) len (take 0 (layout_32 s)) (drop 1 (layout_32 s)) 4 s.name_off
        (i * 16) (omega arith) fits.name_off,
    uint_field o start rest (i * 16) len (take 1 (layout_32 s)) (drop 2 (layout_32 s)) 4 s.value
        (i * 16 + 4) (omega arith) fits.value,
    uint_field o start rest (i * 16) len (take 2 (layout_32 s)) (drop 3 (layout_32 s)) 4 s.size
        (i * 16 + 8) (omega arith) fits.size,
    index_field o start rest (i * 16) len (take 3 (layout_32 s)) (drop 4 (layout_32 s)) s.info
        (i * 16 + 12) (omega arith) fits.info,
    index_field o start rest (i * 16) len (take 4 (layout_32 s)) (drop 5 (layout_32 s)) s.other
        (i * 16 + 13) (omega arith) fits.other,
    uint_field o start rest (i * 16) len (take 5 (layout_32 s)) (drop 6 (layout_32 s)) 2 s.shndx
        (i * 16 + 14) (omega arith) fits.shndx,
    ← number,
    symbol_of-Resolved sections strings s resolved,
  )
