-- ===== src/Elf/Symbols.antt =====
-- internal/binary/elf_symbols.go, parseSymbolTable: the symbols of .symtab and .dynsym.
pub mod Meaning
pub mod Layout
pub mod Table
use go_core_lab.Common.{
  ℕ, ◌+◌, ◌*◌, ◌/◌, ◌%◌, ◌&&◌, ◌||◌, Bytes, List, [], ◌∷◌, Option, none, some, length, replicate,
  ByteOrder, Result, ok, err, panic, ◌>>=◌, ◌>>◌, wrap, Reader, IoError, read_full, read_padded,
  seek, index, uint, table, if◌then◌else◌, ltb, ◌==◌,
}
use go_core_lab.Elf.Types.{
  class64, sht_strtab, shn_undef, shn_abs, shn_common, Section, SectionName, undef, abs, common,
  named_section, unnamed, Symbol, TableError, seek_table, read_table_64, read_table_32,
}
use go_core_lab.Elf.Sections.{extract_null_string, get_section, make_bytes, string_section}

-- The name of a section that has one.
unfoldable pub shown_name : ℕ → Bytes → SectionName
shown_name shndx [] = unnamed shndx
shown_name shndx (c ∷ cs) = named_section (c ∷ cs)

unfoldable pub name_of_section : ℕ → Option Section → SectionName
name_of_section shndx none = unnamed shndx
name_of_section shndx (some s) = shown_name shndx s.name

unfoldable pub resolve_section_index : ℕ → List Section → SectionName
resolve_section_index shndx sections =
    if shndx == shn_undef
    then undef
    else if shndx == shn_abs
    then abs
    else if shndx == shn_common
    then common
    else name_of_section shndx (get_section sections shndx)

-- `if len(strTable) > 0`
unfoldable pub symbol_name : Bytes → ℕ → Bytes
symbol_name strings name_off =
    if ltb 0 (length strings) then extract_null_string strings name_off else []

-- The symbol of the fields of an entry, which both classes put together alike.
unfoldable pub symbol_of : List Section → Bytes → ℕ → ℕ → ℕ → ℕ → ℕ → ℕ → ℕ → Symbol
symbol_of sections strings i name_off val sz info other shndx = record {
  index = i;
  name = symbol_name strings name_off;
  name_off = name_off;
  value = val;
  size = sz;
  info = info;
  other = other;
  shndx = shndx;
  section_name = resolve_section_index shndx sections;
  binding = info / 16;
  sym_type = info % 16;
  visibility = other % 4;
}

unfoldable pub symbol_64 : ByteOrder → List Section → Bytes → Bytes → ℕ → Result TableError Symbol
symbol_64 bo sections strings buf i = do
  let off = i * 24
  name_off ← uint bo 4 buf off
  info ← index buf (off + 4)
  other ← index buf (off + 5)
  shndx ← uint bo 2 buf (off + 6)
  val ← uint bo 8 buf (off + 8)
  sz ← uint bo 8 buf (off + 16)
  ok (symbol_of sections strings i name_off val sz info other shndx)

unfoldable pub symbol_32 : ByteOrder → List Section → Bytes → Bytes → ℕ → Result TableError Symbol
symbol_32 bo sections strings buf i = do
  let off = i * 16
  name_off ← uint bo 4 buf off
  val ← uint bo 4 buf (off + 4)
  sz ← uint bo 4 buf (off + 8)
  info ← index buf (off + 12)
  other ← index buf (off + 13)
  shndx ← uint bo 2 buf (off + 14)
  ok (symbol_of sections strings i name_off val sz info other shndx)

-- `Seek` and `ReadFull` into a fresh buffer, their errors thrown away.
unfoldable pub strings_or_zeros : Section → Result IoError Reader → Bytes
strings_or_zeros s (ok r) = read_padded s.size r
strings_or_zeros s (err e) = replicate s.size 0
strings_or_zeros s panic = replicate s.size 0

unfoldable pub load_strings : ℕ → Reader → Option Section → Result TableError Bytes
load_strings limit r none = ok []
load_strings limit r (some s) =
    if s.sh_type == sht_strtab && ltb 0 s.size
    then (make_bytes limit s.size >> ok (strings_or_zeros s (seek s.offset r)))
    else ok []

-- The size of the Go type Symbol on a platform of 64 bits.
abbrev pub symbol_bytes : ℕ
symbol_bytes = 80

-- `numSyms` entries behind the reader; `make([]Symbol, numSyms)` comes behind ReadFull.
unfoldable pub symbol_table :
    ℕ → Reader → Section → List Section → Bytes → ℕ → ByteOrder → Result TableError (List Symbol)
symbol_table limit r sym_sec sections strings class bo =
    if class == class64
    then (make_bytes limit (sym_sec.size / 24 * 24)
        >> wrap read_table_64 (read_full (sym_sec.size / 24 * 24) r)
        >>= λ (buf, r).
            make_bytes limit (sym_sec.size / 24 * symbol_bytes)
            >> table (symbol_64 bo sections strings buf) (sym_sec.size / 24) 0)
    else (make_bytes limit (sym_sec.size / 16 * 16)
        >> wrap read_table_32 (read_full (sym_sec.size / 16 * 16) r)
        >>= λ (buf, r).
            make_bytes limit (sym_sec.size / 16 * symbol_bytes)
            >> table (symbol_32 bo sections strings buf) (sym_sec.size / 16) 0)

unfoldable pub parse_symbol_table :
    ℕ → Reader → Section → List Section → ℕ → ByteOrder → Result TableError (List Symbol)
parse_symbol_table limit r sym_sec sections class bo =
    if sym_sec.size == 0 || sym_sec.offset == 0
    then ok []
    else (load_strings limit r (string_section sections sym_sec.link) >>= λ strings.
        wrap (seek_table sym_sec.offset) (seek sym_sec.offset r) >>= λ r.
        symbol_table limit r sym_sec sections strings class bo)
