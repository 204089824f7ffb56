-- ===== src/Elf/Reader.antt =====
-- internal/binary/elf.go, ParseELFReader: the header, the tables, and the symbols of the tables.
pub mod Whole
pub mod Latest
use Prim.Native.String.{String}
use go_core_lab.Common.{
  ℕ, Bytes, List, [], ◌∷◌, ByteOrder, Result, ok, err, panic, ◌>>=◌, wrap, Reader, new_reader,
  read_full, if◌then◌else◌, ◌==◌,
}
use go_core_lab.Elf.Types.{
  sht_symtab, sht_dynsym, ElfHeader, Section, Symbol, ElfFile, TableError, ElfError, read_header,
  parse_segments_error, parse_sections_error,
}
use go_core_lab.Elf.Header.{parse_header}
use go_core_lab.Elf.Sections.{parse_sections}
use go_core_lab.Elf.Segments.{parse_segments}
use go_core_lab.Elf.Symbols.{parse_symbol_table}

-- `if err == nil { elf.Symbols = syms }`
unfoldable pub keep_symbols : ElfFile → Result TableError (List Symbol) → Result ElfError ElfFile
keep_symbols elf (ok syms) = ok record elf { symbols = syms }
keep_symbols elf (err e) = ok elf
keep_symbols elf panic = panic

unfoldable pub keep_dyn_symbols :
    ElfFile → Result TableError (List Symbol) → Result ElfError ElfFile
keep_dyn_symbols elf (ok syms) = ok record elf { dyn_symbols = syms }
keep_dyn_symbols elf (err e) = ok elf
keep_dyn_symbols elf panic = panic

-- The body of the loop over the sections.
unfoldable pub extract_from : ℕ → Reader → ByteOrder → ElfFile → Section → Result ElfError ElfFile
extract_from limit r bo elf sec =
    if sec.sh_type == sht_symtab
    then keep_symbols elf (parse_symbol_table limit r sec elf.sections elf.header.class bo)
    else if sec.sh_type == sht_dynsym
    then keep_dyn_symbols elf (parse_symbol_table limit r sec elf.sections elf.header.class bo)
    else ok elf

unfoldable pub extract_symbols :
    ℕ → Reader → ByteOrder → List Section → ElfFile → Result ElfError ElfFile
extract_symbols limit r bo [] elf = ok elf
extract_symbols limit r bo (sec ∷ secs) elf =
    extract_from limit r bo elf sec >>= λ elf. extract_symbols limit r bo secs elf

unfoldable pub parse_elf_reader : ℕ → Reader → String → Result ElfError ElfFile
parse_elf_reader limit r path = do
  (raw, r) ← wrap read_header (read_full 64 r)
  (h, bo) ← parse_header raw
  segments ← wrap parse_segments_error (parse_segments r h bo)
  sections ← wrap parse_sections_error (parse_sections limit r h bo)
  extract_symbols limit r bo sections record {
    header = h;
    segments = segments;
    sections = sections;
    symbols = [];
    dyn_symbols = [];
    path = path;
  }

unfoldable pub parse_elf_bytes : ℕ → Bytes → String → Result ElfError ElfFile
parse_elf_bytes limit data_bytes path = parse_elf_reader limit (new_reader data_bytes) path
