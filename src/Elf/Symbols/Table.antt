-- ===== src/Elf/Symbols/Table.antt =====
-- internal/binary/elf_symbols.go, parseSymbolTable: a table in the format of ELF.
use go_core_lab.Common.{
  ℕ, ◌+◌, ◌*◌, ◌/◌, ◌-◌, ◌^◌, ◌<◌, ◌≤◌, ◌≡◌, Bool, true, false, Bytes, List, ◌++◌, some, length,
  All, ByteOrder, ok, Reader, remaining, length-encode_layout, encode_layout, encode_table,
  Numbered, Format, read_table, ◌==◌, positive→not_zero, lt→ltb, le→leb, seek_lem, at_offset, arith,
  read_padded, length-append, take-append, append-nil,
}
use go_core_lab.Elf.Types.{class64, Section, Symbol, TableError, read_table_64, read_table_32}
use go_core_lab.Elf.Sections.{string_section}
use go_core_lab.Elf.Sections.Table.{StringsAt}
use go_core_lab.Elf.Symbols.{
  symbol_bytes, symbol_64, symbol_32, symbol_table, parse_symbol_table, load_strings,
  strings_or_zeros,
}
use go_core_lab.Elf.Symbols.Meaning.{Resolved}
use go_core_lab.Elf.Symbols.Layout.{layout_64, layout_32, Fits, symbol_64_at, symbol_32_at}

-- The symbols of a class, which has words of 64 bits or of 32.
abbrev pub format : Bool → ByteOrder → List Section → Bytes → Format TableError Symbol
format true o sections strings = record {
  Kept = λ s. Fits 8 s × Resolved sections strings s;
  number = λ s. s.index;
  width = 24;
  encode = λ s. encode_layout o (layout_64 s);
  length-encode = λ s. length-encode_layout o (layout_64 s);
  entry = symbol_64 o sections strings;
  entry_at = symbol_64_at o sections strings;
}
format false o sections strings = record {
  Kept = λ s. Fits 4 s × Resolved sections strings s;
  number = λ s. s.index;
  width = 16;
  encode = λ s. encode_layout o (layout_32 s);
  length-encode = λ s. length-encode_layout o (layout_32 s);
  entry = symbol_32 o sections strings;
  entry_at = symbol_32_at o sections strings;
}

-- A reader in front of the table of the symbols `ss`, which are numbered from 0, and whose names,
-- sections, bindings, types and visibilities are those that their fields mean.
pub record TableAt (limit : ℕ) (wide : Bool) (class : ℕ) (o : ByteOrder) (sym_sec : Section)
    (sections : List Section) (strings : Bytes) (ss : List Symbol) (rest : Bytes) (r : Reader)
    : Type 0 where
  pub class_wide : (class == class64) ≡ wide
  pub size : sym_sec.size ≡ length ss * (format wide o sections strings).width
  pub allocated : sym_sec.size ≤ limit
  pub made : length ss * symbol_bytes ≤ limit
  pub numbered : Numbered (λ (s : Symbol). s.index) 0 ss
  pub kept : All (format wide o sections strings).Kept ss
  pub here : remaining r ≡ encode_table (format wide o sections strings).encode ss ++ rest

symbol_table_at :
    (limit : ℕ) (wide : Bool) (class : ℕ) (o : ByteOrder) (sym_sec : Section)
    (sections : List Section) (strings : Bytes) (ss : List Symbol) (rest : Bytes) (r : Reader)
    → TableAt limit wide class o sym_sec sections strings ss rest r
    → symbol_table limit r sym_sec sections strings class o ≡ ok ss
unfolding symbol_table
symbol_table_at limit true class o sym_sec sections strings ss rest r at =
    let count : sym_sec.size / 24 ≡ length ss = omega (arith, at.size) in
    let fits : length ss * 24 ≤ limit = omega (arith, at.size, at.allocated) in
    rw (
      at.class_wide,
      count,
      le→leb _ limit fits,
      le→leb (length ss * symbol_bytes) limit at.made,
      read_table (format true o sections strings) read_table_64 ss rest r at.here at.numbered
          at.kept,
    )
symbol_table_at limit false class o sym_sec sections strings ss rest r at =
    let count : sym_sec.size / 16 ≡ length ss = omega (arith, at.size) in
    let fits : length ss * 16 ≤ limit = omega (arith, at.size, at.allocated) in
    rw (
      at.class_wide,
      count,
      le→leb _ limit fits,
      le→leb (length ss * symbol_bytes) limit at.made,
      read_table (format false o sections strings) read_table_32 ss rest r at.here at.numbered
          at.kept,
    )

read_padded_at :
    (s rest : Bytes) (n : ℕ) (r : Reader)
    → length s ≡ n
    → remaining r ≡ s ++ rest
    → read_padded n r ≡ s
unfolding read_padded
read_padded_at s rest n r len here =
    rw (here, length-append s rest, ← len, take-append s rest, none_missing) (append-nil s)
  where
    none_missing : length s - (length s + length rest) ≡ 0
    none_missing = omega arith

load_strings_at :
    (limit : ℕ) (r : Reader) (s : Section) (strings rest : Bytes)
    → StringsAt limit r.bytes s strings rest
    → load_strings limit r (some s) ≡ ok strings
unfolding load_strings strings_or_zeros
load_strings_at limit r s strings rest at = rw (
  seek_lem s.offset r at.offset,
  read_padded_at strings rest s.size (at_offset s.offset r) at.size at.here,
  at.sh_type,
  lt→ltb 0 s.size at.nonempty,
  le→leb s.size limit at.allocated,
)

module _ (limit : ℕ) (wide : Bool) (class : ℕ) (o : ByteOrder) (sym_sec : Section)
    (sections : List Section) (strings : Bytes) (ss : List Symbol) (rest : Bytes) (r : Reader)
    (str_sec : Section) (rest' : Bytes) where
  -- Where a section's bytes are a symbol table of either class and byte order, its entries numbered
  -- from 0 and in the range of their integers, the table and its symbols can be allocated, and its
  -- link names a string table that is not empty, can be allocated and is all there, parseSymbolTable
  -- returns those symbols: the name of each is the string at its name offset, and its binding, type,
  -- visibility and section are those that the format gives its fields.
  pub parse_symbol_table-finds :
      0 < sym_sec.size
      → 0 < sym_sec.offset
      → sym_sec.offset < 2 ^ 63
      → string_section sections sym_sec.link ≡ some str_sec
      → StringsAt limit r.bytes str_sec strings rest'
      → TableAt limit wide class o sym_sec sections strings ss rest (at_offset sym_sec.offset r)
      → parse_symbol_table limit r sym_sec sections class o ≡ ok ss
  unfolding parse_symbol_table
  parse_symbol_table-finds size off off_fits link str at = rw (
    positive→not_zero sym_sec.size size,
    positive→not_zero sym_sec.offset off,
    link,
    load_strings_at limit r str_sec strings rest' str,
    seek_lem sym_sec.offset r off_fits,
    symbol_table_at limit wide class o sym_sec sections strings ss rest (at_offset sym_sec.offset r)
        at,
  )
