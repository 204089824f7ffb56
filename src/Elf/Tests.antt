-- ===== src/Elf/Tests.antt =====
-- internal/binary: the ELF reader on a small file.
use go_core_lab.Common.{
  ◌≡◌, refl, false, Bytes, [], ◌∷◌, new_reader, little_endian, ok, panic, drop, some, advance,
  at_offset, ◌↔◌, length, arith, encode_table, encode_layout, table, uint, slice, index, decode,
  encode, from_le, to_le, read_full, read_padded, seek, Numbered,
}
use go_core_lab.Elf.Types.{class32, ElfFile}
use go_core_lab.Elf.Header.Errors.{described, parse_header-described}
use go_core_lab.Elf.Reader.Latest.{with_last, extract_symbols-latest}
use go_core_lab.Elf.Names.{segment_flags_string}
use go_core_lab.Elf.Names.Permissions.{segment_flags_string-permissions}
use go_core_lab.Elf.Reader.Whole.{parse_elf_reader-finds}
use go_core_lab.Elf.Symbols.Table.{parse_symbol_table-finds}
use go_core_lab.Elf.Safety.File.{TooLarge, parse_elf_reader-panics}
use go_core_lab.Elf.Sections.Strings.{StartsWith, extract_null_string-finds}
use go_core_lab.Elf.TestFile.{
  test_header, test_ignored, test_segment, test_strings, strtab_section, symtab_section,
  test_sections, named_sections, test_symbol, test_bytes, test_file,
}
use go_core_lab.Elf.Header.{check_magic, byte_order, header_fields_32, zero_header, parse_header}
use go_core_lab.Elf.Header.Layout.{encode_header}
use go_core_lab.Elf.Symbols
use go_core_lab.Elf.Sections.{
  section_32, null_distance, extract_null_string, get_section, read_strings, with_name, with_names,
  name_sections, resolve_names_in, string_section, section_table, parse_sections,
}
use go_core_lab.Elf.Segments.{segment_32, segment_table, parse_segments}
use go_core_lab.Elf.Symbols.{
  shown_name, name_of_section, resolve_section_index, symbol_name, symbol_of, symbol_32,
  strings_or_zeros, load_strings, symbol_table, parse_symbol_table,
}
use go_core_lab.Elf.Reader.{
  keep_symbols, keep_dyn_symbols, extract_from, extract_symbols, parse_elf_reader, parse_elf_bytes,
}
use go_core_lab.Elf.TestParts.{test_parts, symbol_fits, symbol-Resolved, strings_at, test-Holds}

parse_elf_reader-finds_example :
    parse_elf_reader 1000 (new_reader test_bytes) "a.out"
    ≡ extract_symbols 1000
        (advance 64 (new_reader test_bytes))
        little_endian
        (with_names test_strings test_sections)
        record {
          header = test_header;
          segments = test_segment ∷ [];
          sections = with_names test_strings test_sections;
          symbols = [];
          dyn_symbols = [];
          path = "a.out";
        }
parse_elf_reader-finds_example =
    parse_elf_reader-finds false little_endian 1000 test_parts (new_reader test_bytes) "a.out"
      test-Holds

symbols_at :
    Symbols.Table.TableAt 1000 false class32 little_endian symtab_section named_sections
      test_strings
      (test_symbol ∷ [])
      []
      (at_offset 220 (new_reader test_bytes))
unfolding encode_header encode_table encode_layout encode to_le Numbered
symbols_at = record {
  class_wide = refl;
  size = refl;
  allocated = omega arith;
  made = omega arith;
  numbered = (refl, tt);
  kept = ((symbol_fits, symbol-Resolved), tt);
  here = refl;
}

link_found :
    string_section named_sections 1 ≡ some (record strtab_section { name = 0x2e ∷ 0x73 ∷ [] })
unfolding string_section get_section
link_found = refl

parse_symbol_table-finds_example :
    parse_symbol_table 1000
      (new_reader test_bytes)
      symtab_section
      named_sections
      class32
      little_endian
    ≡ ok (test_symbol ∷ [])
parse_symbol_table-finds_example =
    parse_symbol_table-finds 1000 false class32 little_endian symtab_section named_sections
      test_strings (test_symbol ∷ []) [] (new_reader test_bytes)
      (record strtab_section { name = 0x2e ∷ 0x73 ∷ [] }) (drop 220 test_bytes) (omega arith)
      (omega arith) (omega arith) link_found
      (record {
        sh_type = refl;
        nonempty = omega arith;
        allocated = omega arith;
        offset = omega arith;
        size = refl;
        here = strings_at.here;
      })
      symbols_at

-- With room for 3 bytes only, the string table of 4 does not fit.
panics_on_small_memory : parse_elf_reader 3 (new_reader test_bytes) "a.out" ≡ panic
unfolding parse_elf_bytes parse_elf_reader parse_header check_magic byte_order header_fields_32
    zero_header parse_segments segment_table segment_32 parse_sections section_table section_32
    resolve_names_in read_strings name_sections with_names with_name extract_null_string
    null_distance get_section string_section extract_symbols extract_from keep_symbols
    parse_symbol_table symbol_table symbol_32 symbol_of symbol_name resolve_section_index
    name_of_section shown_name load_strings strings_or_zeros encode_header encode_table
    encode_layout encode to_le decode from_le uint slice index table read_full read_padded seek
panics_on_small_memory = refl

parse_elf_reader-panics_example : TooLarge 3 (new_reader test_bytes)
parse_elf_reader-panics_example =
    parse_elf_reader-panics 3 (new_reader test_bytes) "a.out" panics_on_small_memory

extract_null_string-finds_example :
    (extract_null_string test_strings 1 ≡ 0x2e ∷ 0x73 ∷ [])
    ↔ StartsWith (drop 1 test_strings) (0x2e ∷ 0x73 ∷ [])
extract_null_string-finds_example = extract_null_string-finds test_strings 1 (0x2e ∷ 0x73 ∷ [])

-- The file before its symbols are read.
abbrev bare_file : ElfFile
bare_file = record test_file { symbols = [] }

extracted :
    extract_symbols 1000 (new_reader test_bytes) little_endian named_sections bare_file
    ≡ ok test_file
unfolding keep_dyn_symbols check_magic byte_order header_fields_32 zero_header parse_segments
    segment_table segment_32 parse_sections section_table section_32 resolve_names_in read_strings
    name_sections with_names with_name extract_null_string null_distance get_section string_section
    extract_symbols extract_from keep_symbols parse_symbol_table symbol_table symbol_32 symbol_of
    symbol_name resolve_section_index name_of_section shown_name load_strings strings_or_zeros
    encode_header encode_table encode_layout encode to_le decode from_le uint slice index table
    read_full read_padded seek
extracted = refl

extract_symbols-latest_example :
    test_file
    ≡ with_last 1000
        (new_reader test_bytes)
        little_endian
        named_sections
        class32
        named_sections
        bare_file
extract_symbols-latest_example =
    extract_symbols-latest 1000 (new_reader test_bytes) little_endian named_sections bare_file
      test_file extracted

abbrev header_bytes : Bytes
header_bytes = encode_header false little_endian test_header test_ignored

header_bytes_length : length header_bytes ≡ 64
unfolding encode_header encode_layout encode to_le
header_bytes_length = refl

parse_header-described_example : parse_header header_bytes ≡ described header_bytes
parse_header-described_example = parse_header-described header_bytes header_bytes_length

segment_flags_string-permissions_example :
    segment_flags_string (record test_segment { flags = 0x80000005 }) ≡ "R" ∷ " " ∷ "E" ∷ []
segment_flags_string-permissions_example =
    segment_flags_string-permissions (record test_segment { flags = 0x80000005 })
