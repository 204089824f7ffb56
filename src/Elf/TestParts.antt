-- ===== src/Elf/TestParts.antt =====
-- internal/binary: the parts of the small file, and that they fit the format.
use go_core_lab.Common.{
  ◌≡◌, refl, false, [], ◌∷◌, new_reader, little_endian, ok, drop, arith, encode_table,
  encode_layout, table, uint, slice, index, decode, encode, from_le, to_le, read_full, read_padded,
  seek, Numbered,
}
use go_core_lab.Elf.Header
use go_core_lab.Elf.Reader.Whole.{Parts, Holds}
use go_core_lab.Elf.Sections.Strings.{Ends}
use go_core_lab.Elf.Symbols.Meaning.{Resolved, at_section}
use go_core_lab.Elf.TestFile.{
  test_header, test_ignored, test_segment, null_section, test_strings, strtab_section,
  symtab_section, test_sections, named_sections, test_symbol, test_bytes, test_file,
}
use go_core_lab.Elf.Header.{
  check_magic, byte_order, header_fields_64, header_fields_32, zero_header, parse_header,
}
use go_core_lab.Elf.Header.Layout.{Ignored, encode_header}
use go_core_lab.Elf.Sections
use go_core_lab.Elf.Segments
use go_core_lab.Elf.Symbols
use go_core_lab.Elf.Sections.{
  section_32, null_distance, extract_null_string, get_section, read_strings, with_name, with_names,
  name_sections, resolve_names_in, string_section, section_table, parse_sections,
}
use go_core_lab.Elf.Segments.{segment_32, segment_table, parse_segments}
use go_core_lab.Elf.Symbols.{
  shown_name, name_of_section, resolve_section_index, symbol_name, symbol_of, symbol_32,
  strings_or_zeros, load_strings, symbol_table, parse_symbol_table,
}
use go_core_lab.Elf.Reader.{
  keep_symbols, extract_from, extract_symbols, parse_elf_reader, parse_elf_bytes,
}

parse_test_file : parse_elf_bytes 1000 test_bytes "a.out" ≡ ok test_file
unfolding parse_elf_bytes parse_elf_reader parse_header check_magic byte_order header_fields_32
    zero_header parse_segments segment_table segment_32 parse_sections section_table section_32
    resolve_names_in read_strings name_sections with_names with_name extract_null_string
    null_distance get_section string_section extract_symbols extract_from keep_symbols
    parse_symbol_table symbol_table symbol_32 symbol_of symbol_name resolve_section_index
    name_of_section shown_name load_strings strings_or_zeros encode_header encode_table
    encode_layout encode to_le decode from_le uint slice index table read_full read_padded seek
parse_test_file = refl

abbrev pub test_parts : Parts
test_parts = record {
  header = test_header;
  ignored = test_ignored;
  segments = test_segment ∷ [];
  sections = test_sections;
  str_sec = strtab_section;
  strings = test_strings;
  behind_header = drop 64 test_bytes;
  behind_segments = drop 96 test_bytes;
  behind_sections = drop 216 test_bytes;
  behind_strings = drop 220 test_bytes;
}

header_fits : Header.Layout.Fits false little_endian test_header test_ignored
header_fits = record {
  class = refl;
  data_encoding = refl;
  machine = omega arith;
  entry = omega arith;
  ph_off = omega arith;
  sh_off = omega arith;
  ph_ent_size = omega arith;
  ph_num = omega arith;
  sh_ent_size = omega arith;
  sh_num = omega arith;
  sh_str_idx = omega arith;
  reserved = refl;
}

segment_fits : Segments.Layout.Fits 4 test_segment
segment_fits = record {
  p_type = omega arith;
  flags = omega arith;
  offset = omega arith;
  v_addr = omega arith;
  p_addr = omega arith;
  file_size = omega arith;
  mem_size = omega arith;
  align = omega arith;
}

null_fits : Sections.Layout.Fits 4 null_section
null_fits = record {
  name = refl;
  name_off = omega arith;
  sh_type = omega arith;
  flags = omega arith;
  addr = omega arith;
  offset = omega arith;
  size = omega arith;
  link = omega arith;
  info = omega arith;
  addr_align = omega arith;
  ent_size = omega arith;
}

strtab_fits : Sections.Layout.Fits 4 strtab_section
strtab_fits = record {
  name = refl;
  name_off = omega arith;
  sh_type = omega arith;
  flags = omega arith;
  addr = omega arith;
  offset = omega arith;
  size = omega arith;
  link = omega arith;
  info = omega arith;
  addr_align = omega arith;
  ent_size = omega arith;
}

symtab_fits : Sections.Layout.Fits 4 symtab_section
symtab_fits = record {
  name = refl;
  name_off = omega arith;
  sh_type = omega arith;
  flags = omega arith;
  addr = omega arith;
  offset = omega arith;
  size = omega arith;
  link = omega arith;
  info = omega arith;
  addr_align = omega arith;
  ent_size = omega arith;
}

pub symbol_fits : Symbols.Layout.Fits 4 test_symbol
symbol_fits = record {
  name_off = omega arith;
  info = omega arith;
  other = omega arith;
  shndx = omega arith;
  value = omega arith;
  size = omega arith;
}

pub symbol-Resolved : Resolved named_sections test_strings test_symbol
unfolding Ends
symbol-Resolved = record {
  name = record { no_null = ((λ e. cc), tt); rest = 0 ∷ []; split = refl; ends = refl };
  info = refl;
  sym_type = omega arith;
  reserved = 0;
  other = refl;
  visibility = omega arith;
  section_name =
      at_section (null_section ∷ []) (record symtab_section { name = 0x73 ∷ [] } ∷ [])
        (record strtab_section { name = 0x2e ∷ 0x73 ∷ [] }) 0x2e (0x73 ∷ [])
        (record { not_undef = omega arith; not_abs = λ e. cc; not_common = λ e. cc }) refl refl
        refl;
}

pub strings_at :
    Sections.Table.StringsAt 1000 test_bytes strtab_section test_strings (drop 220 test_bytes)
unfolding encode_header encode_table encode_layout encode to_le
strings_at = record {
  sh_type = refl;
  nonempty = omega arith;
  allocated = omega arith;
  offset = omega arith;
  size = refl;
  here = refl;
}

pub test-Holds : Holds false little_endian 1000 test_parts (new_reader test_bytes)
unfolding encode_header encode_table encode_layout encode to_le Numbered string_section get_section
test-Holds = record {
  fits = header_fits;
  length_header = refl;
  header_here = refl;
  ph_off = omega arith;
  ph_off_fits = omega arith;
  ph_num = omega arith;
  segments_here = record {
    class = refl;
    count = refl;
    numbered = (refl, tt);
    kept = (segment_fits, tt);
    here = refl;
  };
  sh_off = omega arith;
  sh_off_fits = omega arith;
  sh_num = omega arith;
  sections_here = record {
    class = refl;
    count = refl;
    numbered = (refl, (refl, (refl, tt)));
    kept = (null_fits, (strtab_fits, (symtab_fits, tt)));
    here = refl;
  };
  names = refl;
  strings_here = strings_at;
}
