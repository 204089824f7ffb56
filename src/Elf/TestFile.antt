-- ===== src/Elf/TestFile.antt =====
-- A 32-bit little-endian ELF file with one segment, a string table and one symbol.
use go_core_lab.Common.{
  false, Bytes, List, [], ◌∷◌, ◌++◌, little_endian, encode_table, encode_layout,
}
use go_core_lab.Elf.Types.{
  class32, data_le, sht_strtab, sht_symtab, ElfHeader, Section, Segment, Symbol, ElfFile,
  named_section,
}
use go_core_lab.Elf.Header.Layout.{Ignored, encode_header}
use go_core_lab.Elf.Sections
use go_core_lab.Elf.Segments
use go_core_lab.Elf.Symbols

abbrev pub test_header : ElfHeader
test_header = record {
  class = class32;
  data_encoding = data_le;
  machine = 0x28;
  entry = 0x8000;
  ph_off = 64;
  sh_off = 96;
  ph_ent_size = 32;
  ph_num = 1;
  sh_ent_size = 40;
  sh_num = 3;
  sh_str_idx = 1;
}

abbrev pub ten : Bytes
ten = 0 ∷ 0 ∷ 0 ∷ 0 ∷ 0 ∷ 0 ∷ 0 ∷ 0 ∷ 0 ∷ 0 ∷ []

abbrev pub test_ignored : Ignored
test_ignored = record {
  reserved = ten;
  kind = 2;
  version = 1;
  flags = 0;
  eh_size = 52;
  padding = 0 ∷ 0 ∷ ten;
}

abbrev pub test_segment : Segment
test_segment = record {
  index = 0;
  p_type = 1;
  flags = 5;
  offset = 0;
  v_addr = 0x8000;
  p_addr = 0x8000;
  file_size = 236;
  mem_size = 236;
  align = 4;
}

abbrev pub null_section : Section
null_section = record {
  index = 0;
  name = [];
  name_off = 0;
  sh_type = 0;
  flags = 0;
  addr = 0;
  offset = 0;
  size = 0;
  link = 0;
  info = 0;
  addr_align = 0;
  ent_size = 0;
}

-- `.s`, the names of the sections and of the symbol.
abbrev pub test_strings : Bytes
test_strings = 0 ∷ 0x2e ∷ 0x73 ∷ 0 ∷ []

abbrev pub strtab_section : Section
strtab_section = record null_section {
  index = 1;
  name_off = 1;
  sh_type = sht_strtab;
  offset = 216;
  size = 4;
}

abbrev pub symtab_section : Section
symtab_section = record null_section {
  index = 2;
  name_off = 2;
  sh_type = sht_symtab;
  offset = 220;
  size = 16;
  link = 1;
  ent_size = 16;
}

abbrev pub test_sections : List Section
test_sections = null_section ∷ strtab_section ∷ symtab_section ∷ []

abbrev pub named_sections : List Section
named_sections =
    null_section
    ∷ record strtab_section { name = 0x2e ∷ 0x73 ∷ [] }
    ∷ record symtab_section { name = 0x73 ∷ [] }
    ∷ []

-- A global function in section 1.
abbrev pub test_symbol : Symbol
test_symbol = record {
  index = 0;
  name = 0x73 ∷ [];
  name_off = 2;
  value = 0x8004;
  size = 8;
  info = 0x12;
  other = 0;
  shndx = 1;
  section_name = named_section (0x2e ∷ 0x73 ∷ []);
  binding = 1;
  sym_type = 2;
  visibility = 0;
}

abbrev pub seg_format : Segment → Bytes
seg_format s = encode_layout little_endian (Segments.Layout.layout_32 s)

abbrev pub sec_format : Section → Bytes
sec_format s = encode_layout little_endian (Sections.Layout.layout_32 s)

abbrev pub sym_format : Symbol → Bytes
sym_format s = encode_layout little_endian (Symbols.Layout.layout_32 s)

abbrev pub test_bytes : Bytes
test_bytes =
    encode_header false little_endian test_header test_ignored
    ++ (encode_table seg_format (test_segment ∷ [])
        ++ (encode_table sec_format test_sections
            ++ (test_strings ++ encode_table sym_format (test_symbol ∷ []))))

abbrev pub test_file : ElfFile
test_file = record {
  header = test_header;
  segments = test_segment ∷ [];
  sections = named_sections;
  symbols = test_symbol ∷ [];
  dyn_symbols = [];
  path = "a.out";
}
