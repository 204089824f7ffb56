-- ===== src/Elf/Sections/Table.antt =====
-- internal/binary/elf.go, parseSections: a table in the format of ELF.
use go_core_lab.Common.{
  ℕ, ◌^◌, ◌<◌, ◌≤◌, some, drop, seek_lem, at_offset, read_full_at, positive→not_zero, lt→ltb,
  le→leb, ◌≡◌, Bool, true, false, Bytes, List, ◌++◌, length, All, ByteOrder, ok, Reader, remaining,
  length-encode_layout, encode_layout, encode_table, Numbered, Format, read_table, ◌==◌,
}
use go_core_lab.Elf.Types.{
  class64, ElfHeader, Section, TableError, sht_strtab, read_table_64, read_table_32,
}
use go_core_lab.Elf.Sections.{
  section_64, section_32, section_table, read_strings, with_names, string_section, name_sections,
  resolve_names_in, parse_sections,
}
use go_core_lab.Elf.Sections.Layout.{layout_64, layout_32, Fits, section_64_at, section_32_at}

-- The sections of a class, which has words of 64 bits or of 32.
abbrev pub format : Bool → ByteOrder → Format TableError Section
format true o = record {
  Kept = Fits 8;
  number = λ s. s.index;
  width = 64;
  encode = λ s. encode_layout o (layout_64 s);
  length-encode = λ s. length-encode_layout o (layout_64 s);
  entry = section_64 o;
  entry_at = section_64_at o;
}
format false o = record {
  Kept = Fits 4;
  number = λ s. s.index;
  width = 40;
  encode = λ s. encode_layout o (layout_32 s);
  length-encode = λ s. length-encode_layout o (layout_32 s);
  entry = section_32 o;
  entry_at = section_32_at o;
}

-- A reader in front of the table of the sections `ss`, which are numbered from 0.
pub record TableAt (wide : Bool) (h : ElfHeader) (o : ByteOrder) (ss : List Section) (rest : Bytes)
    (r : Reader) : Type 0 where
  pub class : (h.class == class64) ≡ wide
  pub count : h.sh_num ≡ length ss
  pub numbered : Numbered (λ (s : Section). s.index) 0 ss
  pub kept : All (format wide o).Kept ss
  pub here : remaining r ≡ encode_table (format wide o).encode ss ++ rest

pub section_table_at :
    (wide : Bool) (h : ElfHeader) (o : ByteOrder) (ss : List Section) (rest : Bytes) (r : Reader)
    → TableAt wide h o ss rest r
    → section_table r h o ≡ ok ss
unfolding section_table
section_table_at true h o ss rest r at = rw (
  at.class,
  at.count,
  read_table (format true o) read_table_64 ss rest r at.here at.numbered at.kept,
)
section_table_at false h o ss rest r at = rw (
  at.class,
  at.count,
  read_table (format false o) read_table_32 ss rest r at.here at.numbered at.kept,
)

-- The bytes of a string table that can be allocated and are all there.
pub record StringsAt (limit : ℕ) (b : Bytes) (s : Section) (strings rest : Bytes) : Type 0 where
  pub sh_type : s.sh_type ≡ sht_strtab
  pub nonempty : 0 < s.size
  pub allocated : s.size ≤ limit
  pub offset : s.offset < 2 ^ 63
  pub size : length strings ≡ s.size
  pub here : drop s.offset b ≡ strings ++ rest

read_strings_at :
    (limit : ℕ) (r : Reader) (s : Section) (strings rest : Bytes)
    → StringsAt limit r.bytes s strings rest
    → read_strings s r ≡ ok strings
unfolding read_strings
read_strings_at limit r s strings rest at = rw (
  seek_lem s.offset r at.offset,
  read_full_at strings rest s.size (at_offset s.offset r) at.size at.here,
)

module _ (wide : Bool) (h : ElfHeader) (o : ByteOrder) (ss : List Section) (rest : Bytes)
    (limit : ℕ) (r : Reader) (str_sec : Section) (strings rest' : Bytes) where
  -- Where the file has a section header table of either class and byte order, with its entries
  -- numbered from 0 and in the range of their integers, and the section that the header names is a
  -- string table that is not empty, can be allocated and is all there, parseSections returns those
  -- sections, each with the string at its name offset as its name.
  pub parse_sections-finds :
      0 < h.sh_off
      → h.sh_off < 2 ^ 63
      → 0 < h.sh_num
      → TableAt wide h o ss rest (at_offset h.sh_off r)
      → string_section ss h.sh_str_idx ≡ some str_sec
      → StringsAt limit r.bytes str_sec strings rest'
      → parse_sections limit r h o ≡ ok (with_names strings ss)
  unfolding parse_sections resolve_names_in name_sections
  parse_sections-finds off off_fits num at names str = rw (
    positive→not_zero h.sh_off off,
    positive→not_zero h.sh_num num,
    seek_lem h.sh_off r off_fits,
    section_table_at wide h o ss rest (at_offset h.sh_off r) at,
    names,
    lt→ltb 0 str_sec.size str.nonempty,
    read_strings_at limit (at_offset h.sh_off r) str_sec strings rest' str,
    str.sh_type,
    le→leb str_sec.size limit str.allocated,
  )
