-- ===== src/Elf/Types.antt =====
-- internal/binary: the constants and the data of the ELF reader. A string of the file is its bytes;
-- text that Sprintf makes is data.
use Prim.Native.String.{String}
use go_core_lab.Common.{ℕ, Bytes, List, IoError}

abbrev pub class32 : ℕ
class32 = 1

abbrev pub class64 : ℕ
class64 = 2

abbrev pub data_le : ℕ
data_le = 1

abbrev pub data_be : ℕ
data_be = 2

abbrev pub sht_symtab : ℕ
sht_symtab = 2

abbrev pub sht_strtab : ℕ
sht_strtab = 3

abbrev pub sht_dynsym : ℕ
sht_dynsym = 11

abbrev pub shn_undef : ℕ
shn_undef = 0

abbrev pub shn_abs : ℕ
shn_abs = 0xfff1

abbrev pub shn_common : ℕ
shn_common = 0xfff2

pub record ElfHeader : Type 0 where
  pub class : ℕ
  pub data_encoding : ℕ
  pub machine : ℕ
  pub entry : ℕ
  pub ph_off : ℕ
  pub sh_off : ℕ
  pub ph_ent_size : ℕ
  pub ph_num : ℕ
  pub sh_ent_size : ℕ
  pub sh_num : ℕ
  pub sh_str_idx : ℕ

pub record Section : Type 0 where
  pub index : ℕ
  pub name : Bytes
  pub name_off : ℕ
  pub sh_type : ℕ
  pub flags : ℕ
  pub addr : ℕ
  pub offset : ℕ
  pub size : ℕ
  pub link : ℕ
  pub info : ℕ
  pub addr_align : ℕ
  pub ent_size : ℕ

pub record Segment : Type 0 where
  pub index : ℕ
  pub p_type : ℕ
  pub flags : ℕ
  pub offset : ℕ
  pub v_addr : ℕ
  pub p_addr : ℕ
  pub file_size : ℕ
  pub mem_size : ℕ
  pub align : ℕ

-- What resolveSectionIndex answers: `[%d]` is `unnamed`.
pub data SectionName : Type 0 where
  undef abs common : SectionName
  named_section : Bytes → SectionName
  unnamed : ℕ → SectionName

pub record Symbol : Type 0 where
  pub index : ℕ
  pub name : Bytes
  pub name_off : ℕ
  pub value : ℕ
  pub size : ℕ
  pub info : ℕ
  pub other : ℕ
  pub shndx : ℕ
  pub section_name : SectionName
  pub binding : ℕ
  pub sym_type : ℕ
  pub visibility : ℕ

pub record ElfFile : Type 0 where
  pub header : ElfHeader
  pub segments : List Segment
  pub sections : List Section
  pub symbols : List Symbol
  pub dyn_symbols : List Symbol
  pub path : String

pub data TableError : Type 0 where
  seek_table : ℕ → IoError → TableError
  read_table_64 : IoError → TableError
  read_table_32 : IoError → TableError

pub data ElfError : Type 0 where
  read_header : IoError → ElfError
  invalid_magic : Bytes → ElfError
  unsupported_class : ℕ → ElfError
  unsupported_encoding : ℕ → ElfError
  parse_segments_error : TableError → ElfError
  parse_sections_error : TableError → ElfError
