-- ===== src/Elf/Header.antt =====
-- internal/binary/elf.go, ParseELFReader: the identification and the file header.
pub mod Layout
pub mod Errors
use go_core_lab.Common.{
  ℕ, ◌+◌, Bool, ◌&&◌, Bytes, ByteOrder, little_endian, big_endian, Result, ok, err, panic, ◌>>=◌,
  ◌>>◌, guard, index, slice, uint, if◌then◌else◌, ◌==◌, ◌||◌,
}
use go_core_lab.Elf.Types.{
  class32, class64, data_le, data_be, ElfHeader, ElfError, invalid_magic, unsupported_class,
  unsupported_encoding,
}

-- `raw[0] != elfMagic[0] || ...`, the other way round; each byte is looked at if the ones before fit.
unfoldable pub check_magic : Bytes → Result ElfError (Unit {0})
check_magic raw = do
  b0 ← index raw 0
  b1 ← index raw 1
  b2 ← index raw 2
  b3 ← index raw 3
  start ← slice raw 0 4
  guard (b0 == 0x7f && b1 == 0x45 && b2 == 0x4c && b3 == 0x46) (invalid_magic start)

unfoldable pub byte_order : ℕ → Result ElfError ByteOrder
byte_order d =
    if d == data_le
    then ok little_endian
    else if d == data_be
    then ok big_endian
    else err (unsupported_encoding d)

-- The fields whose place depends on the class.
unfoldable pub header_fields_64 : ByteOrder → Bytes → ElfHeader → Result ElfError ElfHeader
header_fields_64 bo raw h = do
  entry ← uint bo 8 raw 24
  ph_off ← uint bo 8 raw 32
  sh_off ← uint bo 8 raw 40
  ph_ent_size ← uint bo 2 raw 54
  ph_num ← uint bo 2 raw 56
  sh_ent_size ← uint bo 2 raw 58
  sh_num ← uint bo 2 raw 60
  sh_str_idx ← uint bo 2 raw 62
  ok record h {
    entry = entry;
    ph_off = ph_off;
    sh_off = sh_off;
    ph_ent_size = ph_ent_size;
    ph_num = ph_num;
    sh_ent_size = sh_ent_size;
    sh_num = sh_num;
    sh_str_idx = sh_str_idx;
  }

unfoldable pub header_fields_32 : ByteOrder → Bytes → ElfHeader → Result ElfError ElfHeader
header_fields_32 bo raw h = do
  entry ← uint bo 4 raw 24
  ph_off ← uint bo 4 raw 28
  sh_off ← uint bo 4 raw 32
  ph_ent_size ← uint bo 2 raw 42
  ph_num ← uint bo 2 raw 44
  sh_ent_size ← uint bo 2 raw 46
  sh_num ← uint bo 2 raw 48
  sh_str_idx ← uint bo 2 raw 50
  ok record h {
    entry = entry;
    ph_off = ph_off;
    sh_off = sh_off;
    ph_ent_size = ph_ent_size;
    ph_num = ph_num;
    sh_ent_size = sh_ent_size;
    sh_num = sh_num;
    sh_str_idx = sh_str_idx;
  }

-- `&ELFFile{Path: path}`, its header.
unfoldable pub zero_header : ElfHeader
zero_header = record {
  class = 0;
  data_encoding = 0;
  machine = 0;
  entry = 0;
  ph_off = 0;
  sh_off = 0;
  ph_ent_size = 0;
  ph_num = 0;
  sh_ent_size = 0;
  sh_num = 0;
  sh_str_idx = 0;
}

unfoldable pub parse_header : Bytes → Result ElfError (ElfHeader × ByteOrder)
parse_header raw = do
  check_magic raw
  class ← index raw 4
  data_encoding ← index raw 5
  guard (class == class32 || class == class64) (unsupported_class class)
  bo ← byte_order data_encoding
  machine ← uint bo 2 raw 18
  let h = record zero_header { class = class; data_encoding = data_encoding; machine = machine }
  h ← if class == class64 then header_fields_64 bo raw h else header_fields_32 bo raw h
  ok (h, bo)
