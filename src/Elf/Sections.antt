-- ===== src/Elf/Sections.antt =====
-- internal/binary/elf.go, parseSections: the section header table and the names of its sections.
-- The reader's position is left out of the results: whatever is read next is read behind a Seek.
pub mod Layout
pub mod Strings
pub mod Table
use go_core_lab.Common.{
  ℕ, ◌+◌, ◌*◌, ◌-◌, suc, Bool, ◌&&◌, ◌||◌, not, Bytes, List, [], ◌∷◌, Option, none, some, length,
  drop, window, ByteOrder, Result, ok, err, panic, ◌>>=◌, ◌>>◌, wrap, Reader, IoError, read_full,
  seek, uint, table, if◌then◌else◌, ltb, leb, ◌==◌,
}
use go_core_lab.Elf.Types.{
  class64, sht_strtab, ElfHeader, Section, TableError, seek_table, read_table_64, read_table_32,
}

-- The entries at `off`, `shdrSize64` and `shdrSize32` bytes apart.
unfoldable pub section_64 : ByteOrder → Bytes → ℕ → Result TableError Section
section_64 bo buf i = do
  let off = i * 64
  name_off ← uint bo 4 buf off
  sh_type ← uint bo 4 buf (off + 4)
  flags ← uint bo 8 buf (off + 8)
  addr ← uint bo 8 buf (off + 16)
  offset ← uint bo 8 buf (off + 24)
  size ← uint bo 8 buf (off + 32)
  link ← uint bo 4 buf (off + 40)
  info ← uint bo 4 buf (off + 44)
  addr_align ← uint bo 8 buf (off + 48)
  ent_size ← uint bo 8 buf (off + 56)
  ok record {
    index = i;
    name = [];
    name_off = name_off;
    sh_type = sh_type;
    flags = flags;
    addr = addr;
    offset = offset;
    size = size;
    link = link;
    info = info;
    addr_align = addr_align;
    ent_size = ent_size;
  }

unfoldable pub section_32 : ByteOrder → Bytes → ℕ → Result TableError Section
section_32 bo buf i = do
  let off = i * 40
  name_off ← uint bo 4 buf off
  sh_type ← uint bo 4 buf (off + 4)
  flags ← uint bo 4 buf (off + 8)
  addr ← uint bo 4 buf (off + 12)
  offset ← uint bo 4 buf (off + 16)
  size ← uint bo 4 buf (off + 20)
  link ← uint bo 4 buf (off + 24)
  info ← uint bo 4 buf (off + 28)
  addr_align ← uint bo 4 buf (off + 32)
  ent_size ← uint bo 4 buf (off + 36)
  ok record {
    index = i;
    name = [];
    name_off = name_off;
    sh_type = sh_type;
    flags = flags;
    addr = addr;
    offset = offset;
    size = size;
    link = link;
    info = info;
    addr_align = addr_align;
    ent_size = ent_size;
  }

-- The loop of extractNullString: how far the first NUL is, or the end.
unfoldable pub null_distance : Bytes → ℕ
null_distance [] = 0
null_distance (x ∷ xs) = if x == 0 then 0 else suc (null_distance xs)

unfoldable pub extract_null_string : Bytes → ℕ → Bytes
extract_null_string strings offset =
    if leb (length strings) offset
    then []
    else window strings offset (null_distance (drop offset strings))

unfoldable pub get_section : List Section → ℕ → Option Section
get_section [] i = none
get_section (s ∷ ss) ℕ.zero = some s
get_section (s ∷ ss) (suc i) = get_section ss i

-- `make([]byte, n)` of a size that the file states: Go panics if it is more than can be allocated,
-- which depends on the platform and is the parameter `limit` here.
abbrev pub make_bytes {ℓ} : {E : Type ℓ} → ℕ → ℕ → Result E (Unit {0})
make_bytes limit n = if leb n limit then ok tt else panic

-- The whole of a string table, or the error of Seek or ReadFull.
unfoldable pub read_strings : Section → Reader → Result IoError Bytes
read_strings s r = do r ← seek s.offset r; (strings, r) ← read_full s.size r; ok strings

unfoldable pub with_name : Bytes → Section → Section
with_name strings s = record s { name = extract_null_string strings s.name_off }

unfoldable pub with_names : Bytes → List Section → List Section
with_names strings [] = []
with_names strings (s ∷ ss) = with_name strings s ∷ with_names strings ss

-- An error of the string table leaves the sections without names.
unfoldable pub name_sections :
    List Section → Result IoError Bytes → Result TableError (List Section)
name_sections sections (ok strings) = ok (with_names strings sections)
name_sections sections (err e) = ok sections
name_sections sections panic = panic

unfoldable pub resolve_names_in :
    ℕ → Reader → List Section → Option Section → Result TableError (List Section)
resolve_names_in limit r sections none = ok sections
resolve_names_in limit r sections (some str_sec) =
    if ltb 0 str_sec.size && str_sec.sh_type == sht_strtab
    then (make_bytes limit str_sec.size >> name_sections sections (read_strings str_sec r))
    else ok sections

-- `sections[h.ShStrIdx]` behind its test.
unfoldable pub string_section : List Section → ℕ → Option Section
string_section sections i =
    if ltb i (length sections) && not (i == 0) then get_section sections i else none

-- The table as it stands in the file, before the names are known.
unfoldable pub section_table : Reader → ElfHeader → ByteOrder → Result TableError (List Section)
section_table r h bo =
    if h.class == class64
    then (wrap read_table_64 (read_full (h.sh_num * 64) r) >>= λ (buf, r).
        table (section_64 bo buf) h.sh_num 0)
    else (wrap read_table_32 (read_full (h.sh_num * 40) r) >>= λ (buf, r).
        table (section_32 bo buf) h.sh_num 0)

unfoldable pub parse_sections :
    ℕ → Reader → ElfHeader → ByteOrder → Result TableError (List Section)
parse_sections limit r h bo =
    if h.sh_off == 0 || h.sh_num == 0
    then ok []
    else (wrap (seek_table h.sh_off) (seek h.sh_off r) >>= λ r. section_table r h bo >>= λ sections.
        resolve_names_in limit r sections (string_section sections h.sh_str_idx))
