-- ===== src/Elf/Segments.antt =====
-- internal/binary/elf_segments.go, parseSegments: the program header table.
pub mod Layout
pub mod Table
use go_core_lab.Common.{
  ℕ, ◌+◌, ◌*◌, ◌||◌, Bytes, List, [], ByteOrder, Result, ok, err, panic, ◌>>=◌, wrap, Reader,
  read_full, seek, uint, table, if◌then◌else◌, ◌==◌,
}
use go_core_lab.Elf.Types.{
  class64, ElfHeader, Segment, TableError, seek_table, read_table_64, read_table_32,
}

-- The entries at `off`, `phdrSize64` and `phdrSize32` bytes apart; the flags move with the class.
unfoldable pub segment_64 : ByteOrder → Bytes → ℕ → Result TableError Segment
segment_64 bo buf i = do
  let off = i * 56
  p_type ← uint bo 4 buf off
  flags ← uint bo 4 buf (off + 4)
  offset ← uint bo 8 buf (off + 8)
  v_addr ← uint bo 8 buf (off + 16)
  p_addr ← uint bo 8 buf (off + 24)
  file_size ← uint bo 8 buf (off + 32)
  mem_size ← uint bo 8 buf (off + 40)
  align ← uint bo 8 buf (off + 48)
  ok record {
    index = i;
    p_type = p_type;
    flags = flags;
    offset = offset;
    v_addr = v_addr;
    p_addr = p_addr;
    file_size = file_size;
    mem_size = mem_size;
    align = align;
  }

unfoldable pub segment_32 : ByteOrder → Bytes → ℕ → Result TableError Segment
segment_32 bo buf i = do
  let off = i * 32
  p_type ← uint bo 4 buf off
  offset ← uint bo 4 buf (off + 4)
  v_addr ← uint bo 4 buf (off + 8)
  p_addr ← uint bo 4 buf (off + 12)
  file_size ← uint bo 4 buf (off + 16)
  mem_size ← uint bo 4 buf (off + 20)
  flags ← uint bo 4 buf (off + 24)
  align ← uint bo 4 buf (off + 28)
  ok record {
    index = i;
    p_type = p_type;
    flags = flags;
    offset = offset;
    v_addr = v_addr;
    p_addr = p_addr;
    file_size = file_size;
    mem_size = mem_size;
    align = align;
  }

unfoldable pub segment_table : Reader → ElfHeader → ByteOrder → Result TableError (List Segment)
segment_table r h bo =
    if h.class == class64
    then (wrap read_table_64 (read_full (h.ph_num * 56) r) >>= λ (buf, r).
        table (segment_64 bo buf) h.ph_num 0)
    else (wrap read_table_32 (read_full (h.ph_num * 32) r) >>= λ (buf, r).
        table (segment_32 bo buf) h.ph_num 0)

unfoldable pub parse_segments : Reader → ElfHeader → ByteOrder → Result TableError (List Segment)
parse_segments r h bo =
    if h.ph_off == 0 || h.ph_num == 0
    then ok []
    else (wrap (seek_table h.ph_off) (seek h.ph_off r) >>= λ r. segment_table r h bo)
