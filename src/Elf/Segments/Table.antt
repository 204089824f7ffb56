-- ===== src/Elf/Segments/Table.antt =====
-- internal/binary/elf_segments.go, parseSegments: a table in the format of ELF.
use go_core_lab.Common.{
  ◌^◌, ◌<◌, ◌≡◌, Bool, true, false, Bytes, List, ◌++◌, length, All, ByteOrder, ok, Reader,
  remaining, length-encode_layout, encode_layout, encode_table, Numbered, Format, read_table, ◌==◌,
  positive→not_zero, seek_lem, at_offset,
}
use go_core_lab.Elf.Types.{class64, ElfHeader, Segment, TableError, read_table_64, read_table_32}
use go_core_lab.Elf.Segments.{segment_64, segment_32, segment_table, parse_segments}
use go_core_lab.Elf.Segments.Layout.{layout_64, layout_32, Fits, segment_64_at, segment_32_at}

-- The segments of a class, which has words of 64 bits or of 32.
abbrev pub format : Bool → ByteOrder → Format TableError Segment
format true o = record {
  Kept = Fits 8;
  number = λ s. s.index;
  width = 56;
  encode = λ s. encode_layout o (layout_64 s);
  length-encode = λ s. length-encode_layout o (layout_64 s);
  entry = segment_64 o;
  entry_at = segment_64_at o;
}
format false o = record {
  Kept = Fits 4;
  number = λ s. s.index;
  width = 32;
  encode = λ s. encode_layout o (layout_32 s);
  length-encode = λ s. length-encode_layout o (layout_32 s);
  entry = segment_32 o;
  entry_at = segment_32_at o;
}

-- A reader in front of the table of the segments `ss`, which are numbered from 0.
pub record TableAt (wide : Bool) (h : ElfHeader) (o : ByteOrder) (ss : List Segment) (rest : Bytes)
    (r : Reader) : Type 0 where
  pub class : (h.class == class64) ≡ wide
  pub count : h.ph_num ≡ length ss
  pub numbered : Numbered (λ (s : Segment). s.index) 0 ss
  pub kept : All (format wide o).Kept ss
  pub here : remaining r ≡ encode_table (format wide o).encode ss ++ rest

segment_table_at :
    (wide : Bool) (h : ElfHeader) (o : ByteOrder) (ss : List Segment) (rest : Bytes) (r : Reader)
    → TableAt wide h o ss rest r
    → segment_table r h o ≡ ok ss
unfolding segment_table
segment_table_at true h o ss rest r at = rw (
  at.class,
  at.count,
  read_table (format true o) read_table_64 ss rest r at.here at.numbered at.kept,
)
segment_table_at false h o ss rest r at = rw (
  at.class,
  at.count,
  read_table (format false o) read_table_32 ss rest r at.here at.numbered at.kept,
)

module _ (wide : Bool) (h : ElfHeader) (o : ByteOrder) (ss : List Segment) (rest : Bytes)
    (r : Reader) where
  -- Where the file has a program header table of either class and byte order, with its entries
  -- numbered from 0 and in the range of their integers, parseSegments returns those segments.
  pub parse_segments-finds :
      0 < h.ph_off
      → h.ph_off < 2 ^ 63
      → 0 < h.ph_num
      → TableAt wide h o ss rest (at_offset h.ph_off r)
      → parse_segments r h o ≡ ok ss
  unfolding parse_segments
  parse_segments-finds off off_fits num at = rw (
    positive→not_zero h.ph_off off,
    positive→not_zero h.ph_num num,
    seek_lem h.ph_off r off_fits,
    segment_table_at wide h o ss rest (at_offset h.ph_off r) at,
  )
