-- ===== src/Elf/Reader/Whole.antt =====
-- internal/binary/elf.go, ParseELFReader: a whole file in the format of ELF.
use Prim.Native.String.{String}
use go_core_lab.Common.{
  ℕ, ◌^◌, ◌<◌, ◌≡◌, Bool, Bytes, List, [], ◌++◌, some, length, ByteOrder, Reader, remaining,
  advance, at_offset, read_full_at,
}
use go_core_lab.Elf.Types.{ElfHeader, Section, Segment}
use go_core_lab.Elf.Header.Layout.{Ignored, Fits, encode_header, parse_header-encode}
use go_core_lab.Elf.Sections.{string_section, with_names}
use go_core_lab.Elf.Sections.Table.{StringsAt, parse_sections-finds}
use go_core_lab.Elf.Segments.Table.{parse_segments-finds}
use go_core_lab.Elf.Sections
use go_core_lab.Elf.Segments
use go_core_lab.Elf.Reader.{extract_symbols, parse_elf_reader}

-- The parts of a file: header, program header table, section header table and section names, and
-- the bytes behind each.
pub record Parts : Type 0 where
  pub header : ElfHeader
  pub ignored : Ignored
  pub segments : List Segment
  pub sections : List Section
  pub str_sec : Section
  pub strings : Bytes
  pub behind_header : Bytes
  pub behind_segments : Bytes
  pub behind_sections : Bytes
  pub behind_strings : Bytes

-- A reader at the beginning of such a file, with each part where the header says.
pub record Holds (wide : Bool) (o : ByteOrder) (limit : ℕ) (p : Parts) (r : Reader) : Type 0 where
  pub fits : Fits wide o p.header p.ignored
  pub length_header : length (encode_header wide o p.header p.ignored) ≡ 64
  pub header_here : remaining r ≡ encode_header wide o p.header p.ignored ++ p.behind_header
  pub ph_off : 0 < p.header.ph_off
  pub ph_off_fits : p.header.ph_off < 2 ^ 63
  pub ph_num : 0 < p.header.ph_num
  pub segments_here :
      Segments.Table.TableAt wide p.header o p.segments p.behind_segments
        (at_offset p.header.ph_off (advance 64 r))
  pub sh_off : 0 < p.header.sh_off
  pub sh_off_fits : p.header.sh_off < 2 ^ 63
  pub sh_num : 0 < p.header.sh_num
  pub sections_here :
      Sections.Table.TableAt wide p.header o p.sections p.behind_sections
        (at_offset p.header.sh_off (advance 64 r))
  pub names : string_section p.sections p.header.sh_str_idx ≡ some p.str_sec
  pub strings_here : StringsAt limit r.bytes p.str_sec p.strings p.behind_strings

module _ (wide : Bool) (o : ByteOrder) (limit : ℕ) (p : Parts) (r : Reader) (path : String) where
  -- ParseELFReader makes of a file of either class and byte order, whose header, segments, sections
  -- and section names are each where the header says, the file with that header, those segments and
  -- those sections with their names, and then reads the symbol tables among those sections.
  pub parse_elf_reader-finds :
      Holds wide o limit p r
      → parse_elf_reader limit r path
        ≡ extract_symbols limit (advance 64 r) o (with_names p.strings p.sections) record {
          header = p.header;
          segments = p.segments;
          sections = with_names p.strings p.sections;
          symbols = [];
          dyn_symbols = [];
          path = path;
        }
  unfolding parse_elf_reader
  parse_elf_reader-finds is = rw (
    read_full_at (encode_header wide o p.header p.ignored) p.behind_header 64 r is.length_header
        is.header_here,
    parse_header-encode o p.header p.ignored wide is.fits,
    parse_segments-finds wide p.header o p.segments p.behind_segments (advance 64 r) is.ph_off
        is.ph_off_fits is.ph_num is.segments_here,
    parse_sections-finds wide p.header o p.sections p.behind_sections limit (advance 64 r) p.str_sec
        p.strings p.behind_strings is.sh_off is.sh_off_fits is.sh_num is.sections_here is.names
        is.strings_here,
  )
