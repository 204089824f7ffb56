-- ===== src/Elf/Header/Layout.antt =====
-- internal/binary/elf.go, ParseELFReader: file headers in the format of ELF.
use go_core_lab.Common.{
  ℕ, ◌^◌, ◌<◌, ◌≡◌, refl, Bool, true, false, Bytes, [], ◌∷◌, ◌++◌, length, take, drop, ByteOrder,
  little_endian, big_endian, ok, Layout, encode_layout, uint, slice, uint_field, arith, index,
  index_lem, slice_lem,
}
use go_core_lab.Elf.Types.{class32, class64, data_le, data_be, ElfHeader, ElfError}
use go_core_lab.Elf.Header.{
  check_magic, byte_order, header_fields_64, header_fields_32, zero_header, parse_header,
}

-- The fields of the file header that the parser does not look at.
pub record Ignored : Type 0 where
  pub reserved : Bytes
  pub kind : ℕ
  pub version : ℕ
  pub flags : ℕ
  pub eh_size : ℕ
  pub padding : Bytes

abbrev pub layout_64 : ElfHeader → Ignored → Layout
layout_64 h g =
    (2, g.kind)
    ∷ (2, h.machine)
    ∷ (4, g.version)
    ∷ (8, h.entry)
    ∷ (8, h.ph_off)
    ∷ (8, h.sh_off)
    ∷ (4, g.flags)
    ∷ (2, g.eh_size)
    ∷ (2, h.ph_ent_size)
    ∷ (2, h.ph_num)
    ∷ (2, h.sh_ent_size)
    ∷ (2, h.sh_num)
    ∷ (2, h.sh_str_idx)
    ∷ []

abbrev pub layout_32 : ElfHeader → Ignored → Layout
layout_32 h g =
    (2, g.kind)
    ∷ (2, h.machine)
    ∷ (4, g.version)
    ∷ (4, h.entry)
    ∷ (4, h.ph_off)
    ∷ (4, h.sh_off)
    ∷ (4, g.flags)
    ∷ (2, g.eh_size)
    ∷ (2, h.ph_ent_size)
    ∷ (2, h.ph_num)
    ∷ (2, h.sh_ent_size)
    ∷ (2, h.sh_num)
    ∷ (2, h.sh_str_idx)
    ∷ []

abbrev pub layout : Bool → ElfHeader → Ignored → Layout
layout true h g = layout_64 h g
layout false h g = layout_32 h g

abbrev pub class_of : Bool → ℕ
class_of true = class64
class_of false = class32

abbrev pub data_of : ByteOrder → ℕ
data_of little_endian = data_le
data_of big_endian = data_be

abbrev pub ident : Bool → ByteOrder → Ignored → Bytes
ident wide o g = 0x7f ∷ 0x45 ∷ 0x4c ∷ 0x46 ∷ class_of wide ∷ data_of o ∷ g.reserved

unfoldable pub encode_header : Bool → ByteOrder → ElfHeader → Ignored → Bytes
encode_header wide o h g = ident wide o g ++ (encode_layout o (layout wide h g) ++ g.padding)

abbrev pub word : Bool → ℕ
word true = 8
word false = 4

-- Fields in the range of their integers.
pub record Fits (wide : Bool) (o : ByteOrder) (h : ElfHeader) (g : Ignored) : Type 0 where
  pub class : h.class ≡ class_of wide
  pub data_encoding : h.data_encoding ≡ data_of o
  pub machine : h.machine < 256 ^ 2
  pub entry : h.entry < 256 ^ word wide
  pub ph_off : h.ph_off < 256 ^ word wide
  pub sh_off : h.sh_off < 256 ^ word wide
  pub ph_ent_size : h.ph_ent_size < 256 ^ 2
  pub ph_num : h.ph_num < 256 ^ 2
  pub sh_ent_size : h.sh_ent_size < 256 ^ 2
  pub sh_num : h.sh_num < 256 ^ 2
  pub sh_str_idx : h.sh_str_idx < 256 ^ 2
  pub reserved : length g.reserved ≡ 10

module _ (o : ByteOrder) (h h' : ElfHeader) (g : Ignored) (fits : Fits true o h g) where
  start_64 : length (ident true o g) ≡ 16
  start_64 = omega (arith, fits.reserved)

  machine_64 : uint {E = ElfError} o 2 (encode_header true o h g) 18 ≡ ok h.machine
  unfolding encode_header
  machine_64 =
      uint_field o (ident true o g) g.padding 16 start_64 (take 1 (layout_64 h g))
        (drop 2 (layout_64 h g)) 2 h.machine 18 (omega arith) fits.machine

  fields_64 :
      header_fields_64 o (encode_header true o h g) h'
      ≡ ok record h { class = h'.class; data_encoding = h'.data_encoding; machine = h'.machine }
  unfolding header_fields_64 encode_header
  fields_64 = rw (
    uint_field o (ident true o g) g.padding 16 start_64 (take 3 (layout_64 h g))
        (drop 4 (layout_64 h g)) 8 h.entry 24 (omega arith) fits.entry,
    uint_field o (ident true o g) g.padding 16 start_64 (take 4 (layout_64 h g))
        (drop 5 (layout_64 h g)) 8 h.ph_off 32 (omega arith) fits.ph_off,
    uint_field o (ident true o g) g.padding 16 start_64 (take 5 (layout_64 h g))
        (drop 6 (layout_64 h g)) 8 h.sh_off 40 (omega arith) fits.sh_off,
    uint_field o (ident true o g) g.padding 16 start_64 (take 8 (layout_64 h g))
        (drop 9 (layout_64 h g)) 2 h.ph_ent_size 54 (omega arith) fits.ph_ent_size,
    uint_field o (ident true o g) g.padding 16 start_64 (take 9 (layout_64 h g))
        (drop 10 (layout_64 h g)) 2 h.ph_num 56 (omega arith) fits.ph_num,
    uint_field o (ident true o g) g.padding 16 start_64 (take 10 (layout_64 h g))
        (drop 11 (layout_64 h g)) 2 h.sh_ent_size 58 (omega arith) fits.sh_ent_size,
    uint_field o (ident true o g) g.padding 16 start_64 (take 11 (layout_64 h g))
        (drop 12 (layout_64 h g)) 2 h.sh_num 60 (omega arith) fits.sh_num,
    uint_field o (ident true o g) g.padding 16 start_64 (take 12 (layout_64 h g))
        (drop 13 (layout_64 h g)) 2 h.sh_str_idx 62 (omega arith) fits.sh_str_idx,
  )

module _ (o : ByteOrder) (h h' : ElfHeader) (g : Ignored) (fits : Fits false o h g) where
  start_32 : length (ident false o g) ≡ 16
  start_32 = omega (arith, fits.reserved)

  machine_32 : uint {E = ElfError} o 2 (encode_header false o h g) 18 ≡ ok h.machine
  unfolding encode_header
  machine_32 =
      uint_field o (ident false o g) g.padding 16 start_32 (take 1 (layout_32 h g))
        (drop 2 (layout_32 h g)) 2 h.machine 18 (omega arith) fits.machine

  fields_32 :
      header_fields_32 o (encode_header false o h g) h'
      ≡ ok record h { class = h'.class; data_encoding = h'.data_encoding; machine = h'.machine }
  unfolding header_fields_32 encode_header
  fields_32 = rw (
    uint_field o (ident false o g) g.padding 16 start_32 (take 3 (layout_32 h g))
        (drop 4 (layout_32 h g)) 4 h.entry 24 (omega arith) fits.entry,
    uint_field o (ident false o g) g.padding 16 start_32 (take 4 (layout_32 h g))
        (drop 5 (layout_32 h g)) 4 h.ph_off 28 (omega arith) fits.ph_off,
    uint_field o (ident false o g) g.padding 16 start_32 (take 5 (layout_32 h g))
        (drop 6 (layout_32 h g)) 4 h.sh_off 32 (omega arith) fits.sh_off,
    uint_field o (ident false o g) g.padding 16 start_32 (take 8 (layout_32 h g))
        (drop 9 (layout_32 h g)) 2 h.ph_ent_size 42 (omega arith) fits.ph_ent_size,
    uint_field o (ident false o g) g.padding 16 start_32 (take 9 (layout_32 h g))
        (drop 10 (layout_32 h g)) 2 h.ph_num 44 (omega arith) fits.ph_num,
    uint_field o (ident false o g) g.padding 16 start_32 (take 10 (layout_32 h g))
        (drop 11 (layout_32 h g)) 2 h.sh_ent_size 46 (omega arith) fits.sh_ent_size,
    uint_field o (ident false o g) g.padding 16 start_32 (take 11 (layout_32 h g))
        (drop 12 (layout_32 h g)) 2 h.sh_num 48 (omega arith) fits.sh_num,
    uint_field o (ident false o g) g.padding 16 start_32 (take 12 (layout_32 h g))
        (drop 13 (layout_32 h g)) 2 h.sh_str_idx 50 (omega arith) fits.sh_str_idx,
  )

magic_accepted : (b : Bytes) → check_magic (0x7f ∷ 0x45 ∷ 0x4c ∷ 0x46 ∷ b) ≡ ok tt
unfolding check_magic index slice
magic_accepted b =
    let raw = 0x7f ∷ 0x45 ∷ 0x4c ∷ 0x46 ∷ b in
    rw (
      index_lem raw 0 (omega arith),
      index_lem raw 1 (omega arith),
      index_lem raw 2 (omega arith),
      index_lem raw 3 (omega arith),
      slice_lem raw 0 4 (omega arith) (omega arith),
    )

byte_order_lem : (o : ByteOrder) → byte_order (data_of o) ≡ ok o
unfolding byte_order
byte_order_lem little_endian = refl
byte_order_lem big_endian = refl

module _ (wide : Bool) (o : ByteOrder) (h : ElfHeader) (g : Ignored) where
  accepted : check_magic (encode_header wide o h g) ≡ ok tt
  unfolding encode_header
  accepted = magic_accepted _

  class_at : index {E = ElfError} (encode_header wide o h g) 4 ≡ ok (class_of wide)
  unfolding encode_header
  class_at = index_lem (ident wide o g ++ _) 4 (omega arith)

  data_at : index {E = ElfError} (encode_header wide o h g) 5 ≡ ok (data_of o)
  unfolding encode_header
  data_at = index_lem (ident wide o g ++ _) 5 (omega arith)

module _ (o : ByteOrder) (h : ElfHeader) (g : Ignored) where
  -- ParseELFReader makes of a file header of either class and byte order, whose fields are in the
  -- range of their integers, the class, the order and every field that it keeps.
  pub parse_header-encode :
      (wide : Bool) → Fits wide o h g → parse_header (encode_header wide o h g) ≡ ok (h, o)
  unfolding parse_header
  parse_header-encode true fits = rw (
    accepted true o h g,
    class_at true o h g,
    data_at true o h g,
    byte_order_lem o,
    machine_64 o h zero_header g fits,
    fields_64 o h _ g fits,
    ← fits.class,
    ← fits.data_encoding,
  )
  parse_header-encode false fits = rw (
    accepted false o h g,
    class_at false o h g,
    data_at false o h g,
    byte_order_lem o,
    machine_32 o h zero_header g fits,
    fields_32 o h _ g fits,
    ← fits.class,
    ← fits.data_encoding,
  )
