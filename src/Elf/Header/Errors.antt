-- ===== src/Elf/Header/Errors.antt =====
-- internal/binary/elf.go, ParseELFReader: which file headers are refused, and why.
use go_core_lab.Common.{
  ℕ, ◌+◌, ◌≡◌, Bool, ◌&&◌, ◌||◌, Bool-cases, inl, inr, Bytes, length, take, byte, window, ByteOrder,
  little_endian, big_endian, decode, Result, index, uint, ok, err, guard, index_lem, slice_lem,
  uint_lem, if◌then◌else◌, ◌==◌, arith,
}
use go_core_lab.Elf.Types.{
  class32, class64, data_le, data_be, ElfHeader, ElfError, invalid_magic, unsupported_class,
  unsupported_encoding,
}
use go_core_lab.Elf.Header.{
  check_magic, byte_order, header_fields_64, header_fields_32, zero_header, parse_header,
}

abbrev pub starts_as_elf : Bytes → Bool
starts_as_elf b = byte b 0 == 0x7f && byte b 1 == 0x45 && byte b 2 == 0x4c && byte b 3 == 0x46

abbrev pub known_class : Bytes → Bool
known_class b = byte b 4 == class32 || byte b 4 == class64

-- The fields of a header, at the offsets of its class, whose words have `w` bytes.
abbrev pub fields_at : ByteOrder → Bytes → ℕ → ℕ → ℕ → ℕ → ElfHeader
fields_at o b w off_ph off_sh off_sizes = record {
  class = byte b 4;
  data_encoding = byte b 5;
  machine = decode o (window b 18 2);
  entry = decode o (window b 24 w);
  ph_off = decode o (window b off_ph w);
  sh_off = decode o (window b off_sh w);
  ph_ent_size = decode o (window b off_sizes 2);
  ph_num = decode o (window b (off_sizes + 2) 2);
  sh_ent_size = decode o (window b (off_sizes + 4) 2);
  sh_num = decode o (window b (off_sizes + 6) 2);
  sh_str_idx = decode o (window b (off_sizes + 8) 2);
}

abbrev pub header_in : ByteOrder → Bytes → ElfHeader
header_in o b = if byte b 4 == class64 then fields_at o b 8 32 40 54 else fields_at o b 4 28 32 42

-- What becomes of the first 64 bytes of a file.
abbrev pub described : Bytes → Result ElfError (ElfHeader × ByteOrder)
described b =
    if starts_as_elf b
    then (if known_class b
        then (if byte b 5 == data_le
            then ok (header_in little_endian b, little_endian)
            else if byte b 5 == data_be
            then ok (header_in big_endian b, big_endian)
            else err (unsupported_encoding (byte b 5)))
        else err (unsupported_class (byte b 4)))
    else err (invalid_magic (take 4 b))

module _ (b : Bytes) (len : length b ≡ 64) where
  check_magic_lem : check_magic b ≡ guard (starts_as_elf b) (invalid_magic (take 4 b))
  unfolding check_magic
  check_magic_lem = rw (
    index_lem b 0 (omega (arith, len)),
    index_lem b 1 (omega (arith, len)),
    index_lem b 2 (omega (arith, len)),
    index_lem b 3 (omega (arith, len)),
    slice_lem b 0 4 (omega arith) (omega (arith, len)),
  )

  module _ (o : ByteOrder) where
    abbrev start : ElfHeader
    start = record zero_header {
      class = byte b 4;
      data_encoding = byte b 5;
      machine = decode o (window b 18 2);
    }

    at_64 : header_fields_64 o b start ≡ ok (fields_at o b 8 32 40 54)
    unfolding header_fields_64
    at_64 = rw (
      uint_lem o 8 b 24 (omega (arith, len)),
      uint_lem o 8 b 32 (omega (arith, len)),
      uint_lem o 8 b 40 (omega (arith, len)),
      uint_lem o 2 b 54 (omega (arith, len)),
      uint_lem o 2 b 56 (omega (arith, len)),
      uint_lem o 2 b 58 (omega (arith, len)),
      uint_lem o 2 b 60 (omega (arith, len)),
      uint_lem o 2 b 62 (omega (arith, len)),
    )

    at_32 : header_fields_32 o b start ≡ ok (fields_at o b 4 28 32 42)
    unfolding header_fields_32
    at_32 = rw (
      uint_lem o 4 b 24 (omega (arith, len)),
      uint_lem o 4 b 28 (omega (arith, len)),
      uint_lem o 4 b 32 (omega (arith, len)),
      uint_lem o 2 b 42 (omega (arith, len)),
      uint_lem o 2 b 44 (omega (arith, len)),
      uint_lem o 2 b 46 (omega (arith, len)),
      uint_lem o 2 b 48 (omega (arith, len)),
      uint_lem o 2 b 50 (omega (arith, len)),
    )

    fields_lem :
        (if byte b 4 == class64 then header_fields_64 o b start else header_fields_32 o b start)
        ≡ ok (header_in o b)
    fields_lem = elim (Bool-cases (byte b 4 == class64)) [
      | inl e ↦ rw (e, at_64)
      | inr e ↦ rw (e, at_32)
    ]

  class_at : index {E = ElfError} b 4 ≡ ok (byte b 4)
  class_at = index_lem b 4 (omega (arith, len))

  data_at : index {E = ElfError} b 5 ≡ ok (byte b 5)
  data_at = index_lem b 5 (omega (arith, len))

  machine_at : (o : ByteOrder) → uint {E = ElfError} o 2 b 18 ≡ ok (decode o (window b 18 2))
  machine_at o = uint_lem o 2 b 18 (omega (arith, len))

  -- Of the first 64 bytes of a file ParseELFReader refuses a wrong magic number first, then a class
  -- that is neither 32 nor 64 bits, then an unknown byte order, each with the bytes at fault; and
  -- otherwise it takes each field from the offset that its class gives, without a panic.
  pub parse_header-described : parse_header b ≡ described b
  unfolding parse_header byte_order
  parse_header-described = elim (Bool-cases (starts_as_elf b)) [
    | inr e ↦ rw (check_magic_lem, e)
    | inl e ↦ elim (Bool-cases (known_class b)) [
      | inr c ↦ rw (check_magic_lem, e, class_at, data_at, c)
      | inl c ↦ elim (Bool-cases (byte b 5 == data_le)) [
        | inl l ↦ rw (
          check_magic_lem,
          e,
          class_at,
          data_at,
          c,
          l,
          machine_at little_endian,
          fields_lem little_endian,
        )
        | inr l ↦ elim (Bool-cases (byte b 5 == data_be)) [
          | inl k ↦ rw (
            check_magic_lem,
            e,
            class_at,
            data_at,
            c,
            l,
            k,
            machine_at big_endian,
            fields_lem big_endian,
          )
          | inr k ↦ rw (check_magic_lem, e, class_at, data_at, c, l, k)
        ]
      ]
    ]
  ]
