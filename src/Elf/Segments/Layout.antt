-- ===== src/Elf/Segments/Layout.antt =====
-- internal/binary/elf_segments.go, parseSegments: the entries of the table in the format of ELF.
use go_core_lab.Common.{
  ℕ, ◌+◌, ◌*◌, ◌^◌, ◌<◌, ◌≡◌, Bytes, [], ◌∷◌, ◌++◌, length, ByteOrder, ok, Layout, take, drop,
  encode_layout, uint_field, arith,
}
use go_core_lab.Elf.Types.{Segment}
use go_core_lab.Elf.Segments.{segment_64, segment_32}

-- The fields of an entry of 64 and of 32 bits, each in its own order.
abbrev pub layout_64 : Segment → Layout
layout_64 s =
    (4, s.p_type)
    ∷ (4, s.flags)
    ∷ (8, s.offset)
    ∷ (8, s.v_addr)
    ∷ (8, s.p_addr)
    ∷ (8, s.file_size)
    ∷ (8, s.mem_size)
    ∷ (8, s.align)
    ∷ []

abbrev pub layout_32 : Segment → Layout
layout_32 s =
    (4, s.p_type)
    ∷ (4, s.offset)
    ∷ (4, s.v_addr)
    ∷ (4, s.p_addr)
    ∷ (4, s.file_size)
    ∷ (4, s.mem_size)
    ∷ (4, s.flags)
    ∷ (4, s.align)
    ∷ []

-- A segment whose fields fit a word of `w` bytes, or 4 bytes.
pub record Fits (w : ℕ) (s : Segment) : Type 0 where
  pub p_type : s.p_type < 256 ^ 4
  pub flags : s.flags < 256 ^ 4
  pub offset : s.offset < 256 ^ w
  pub v_addr : s.v_addr < 256 ^ w
  pub p_addr : s.p_addr < 256 ^ w
  pub file_size : s.file_size < 256 ^ w
  pub mem_size : s.mem_size < 256 ^ w
  pub align : s.align < 256 ^ w

module _ (o : ByteOrder) (start rest : Bytes) (s : Segment) where
  pub segment_64_at :
      (i : ℕ)
      → length start ≡ i * 56
      → s.index ≡ i
      → Fits 8 s
      → segment_64 o (start ++ (encode_layout o (layout_64 s) ++ rest)) i ≡ ok s
  unfolding segment_64
  segment_64_at i len number fits = rw (
    uint_field o start rest (i * 56) len (take 0 (layout_64 s)) (drop 1 (layout_64 s)) 4 s.p_type
        (i * 56) (omega arith) fits.p_type,
    uint_field o start rest (i * 56) len (take 1 (layout_64 s)) (drop 2 (layout_64 s)) 4 s.flags
        (i * 56 + 4) (omega arith) fits.flags,
    uint_field o start rest (i * 56) len (take 2 (layout_64 s)) (drop 3 (layout_64 s)) 8 s.offset
        (i * 56 + 8) (omega arith) fits.offset,
    uint_field o start rest (i * 56) len (take 3 (layout_64 s)) (drop 4 (layout_64 s)) 8 s.v_addr
        (i * 56 + 16) (omega arith) fits.v_addr,
    uint_field o start rest (i * 56) len (take 4 (layout_64 s)) (drop 5 (layout_64 s)) 8 s.p_addr
        (i * 56 + 24) (omega arith) fits.p_addr,
    uint_field o start rest (i * 56) len (take 5 (layout_64 s)) (drop 6 (layout_64 s)) 8 s.file_size
        (i * 56 + 32) (omega arith) fits.file_size,
    uint_field o start rest (i * 56) len (take 6 (layout_64 s)) (drop 7 (layout_64 s)) 8 s.mem_size
        (i * 56 + 40) (omega arith) fits.mem_size,
    uint_field o start rest (i * 56) len (take 7 (layout_64 s)) (drop 8 (layout_64 s)) 8 s.align
        (i * 56 + 48) (omega arith) fits.align,
    ← number,
  )

  pub segment_32_at :
      (i : ℕ)
      → length start ≡ i * 32
      → s.index ≡ i
      → Fits 4 s
      → segment_32 o (start ++ (encode_layout o (layout_32 s) ++ rest)) i ≡ ok s
  unfolding segment_32
  segment_32_at i len number fits = rw (
    uint_field o start rest (i * 32) len (take 0 (layout_32 s)) (drop 1 (layout_32 s)) 4 s.p_type
        (i * 32) (omega arith) fits.p_type,
    uint_field o start rest (i * 32) len (take 1 (layout_32 s)) (drop 2 (layout_32 s)) 4 s.offset
        (i * 32 + 4) (omega arith) fits.offset,
    uint_field o start rest (i * 32) len (take 2 (layout_32 s)) (drop 3 (layout_32 s)) 4 s.v_addr
        (i * 32 + 8) (omega arith) fits.v_addr,
    uint_field o start rest (i * 32) len (take 3 (layout_32 s)) (drop 4 (layout_32 s)) 4 s.p_addr
        (i * 32 + 12) (omega arith) fits.p_addr,
    uint_field o start rest (i * 32) len (take 4 (layout_32 s)) (drop 5 (layout_32 s)) 4 s.file_size
        (i * 32 + 16) (omega arith) fits.file_size,
    uint_field o start rest (i * 32) len (take 5 (layout_32 s)) (drop 6 (layout_32 s)) 4 s.mem_size
        (i * 32 + 20) (omega arith) fits.mem_size,
    uint_field o start rest (i * 32) len (take 6 (layout_32 s)) (drop 7 (layout_32 s)) 4 s.flags
        (i * 32 + 24) (omega arith) fits.flags,
    uint_field o start rest (i * 32) len (take 7 (layout_32 s)) (drop 8 (layout_32 s)) 4 s.align
        (i * 32 + 28) (omega arith) fits.align,
    ← number,
  )
