-- ===== src/Elf/Sections/Layout.antt =====
-- internal/binary/elf.go, parseSections: the entries of the table in the format of ELF.
use go_core_lab.Common.{
  ℕ, ◌+◌, ◌*◌, ◌^◌, ◌<◌, ◌≡◌, Bytes, [], ◌∷◌, ◌++◌, length, ByteOrder, ok, Layout, take, drop,
  encode_layout, uint_field, arith,
}
use go_core_lab.Elf.Types.{Section}
use go_core_lab.Elf.Sections.{section_64, section_32}

-- The fields of an entry of 64 and of 32 bits.
abbrev pub layout_64 : Section → Layout
layout_64 s =
    (4, s.name_off)
    ∷ (4, s.sh_type)
    ∷ (8, s.flags)
    ∷ (8, s.addr)
    ∷ (8, s.offset)
    ∷ (8, s.size)
    ∷ (4, s.link)
    ∷ (4, s.info)
    ∷ (8, s.addr_align)
    ∷ (8, s.ent_size)
    ∷ []

abbrev pub layout_32 : Section → Layout
layout_32 s =
    (4, s.name_off)
    ∷ (4, s.sh_type)
    ∷ (4, s.flags)
    ∷ (4, s.addr)
    ∷ (4, s.offset)
    ∷ (4, s.size)
    ∷ (4, s.link)
    ∷ (4, s.info)
    ∷ (4, s.addr_align)
    ∷ (4, s.ent_size)
    ∷ []

-- A section without a name whose fields fit a word of `w` bytes, or 4 bytes.
pub record Fits (w : ℕ) (s : Section) : Type 0 where
  pub name : s.name ≡ []
  pub name_off : s.name_off < 256 ^ 4
  pub sh_type : s.sh_type < 256 ^ 4
  pub flags : s.flags < 256 ^ w
  pub addr : s.addr < 256 ^ w
  pub offset : s.offset < 256 ^ w
  pub size : s.size < 256 ^ w
  pub link : s.link < 256 ^ 4
  pub info : s.info < 256 ^ 4
  pub addr_align : s.addr_align < 256 ^ w
  pub ent_size : s.ent_size < 256 ^ w

module _ (o : ByteOrder) (start rest : Bytes) (s : Section) where
  pub section_64_at :
      (i : ℕ)
      → length start ≡ i * 64
      → s.index ≡ i
      → Fits 8 s
      → section_64 o (start ++ (encode_layout o (layout_64 s) ++ rest)) i ≡ ok s
  unfolding section_64
  section_64_at i len number fits = rw (
    uint_field o start rest (i * 64) len (take 0 (layout_64 s)) (drop 1 (layout_64 s)) 4 s.name_off
        (i * 64) (omega arith) fits.name_off,
    uint_field o start rest (i * 64) len (take 1 (layout_64 s)) (drop 2 (layout_64 s)) 4 s.sh_type
        (i * 64 + 4) (omega arith) fits.sh_type,
    uint_field o start rest (i * 64) len (take 2 (layout_64 s)) (drop 3 (layout_64 s)) 8 s.flags
        (i * 64 + 8) (omega arith) fits.flags,
    uint_field o start rest (i * 64) len (take 3 (layout_64 s)) (drop 4 (layout_64 s)) 8 s.addr
        (i * 64 + 16) (omega arith) fits.addr,
    uint_field o start rest (i * 64) len (take 4 (layout_64 s)) (drop 5 (layout_64 s)) 8 s.offset
        (i * 64 + 24) (omega arith) fits.offset,
    uint_field o start rest (i * 64) len (take 5 (layout_64 s)) (drop 6 (layout_64 s)) 8 s.size
        (i * 64 + 32) (omega arith) fits.size,
    uint_field o start rest (i * 64) len (take 6 (layout_64 s)) (drop 7 (layout_64 s)) 4 s.link
        (i * 64 + 40) (omega arith) fits.link,
    uint_field o start rest (i * 64) len (take 7 (layout_64 s)) (drop 8 (layout_64 s)) 4 s.info
        (i * 64 + 44) (omega arith) fits.info,
    uint_field o start rest (i * 64) len (take 8 (layout_64 s)) (drop 9 (layout_64 s)) 8
        s.addr_align (i * 64 + 48) (omega arith) fits.addr_align,
    uint_field o start rest (i * 64) len (take 9 (layout_64 s)) (drop 10 (layout_64 s)) 8 s.ent_size
        (i * 64 + 56) (omega arith) fits.ent_size,
    ← number,
    ← fits.name,
  )

  pub section_32_at :
      (i : ℕ)
      → length start ≡ i * 40
      → s.index ≡ i
      → Fits 4 s
      → section_32 o (start ++ (encode_layout o (layout_32 s) ++ rest)) i ≡ ok s
  unfolding section_32
  section_32_at i len number fits = rw (
    uint_field o start rest (i * 40) len (take 0 (layout_32 s)) (drop 1 (layout_32 s)) 4 s.name_off
        (i * 40) (omega arith) fits.name_off,
    uint_field o start rest (i * 40) len (take 1 (layout_32 s)) (drop 2 (layout_32 s)) 4 s.sh_type
        (i * 40 + 4) (omega arith) fits.sh_type,
    uint_field o start rest (i * 40) len (take 2 (layout_32 s)) (drop 3 (layout_32 s)) 4 s.flags
        (i * 40 + 8) (omega arith) fits.flags,
    uint_field o start rest (i * 40) len (take 3 (layout_32 s)) (drop 4 (layout_32 s)) 4 s.addr
        (i * 40 + 12) (omega arith) fits.addr,
    uint_field o start rest (i * 40) len (take 4 (layout_32 s)) (drop 5 (layout_32 s)) 4 s.offset
        (i * 40 + 16) (omega arith) fits.offset,
    uint_field o start rest (i * 40) len (take 5 (layout_32 s)) (drop 6 (layout_32 s)) 4 s.size
        (i * 40 + 20) (omega arith) fits.size,
    uint_field o start rest (i * 40) len (take 6 (layout_32 s)) (drop 7 (layout_32 s)) 4 s.link
        (i * 40 + 24) (omega arith) fits.link,
    uint_field o start rest (i * 40) len (take 7 (layout_32 s)) (drop 8 (layout_32 s)) 4 s.info
        (i * 40 + 28) (omega arith) fits.info,
    uint_field o start rest (i * 40) len (take 8 (layout_32 s)) (drop 9 (layout_32 s)) 4
        s.addr_align (i * 40 + 32) (omega arith) fits.addr_align,
    uint_field o start rest (i * 40) len (take 9 (layout_32 s)) (drop 10 (layout_32 s)) 4 s.ent_size
        (i * 40 + 36) (omega arith) fits.ent_size,
    ← number,
    ← fits.name,
  )
