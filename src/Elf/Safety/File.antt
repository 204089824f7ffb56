-- ===== src/Elf/Safety/File.antt =====
-- internal/binary/elf.go, ParseELFReader: what a panic means.
use Prim.Native.String.{String}
use go_core_lab.Common.{
  ℕ, ◌≡◌, ◌⊎◌, inl, inr, refl, Bool, true, false, Bool-cases, List, [], subst, sym, ◌∙◌, ok_inj,
  Bytes, length, ByteOrder, Result, ok, err, panic, ◌>>=◌, ◌>>◌, guard, wrap, Reader, read_full,
  at_offset, IsSafe, IsSafe-ne-panic, >>=-IsSafe, wrap-IsSafe, wrap-eq-ok, if-IsSafe,
  read_full-IsSafe, length-read_full, uint-IsSafe, index-IsSafe, slice_lem, ◌==◌, arith,
}
use go_core_lab.Elf.Types.{
  class64, data_le, data_be, ElfHeader, Section, ElfFile, TableError, ElfError,
  parse_segments_error, parse_sections_error, unsupported_class,
}
use go_core_lab.Elf.Header.{
  check_magic, byte_order, header_fields_64, header_fields_32, parse_header,
}
use go_core_lab.Elf.Sections.{section_table, parse_sections}
use go_core_lab.Elf.Segments.{parse_segments}
use go_core_lab.Elf.Reader.{extract_symbols, parse_elf_reader}
use go_core_lab.Elf.Safety.Sections.{
  Small, HasLarge, size_cases, SmallResult, section_table-IsSafe, parse_segments-IsSafe,
  parse_sections-Small,
}
use go_core_lab.Elf.Safety.Symbols.{extract_symbols-IsSafe}

guard-IsSafe : (b : Bool) (e : ElfError) → IsSafe (guard b e)
unfolding IsSafe
guard-IsSafe true e = tt
guard-IsSafe false e = tt

>>-IsSafe :
    {A : Type 0} (m : Result ElfError (Unit {0})) (k : Result ElfError A)
    → IsSafe m
    → IsSafe k
    → IsSafe (m >> k)
unfolding IsSafe
>>-IsSafe panic k s t = s
>>-IsSafe (err e) k s t = tt
>>-IsSafe (ok a) k s t = t

module _ (o : ByteOrder) (b : Bytes) (h : ElfHeader) (len : length b ≡ 64) where
  fields_64-IsSafe : IsSafe (header_fields_64 o b h)
  unfolding header_fields_64 IsSafe
  fields_64-IsSafe = uint-IsSafe o 8 b 24 _ (omega (arith, len)) (λ x24.
      uint-IsSafe o 8 b 32 _ (omega (arith, len)) (λ x32.
        uint-IsSafe o 8 b 40 _ (omega (arith, len)) (λ x40.
          uint-IsSafe o 2 b 54 _ (omega (arith, len)) (λ x54.
            uint-IsSafe o 2 b 56 _ (omega (arith, len)) (λ x56.
              uint-IsSafe o 2 b 58 _ (omega (arith, len)) (λ x58.
                uint-IsSafe o 2 b 60 _ (omega (arith, len))
                  (λ x60. uint-IsSafe o 2 b 62 _ (omega (arith, len)) (λ x62. tt))))))))

  fields_32-IsSafe : IsSafe (header_fields_32 o b h)
  unfolding header_fields_32 IsSafe
  fields_32-IsSafe = uint-IsSafe o 4 b 24 _ (omega (arith, len)) (λ x24.
      uint-IsSafe o 4 b 28 _ (omega (arith, len)) (λ x28.
        uint-IsSafe o 4 b 32 _ (omega (arith, len)) (λ x32.
          uint-IsSafe o 2 b 42 _ (omega (arith, len)) (λ x42.
            uint-IsSafe o 2 b 44 _ (omega (arith, len)) (λ x44.
              uint-IsSafe o 2 b 46 _ (omega (arith, len)) (λ x46.
                uint-IsSafe o 2 b 48 _ (omega (arith, len))
                  (λ x48. uint-IsSafe o 2 b 50 _ (omega (arith, len)) (λ x50. tt))))))))

byte_order-IsSafe : (d : ℕ) → IsSafe (byte_order d)
unfolding byte_order IsSafe
byte_order-IsSafe d = elim (Bool-cases (d == data_le)) [
  | inl e ↦ rw e tt
  | inr e ↦ elim (Bool-cases (d == data_be)) [ inl e' ↦ rw (e, e') tt | inr e' ↦ rw (e, e') tt ]
]

module _ (b : Bytes) (len : length b ≡ 64) where
  check_magic-IsSafe : IsSafe (check_magic b)
  unfolding check_magic
  check_magic-IsSafe = index-IsSafe b 0 _ (omega (arith, len)) (λ b0.
      index-IsSafe b 1 _ (omega (arith, len)) (λ b1. index-IsSafe b 2 _ (omega (arith, len)) (λ b2.
        index-IsSafe b 3 _ (omega (arith, len)) (λ b3.
          rw (slice_lem {E = ElfError} b 0 4 (omega arith) (omega (arith, len)))
            (guard-IsSafe _ _)))))

  parse_header-IsSafe : IsSafe (parse_header b)
  unfolding parse_header IsSafe
  parse_header-IsSafe = >>-IsSafe (check_magic b) _ check_magic-IsSafe (
      index-IsSafe b 4 _ (omega (arith, len)) (λ class.
        index-IsSafe b 5 _ (omega (arith, len)) (λ d.
          >>-IsSafe (guard _ (unsupported_class class)) _ (guard-IsSafe _ _) (
            >>=-IsSafe (byte_order d) _ (byte_order-IsSafe d) (λ o e.
              uint-IsSafe o 2 b 18 _ (omega (arith, len)) (λ machine.
                >>=-IsSafe _ _
                  (if-IsSafe (class == class64) (header_fields_64 o b _) (header_fields_32 o b _)
                    (λ e. fields_64-IsSafe o b _ len) (λ e. fields_32-IsSafe o b _ len))
                  (λ h e. tt)))))))

-- A file whose header parses, and whose section header table has a section for which not all can be
-- allocated.
pub record TooLarge (limit : ℕ) (r : Reader) : Type 0 where
  pub raw : Bytes
  pub behind : Reader
  pub read : read_full 64 r ≡ ok (raw, behind)
  pub header : ElfHeader
  pub order : ByteOrder
  pub parsed : parse_header raw ≡ ok (header, order)
  pub sections : List Section
  pub found : section_table (at_offset header.sh_off behind) header order ≡ ok sections
  pub large : HasLarge limit sections

Result-cases :
    {E A : Type 0} (m : Result E A)
    → (m ≡ panic) ⊎ (((e : E) × (m ≡ err e)) ⊎ ((a : A) × (m ≡ ok a)))
Result-cases panic = inl refl
Result-cases (err e) = inr (inl (e, refl))
Result-cases (ok a) = inr (inr (a, refl))

-- The reader behind the header.
module _ (limit : ℕ) (path : String) (r : Reader) (h : ElfHeader) (o : ByteOrder) where
  abbrev rest_of_file : Result ElfError ElfFile
  rest_of_file = wrap parse_segments_error (parse_segments r h o) >>= λ segments.
      wrap parse_sections_error (parse_sections limit r h o) >>= λ sections.
      extract_symbols limit r o sections record {
        header = h;
        segments = segments;
        sections = sections;
        symbols = [];
        dyn_symbols = [];
        path = path;
      }

  sections-IsSafe : (m : Result TableError (List Section)) → SmallResult limit m → IsSafe m
  unfolding SmallResult IsSafe
  sections-IsSafe panic h = h
  sections-IsSafe (err e) h = tt
  sections-IsSafe (ok ss) h = tt

  sections-Small :
      (m : Result TableError (List Section)) (ss : List Section)
      → SmallResult limit m
      → m ≡ ok ss
      → Small limit ss
  unfolding SmallResult
  sections-Small m ss s e = subst (SmallResult limit) e s

  rest_of_file-IsSafe :
      ((ss : List Section) → section_table (at_offset h.sh_off r) h o ≡ ok ss → Small limit ss)
      → IsSafe rest_of_file
  rest_of_file-IsSafe small =
      let found = parse_sections-Small limit r h o small in
      >>=-IsSafe (wrap parse_segments_error (parse_segments r h o)) _
        (wrap-IsSafe _ _ (parse_segments-IsSafe r h o))
        (λ segments e.
          >>=-IsSafe (wrap parse_sections_error (parse_sections limit r h o)) _
            (wrap-IsSafe _ _ (sections-IsSafe _ found))
            (λ ss e'.
              let kept = sections-Small _ ss found (wrap-eq-ok parse_sections_error _ e') in
              extract_symbols-IsSafe limit r o ss _ kept kept))

module _ (limit : ℕ) (r : Reader) (path : String) where
  -- ParseELFReader panics only if the file header parses and the section header table has a section
  -- whose size, or whose size five times over if it is a symbol table, is more than the runtime can
  -- allocate; in a file without such a section no index and no slice expression is out of range.
  pub parse_elf_reader-panics : parse_elf_reader limit r path ≡ panic → TooLarge limit r
  unfolding parse_elf_reader
  parse_elf_reader-panics stop = elim (Result-cases (read_full 64 r)) [
    | inl e ↦ absurd (IsSafe-ne-panic (read_full-IsSafe 64 r) e)
    | inr (inl (io, e)) ↦ absurd (let stop = rw e at stop in cc)
    | inr (inr ((raw, r'), e)) ↦ elim (Result-cases (parse_header raw)) [
      | inl p ↦ absurd (IsSafe-ne-panic (parse_header-IsSafe raw (length-read_full 64 r e)) p)
      | inr (inl (bad, p)) ↦ absurd (let stop = rw (e, p) at stop in cc)
      | inr (inr ((h, o), p)) ↦
          let stop' : rest_of_file limit path r' h o ≡ panic = rw (e, p) at stop in
          elim (Result-cases (section_table (at_offset h.sh_off r') h o)) [
            | inl t ↦ absurd (IsSafe-ne-panic (section_table-IsSafe (at_offset h.sh_off r') h o) t)
            | inr (inl (bad, t)) ↦ absurd (
                IsSafe-ne-panic
                  (rest_of_file-IsSafe limit path r' h o (λ ss f. absurd (let f = rw t at f in cc)))
                  stop')
            | inr (inr (ss, t)) ↦ elim (size_cases limit ss) [
              | inl small ↦ absurd (
                  IsSafe-ne-panic
                    (rest_of_file-IsSafe limit path r' h o
                      (λ ss' f. subst (Small limit) (ok_inj (sym t ∙ f)) small))
                    stop')
              | inr large ↦ record {
                raw = raw;
                behind = r';
                read = e;
                header = h;
                order = o;
                parsed = p;
                sections = ss;
                found = t;
                large = large;
              }
            ]
          ]
    ]
  ]
