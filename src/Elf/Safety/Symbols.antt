-- ===== src/Elf/Safety/Symbols.antt =====
-- internal/binary: the symbol tables and the whole file, if each size can be allocated.
use go_core_lab.Common.{
  ℕ, ◌*◌, ◌/◌, ◌≤◌, inl, inr, Bool-cases, List, [], ◌∷◌, Option, none, some, ByteOrder, Bytes,
  Result, ok, err, panic, ◌>>=◌, wrap, Reader, seek, IsSafe, >>=-IsSafe, wrap-IsSafe, if-IsSafe,
  seek-IsSafe, le→leb, ltb, ◌==◌, ◌&&◌, arith,
}
use go_core_lab.Elf.Types.{
  Section, Symbol, ElfFile, TableError, ElfError, read_table_64, read_table_32, seek_table, class64,
  sht_strtab, sht_symtab, sht_dynsym,
}
use go_core_lab.Elf.Sections.{string_section}
use go_core_lab.Elf.Symbols.{
  symbol_bytes, symbol_64, symbol_32, load_strings, symbol_table, parse_symbol_table,
}
use go_core_lab.Elf.Reader.{keep_symbols, keep_dyn_symbols, extract_from, extract_symbols}
use go_core_lab.Elf.Safety.Entries.{loop-IsSafe, symbol_64-IsSafe, symbol_32-IsSafe}
use go_core_lab.Elf.Safety.Sections.{Small, SmallOption, room_for, size_fits, string_section-Small}

load_strings-IsSafe :
    (limit : ℕ) (r : Reader) (o : Option Section)
    → SmallOption limit o
    → IsSafe (load_strings limit r o)
unfolding load_strings IsSafe
load_strings-IsSafe limit r none small = tt
load_strings-IsSafe limit r (some s) small =
    elim (Bool-cases (s.sh_type == sht_strtab && ltb 0 s.size)) [
      | inr e ↦ rw e tt
      | inl e ↦ rw (e, le→leb s.size limit (size_fits limit s small)) tt
    ]

symbol_table-IsSafe :
    (limit : ℕ) (r : Reader) (s : Section) (ss : List Section) (strings : Bytes) (class : ℕ)
    (o : ByteOrder)
    → 5 * s.size ≤ limit
    → IsSafe (symbol_table limit r s ss strings class o)
unfolding symbol_table
symbol_table-IsSafe limit r s ss strings class o small =
    if-IsSafe (class == class64) _ _
      (λ e.
        rw
          (
            le→leb (s.size / 24 * 24) limit (omega arith),
            le→leb (s.size / 24 * symbol_bytes) limit (omega arith),
          )
          (loop-IsSafe 24 (symbol_64 o ss strings) (λ buf i. symbol_64-IsSafe o buf i ss strings)
            read_table_64 (s.size / 24) r))
      (λ e.
        rw
          (
            le→leb (s.size / 16 * 16) limit (omega arith),
            le→leb (s.size / 16 * symbol_bytes) limit (omega arith),
          )
          (loop-IsSafe 16 (symbol_32 o ss strings) (λ buf i. symbol_32-IsSafe o buf i ss strings)
            read_table_32 (s.size / 16) r))

parse_symbol_table-IsSafe :
    (limit : ℕ) (r : Reader) (s : Section) (ss : List Section) (class : ℕ) (o : ByteOrder)
    → 5 * s.size ≤ limit
    → Small limit ss
    → IsSafe (parse_symbol_table limit r s ss class o)
unfolding parse_symbol_table IsSafe
parse_symbol_table-IsSafe limit r s ss class o size small =
    if-IsSafe _ (ok []) _ (λ e. tt)
      (λ e.
        >>=-IsSafe (load_strings limit r (string_section ss s.link)) _
          (load_strings-IsSafe limit r _ (string_section-Small limit ss s.link small))
          (λ strings e'.
            >>=-IsSafe (wrap (seek_table s.offset) (seek s.offset r)) _
              (wrap-IsSafe _ (seek s.offset r) (seek-IsSafe s.offset r))
              (λ r' e''. symbol_table-IsSafe limit r' s ss strings class o size)))

-- The loop over the sections keeps them.
SmallFile : ℕ → Result ElfError ElfFile → Type 0
SmallFile limit panic = ⊥
SmallFile limit (err e) = Unit
SmallFile limit (ok elf) = Small limit elf.sections

bind-Small :
    (limit : ℕ) (m : Result ElfError ElfFile) (f : ElfFile → Result ElfError ElfFile)
    → SmallFile limit m
    → ((elf : ElfFile) → Small limit elf.sections → SmallFile limit (f elf))
    → SmallFile limit (m >>= f)
unfolding SmallFile
bind-Small limit panic f small t = small
bind-Small limit (err e) f small t = tt
bind-Small limit (ok elf) f small t = t elf small

keep-Small :
    (limit : ℕ) (elf : ElfFile) (m : Result TableError (List Symbol))
    → IsSafe m
    → Small limit elf.sections
    → SmallFile limit (keep_symbols elf m) × SmallFile limit (keep_dyn_symbols elf m)
unfolding keep_symbols keep_dyn_symbols IsSafe SmallFile
keep-Small limit elf panic safe small = (safe, safe)
keep-Small limit elf (err e) safe small = (small, small)
keep-Small limit elf (ok syms) safe small = (small, small)

extract_from-Small :
    (limit : ℕ) (r : Reader) (o : ByteOrder) (elf : ElfFile) (s : Section)
    → room_for s ≤ limit
    → Small limit elf.sections
    → SmallFile limit (extract_from limit r o elf s)
unfolding extract_from SmallFile
extract_from-Small limit r o elf s size small =
    let kept = λ (h : 5 * s.size ≤ limit).
      keep-Small limit elf (parse_symbol_table limit r s elf.sections elf.header.class o)
        (parse_symbol_table-IsSafe limit r s elf.sections elf.header.class o h small) small in
    elim (Bool-cases (s.sh_type == sht_symtab)) [
      | inl e ↦ rw e ((kept (ground arith)).0)
      | inr e ↦ elim (Bool-cases (s.sh_type == sht_dynsym)) [
        | inl e' ↦ rw (e, e') ((kept (ground arith)).1)
        | inr e' ↦ rw (e, e') small
      ]
    ]

extract_symbols-Small :
    (limit : ℕ) (r : Reader) (o : ByteOrder) (ss : List Section) (elf : ElfFile)
    → Small limit ss
    → Small limit elf.sections
    → SmallFile limit (extract_symbols limit r o ss elf)
unfolding extract_symbols SmallFile
extract_symbols-Small limit r o [] elf small kept = kept
extract_symbols-Small limit r o (s ∷ ss) elf (size, small) kept =
    bind-Small limit (extract_from limit r o elf s) _ (extract_from-Small limit r o elf s size kept)
      (λ elf' kept'. extract_symbols-Small limit r o ss elf' small kept')

SmallFile-IsSafe : (limit : ℕ) (m : Result ElfError ElfFile) → SmallFile limit m → IsSafe m
unfolding SmallFile IsSafe
SmallFile-IsSafe limit panic h = h
SmallFile-IsSafe limit (err e) h = tt
SmallFile-IsSafe limit (ok elf) h = tt

pub extract_symbols-IsSafe :
    (limit : ℕ) (r : Reader) (o : ByteOrder) (ss : List Section) (elf : ElfFile)
    → Small limit ss
    → Small limit elf.sections
    → IsSafe (extract_symbols limit r o ss elf)
extract_symbols-IsSafe limit r o ss elf small kept =
    SmallFile-IsSafe limit _ (extract_symbols-Small limit r o ss elf small kept)
