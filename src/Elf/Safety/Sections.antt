-- ===== src/Elf/Safety/Sections.antt =====
-- internal/binary/elf.go: the section header table, if each size in it can be allocated.
use go_core_lab.Common.{
  ℕ, zero, suc, ◌≤◌, ◌<◌, ◌≡◌, ◌⊎◌, inl, inr, refl, Bool-cases, length, not, List, [], ◌∷◌, All,
  Option, none, some, ByteOrder, Bytes, Result, ok, err, panic, Reader, IoError, seek, at_offset,
  IsSafe, >>=-IsSafe, wrap-IsSafe, if-IsSafe, read_full-IsSafe, seek-IsSafe, le→leb, leb, leb→le,
  ltb, if◌then◌else◌, ◌*◌, ◌==◌, ◌&&◌, ◌||◌, ◌>>=◌, ◌^◌, wrap, arith,
}
use go_core_lab.Elf.Types.{
  ElfHeader, Section, TableError, read_table_64, read_table_32, seek_table, class64, sht_strtab,
  sht_symtab, sht_dynsym,
}
use go_core_lab.Elf.Sections.{
  section_64, section_32, section_table, parse_sections, with_name, with_names, name_sections,
  read_strings, resolve_names_in, string_section, get_section,
}
use go_core_lab.Elf.Segments.{segment_64, segment_32, segment_table, parse_segments}
use go_core_lab.Elf.Safety.Entries.{
  loop-IsSafe, section_64-IsSafe, section_32-IsSafe, segment_64-IsSafe, segment_32-IsSafe,
}

-- The largest block that is made for a section: its bytes, and for a symbol table its symbols too,
-- each of which takes at most five times the bytes of its entry, 80 for 16 or for 24.
abbrev pub room_for : Section → ℕ
room_for s = if s.sh_type == sht_symtab || s.sh_type == sht_dynsym then 5 * s.size else s.size

pub size_fits : (limit : ℕ) (s : Section) → room_for s ≤ limit → s.size ≤ limit
size_fits limit s h = ground arith

-- Sections for which that can be allocated.
abbrev pub Small : ℕ → List Section → Type 0
Small limit ss = All (λ s. room_for s ≤ limit) ss

-- A section for which it cannot.
unfoldable pub HasLarge : ℕ → List Section → Type 0
HasLarge limit [] = ⊥
HasLarge limit (s ∷ ss) = (limit < room_for s) ⊎ HasLarge limit ss

pub size_cases : (limit : ℕ) (ss : List Section) → Small limit ss ⊎ HasLarge limit ss
unfolding HasLarge
size_cases limit [] = inl tt
size_cases limit (s ∷ ss) = elim (Bool-cases (leb (room_for s) limit)) [
  | inr e ↦ inr (inl (ground arith))
  | inl e ↦ elim (size_cases limit ss) [
    | inl small ↦ inl (leb→le (room_for s) limit e, small)
    | inr large ↦ inr (inr large)
  ]
]

abbrev pub SmallOption : ℕ → Option Section → Type 0
SmallOption limit none = Unit
SmallOption limit (some s) = room_for s ≤ limit

pub get_section-Small :
    (limit : ℕ) (ss : List Section) (i : ℕ) → Small limit ss → SmallOption limit (get_section ss i)
unfolding get_section
get_section-Small limit [] i small = tt
get_section-Small limit (x ∷ ss) zero (h, small) = h
get_section-Small limit (x ∷ ss) (suc i) (h, small) = get_section-Small limit ss i small

pub string_section-Small :
    (limit : ℕ) (ss : List Section) (i : ℕ)
    → Small limit ss
    → SmallOption limit (string_section ss i)
unfolding string_section
string_section-Small limit ss i small = elim (Bool-cases (ltb i (length ss) && not (i == 0))) [
  | inl e ↦ rw e (get_section-Small limit ss i small)
  | inr e ↦ rw e tt
]

with_names-Small :
    (limit : ℕ) (strings : Bytes) (ss : List Section)
    → Small limit ss
    → Small limit (with_names strings ss)
unfolding with_names with_name
with_names-Small limit strings [] small = tt
with_names-Small limit strings (s ∷ ss) (h, small) = (h, with_names-Small limit strings ss small)

-- The loops over the tables do not panic.
pub section_table-IsSafe :
    (r : Reader) (h : ElfHeader) (o : ByteOrder) → IsSafe (section_table r h o)
unfolding section_table
section_table-IsSafe r h o =
    if-IsSafe (h.class == class64) _ _
      (λ e. loop-IsSafe 64 (section_64 o) (section_64-IsSafe o) read_table_64 h.sh_num r)
      (λ e. loop-IsSafe 40 (section_32 o) (section_32-IsSafe o) read_table_32 h.sh_num r)

pub parse_segments-IsSafe :
    (r : Reader) (h : ElfHeader) (o : ByteOrder) → IsSafe (parse_segments r h o)
unfolding parse_segments segment_table IsSafe
parse_segments-IsSafe r h o =
    if-IsSafe _ (ok []) _ (λ e. tt)
      (λ e.
        >>=-IsSafe (wrap (seek_table h.ph_off) (seek h.ph_off r)) _
          (wrap-IsSafe _ (seek h.ph_off r) (seek-IsSafe h.ph_off r))
          (λ r' e'.
            if-IsSafe (h.class == class64) _ _
              (λ e. loop-IsSafe 56 (segment_64 o) (segment_64-IsSafe o) read_table_64 h.ph_num r')
              (λ e. loop-IsSafe 32 (segment_32 o) (segment_32-IsSafe o) read_table_32 h.ph_num r')))

read_strings-IsSafe : (s : Section) (r : Reader) → IsSafe (read_strings s r)
unfolding read_strings IsSafe
read_strings-IsSafe s r =
    >>=-IsSafe (seek s.offset r) _ (seek-IsSafe s.offset r)
      (λ r' e. >>=-IsSafe _ _ (read_full-IsSafe s.size r') (λ a e'. tt))

-- Nor does what names the sections, and it keeps their sizes.
unfoldable pub SmallResult : ℕ → Result TableError (List Section) → Type 0
SmallResult limit panic = ⊥
SmallResult limit (err e) = Unit
SmallResult limit (ok ss) = Small limit ss

bind-Small :
    {A : Type 0} (limit : ℕ) (m : Result TableError A) (f : A → Result TableError (List Section))
    → IsSafe m
    → ((a : A) → m ≡ ok a → SmallResult limit (f a))
    → SmallResult limit (m >>= f)
unfolding SmallResult IsSafe
bind-Small limit panic f safe t = safe
bind-Small limit (err e) f safe t = tt
bind-Small limit (ok a) f safe t = t a refl

name_sections-Small :
    (limit : ℕ) (ss : List Section) (m : Result IoError Bytes)
    → IsSafe m
    → Small limit ss
    → SmallResult limit (name_sections ss m)
unfolding name_sections IsSafe SmallResult
name_sections-Small limit ss panic safe small = safe
name_sections-Small limit ss (err e) safe small = small
name_sections-Small limit ss (ok strings) safe small = with_names-Small limit strings ss small

resolve_names_in-Small :
    (limit : ℕ) (r : Reader) (ss : List Section) (o : Option Section)
    → Small limit ss
    → SmallOption limit o
    → SmallResult limit (resolve_names_in limit r ss o)
unfolding resolve_names_in SmallResult
resolve_names_in-Small limit r ss none small t = small
resolve_names_in-Small limit r ss (some s) small t =
    elim (Bool-cases (ltb 0 s.size && s.sh_type == sht_strtab)) [
      | inr e ↦ rw e small
      | inl e ↦
          rw (e, le→leb s.size limit (size_fits limit s t))
            (name_sections-Small limit ss (read_strings s r) (read_strings-IsSafe s r) small)
    ]

pub parse_sections-Small :
    (limit : ℕ) (r : Reader) (h : ElfHeader) (o : ByteOrder)
    → ((ss : List Section) → section_table (at_offset h.sh_off r) h o ≡ ok ss → Small limit ss)
    → SmallResult limit (parse_sections limit r h o)
unfolding parse_sections SmallResult seek
parse_sections-Small limit r h o small = elim (Bool-cases (h.sh_off == 0 || h.sh_num == 0)) [
  | inl e ↦ rw e tt
  | inr e ↦ elim (Bool-cases (leb (2 ^ 63) h.sh_off)) [
    | inl e' ↦ rw (e, e') tt
    | inr e' ↦
        rw (e, e')
          (bind-Small limit (section_table (at_offset h.sh_off r) h o) _
            (section_table-IsSafe (at_offset h.sh_off r) h o)
            (λ ss found.
              resolve_names_in-Small limit (at_offset h.sh_off r) ss
                (string_section ss h.sh_str_idx) (small ss found)
                (string_section-Small limit ss h.sh_str_idx (small ss found))))
  ]
]
