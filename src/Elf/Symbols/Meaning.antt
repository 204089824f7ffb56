-- ===== src/Elf/Symbols/Meaning.antt =====
-- internal/binary/elf_symbols.go, parseSymbolTable and resolveSectionIndex: what the fields of a
-- symbol mean, in the words of the ELF format.
use go_core_lab.Common.{
  ℕ, ◌+◌, ◌*◌, ◌/◌, ◌%◌, ◌<◌, ◌≤◌, ◌≡◌, ◌≢◌, refl, ◌∙◌, Bytes, List, [], ◌∷◌, ◌++◌, length, drop,
  some, none, le→leb, zero, suc, false, ◌==◌, arith,
}
use go_core_lab.Elf.Types.{Section, SectionName, undef, abs, common, named_section, unnamed, Symbol}
use go_core_lab.Elf.Sections.{get_section, extract_null_string}
use go_core_lab.Elf.Sections.Strings.{StartsWith, extract_null_string-finds}
use go_core_lab.Elf.Symbols.{
  shown_name, name_of_section, resolve_section_index, symbol_name, symbol_of,
}

-- An index that stands for a section, and is none of SHN_UNDEF, SHN_ABS and SHN_COMMON.
pub record IsOrdinary (shndx : ℕ) : Type 0 where
  pub not_undef : 0 < shndx
  pub not_abs : shndx ≢ 0xfff1
  pub not_common : shndx ≢ 0xfff2

-- The section names that an index has: a section is named by the section header string table, and
-- shown by its number if its name is empty or there is no such section.
pub data SectionNamed (sections : List Section) (shndx : ℕ) : SectionName → Type 0 where
  at_undef : shndx ≡ 0 → SectionNamed sections shndx undef
  at_abs : shndx ≡ 0xfff1 → SectionNamed sections shndx abs
  at_common : shndx ≡ 0xfff2 → SectionNamed sections shndx common
  at_section :
      (before behind : List Section) (s : Section) (c : ℕ) (cs : Bytes)
      → IsOrdinary shndx
      → sections ≡ before ++ (s ∷ behind)
      → length before ≡ shndx
      → s.name ≡ c ∷ cs
      → SectionNamed sections shndx (named_section (c ∷ cs))
  at_nameless :
      (before behind : List Section) (s : Section)
      → IsOrdinary shndx
      → sections ≡ before ++ (s ∷ behind)
      → length before ≡ shndx
      → s.name ≡ []
      → SectionNamed sections shndx (unnamed shndx)
  at_nothing :
      IsOrdinary shndx → length sections ≤ shndx → SectionNamed sections shndx (unnamed shndx)

-- A symbol's name is the string at its name offset, its binding the upper and its type the lower four
-- bits of the info byte, its visibility the lowest two bits of the other byte, and its section the
-- one that its index stands for.
pub record Resolved (sections : List Section) (strings : Bytes) (s : Symbol) : Type 0 where
  pub name : StartsWith (drop s.name_off strings) s.name
  pub info : s.info ≡ 16 * s.binding + s.sym_type
  pub sym_type : s.sym_type < 16
  pub reserved : ℕ
  pub other : s.other ≡ 4 * reserved + s.visibility
  pub visibility : s.visibility < 4
  pub section_name : SectionNamed sections s.shndx s.section_name

get_section_at :
    (before behind : List Section) (s : Section)
    → get_section (before ++ (s ∷ behind)) (length before) ≡ some s
unfolding get_section
get_section_at [] behind s = refl
get_section_at (x ∷ before) behind s = get_section_at before behind s

get_section_past :
    (sections : List Section) (i : ℕ) → length sections ≤ i → get_section sections i ≡ none
unfolding get_section
get_section_past [] i h = refl
get_section_past (x ∷ sections) zero h = absurd (omega arith)
get_section_past (x ∷ sections) (suc i) h = get_section_past sections i (omega arith)

ordinary :
    (shndx : ℕ) (sections : List Section)
    → IsOrdinary shndx
    → resolve_section_index shndx sections ≡ name_of_section shndx (get_section sections shndx)
unfolding resolve_section_index
ordinary shndx sections i =
    let a : (shndx == 0) ≡ false = let h = i.not_undef in ground arith in
    let b : (shndx == 0xfff1) ≡ false = let h = i.not_abs in ground arith in
    let c : (shndx == 0xfff2) ≡ false = let h = i.not_common in ground arith in rw (a, b, c) refl

section_at :
    (shndx : ℕ) (sections before behind : List Section) (s : Section)
    → sections ≡ before ++ (s ∷ behind)
    → length before ≡ shndx
    → get_section sections shndx ≡ some s
section_at shndx sections before behind s split len =
    rw (split, ← len) (get_section_at before behind s)

SectionNamed-resolved :
    (shndx : ℕ) (sections : List Section) (n : SectionName)
    → SectionNamed sections shndx n
    → resolve_section_index shndx sections ≡ n
unfolding resolve_section_index name_of_section shown_name
SectionNamed-resolved shndx sections undef (at_undef e) = rw e refl
SectionNamed-resolved shndx sections abs (at_abs e) = rw e refl
SectionNamed-resolved shndx sections common (at_common e) = rw e refl
SectionNamed-resolved shndx sections n (at_section before behind s c cs i split len name) =
    ordinary shndx sections i ∙ rw (section_at shndx sections before behind s split len, name) refl
SectionNamed-resolved shndx sections n (at_nameless before behind s i split len name) =
    ordinary shndx sections i ∙ rw (section_at shndx sections before behind s split len, name) refl
SectionNamed-resolved shndx sections n (at_nothing i past) =
    ordinary shndx sections i ∙ rw (get_section_past sections shndx past) refl

symbol_name-extract :
    (strings : Bytes) (off : ℕ) → symbol_name strings off ≡ extract_null_string strings off
unfolding symbol_name extract_null_string
symbol_name-extract [] off = rw (le→leb 0 off (omega arith)) refl
symbol_name-extract (x ∷ strings) off = ground arith

-- The parser puts a symbol together as the format says.
pub symbol_of-Resolved :
    (sections : List Section) (strings : Bytes) (s : Symbol)
    → Resolved sections strings s
    → symbol_of sections strings s.index s.name_off s.value s.size s.info s.other s.shndx ≡ s
unfolding symbol_of
symbol_of-Resolved sections strings s r =
    let name =
      symbol_name-extract strings s.name_off
      ∙ (extract_null_string-finds strings s.name_off s.name).1 r.name in
    let binding : s.info / 16 ≡ s.binding = omega (arith, r.info, r.sym_type) in
    let sym_type : s.info % 16 ≡ s.sym_type = omega (arith, r.info, r.sym_type) in
    let visibility : s.other % 4 ≡ s.visibility = omega (arith, r.other, r.visibility) in
    let section_name = SectionNamed-resolved s.shndx sections s.section_name r.section_name in
    rw (name, binding, sym_type, visibility, section_name) refl
