-- ===== src/Elf/Reader/Latest.antt =====
-- internal/binary/elf.go, ParseELFReader: which symbol tables the loop over the sections keeps.
use go_core_lab.Common.{
  ℕ, ◌≡◌, refl, ap, ap₂, ◌∙◌, Bool-cases, inl, inr, List, [], ◌∷◌, Option, none, some, ByteOrder,
  Result, ok, err, panic, >>=-eq-ok, Reader, if◌then◌else◌, ◌==◌, true, false, arith,
}
use go_core_lab.Elf.Types.{sht_symtab, sht_dynsym, Section, Symbol, ElfFile, TableError}
use go_core_lab.Elf.Symbols.{parse_symbol_table}
use go_core_lab.Elf.Reader.{keep_symbols, keep_dyn_symbols, extract_from, extract_symbols}

abbrev pub succeeded : Result TableError (List Symbol) → Option (List Symbol)
succeeded (ok syms) = some syms
succeeded (err e) = none
succeeded panic = none

abbrev pub or_else : Option (List Symbol) → Option (List Symbol) → Option (List Symbol)
or_else none o = o
or_else (some syms) o = some syms

abbrev pub or_empty : Option (List Symbol) → List Symbol → List Symbol
or_empty none old = old
or_empty (some syms) old = syms

module _ (limit : ℕ) (r : Reader) (o : ByteOrder) (sections : List Section) (class : ℕ) where
  -- The last section of a type whose symbols parse, and its symbols.
  unfoldable pub last_parsed : ℕ → List Section → Option (List Symbol)
  last_parsed kind [] = none
  last_parsed kind (s ∷ ss) = or_else (last_parsed kind ss) (
      if s.sh_type == kind then succeeded (parse_symbol_table limit r s sections class o) else none)

  abbrev pub with_last : List Section → ElfFile → ElfFile
  with_last ss elf = record elf {
    symbols = or_empty (last_parsed sht_symtab ss) elf.symbols;
    dyn_symbols = or_empty (last_parsed sht_dynsym ss) elf.dyn_symbols;
  }

or_empty_later :
    (a b : Option (List Symbol)) (old : List Symbol)
    → or_empty a (or_empty b old) ≡ or_empty (or_else a b) old
or_empty_later none b old = refl
or_empty_later (some syms) b old = refl

keep_symbols_lem :
    (elf elf' : ElfFile) (m : Result TableError (List Symbol))
    → keep_symbols elf m ≡ ok elf'
    → elf' ≡ record elf { symbols = or_empty (succeeded m) elf.symbols }
unfolding keep_symbols
keep_symbols_lem elf elf' (ok syms) e = cc
keep_symbols_lem elf elf' (err x) e = cc
keep_symbols_lem elf elf' panic e = absurd cc

keep_dyn_symbols_lem :
    (elf elf' : ElfFile) (m : Result TableError (List Symbol))
    → keep_dyn_symbols elf m ≡ ok elf'
    → elf' ≡ record elf { dyn_symbols = or_empty (succeeded m) elf.dyn_symbols }
unfolding keep_dyn_symbols
keep_dyn_symbols_lem elf elf' (ok syms) e = cc
keep_dyn_symbols_lem elf elf' (err x) e = cc
keep_dyn_symbols_lem elf elf' panic e = absurd cc

not_both : (n : ℕ) → (n == sht_symtab) ≡ true → (n == sht_dynsym) ≡ false
not_both n e = ground arith

module _ (limit : ℕ) (r : Reader) (o : ByteOrder) where
  abbrev kept : List Section → ElfFile → ElfFile
  kept ss elf = with_last limit r o elf.sections elf.header.class ss elf

  extract_from_lem :
      (elf elf' : ElfFile) (s : Section)
      → extract_from limit r o elf s ≡ ok elf'
      → elf' ≡ kept (s ∷ []) elf
  unfolding extract_from last_parsed
  extract_from_lem elf elf' s e = elim (Bool-cases (s.sh_type == sht_symtab)) [
    | inl a ↦ rw (a, not_both s.sh_type a) (keep_symbols_lem elf elf' _ (rw a at e))
    | inr a ↦ elim (Bool-cases (s.sh_type == sht_dynsym)) [
      | inl b ↦ rw (a, b) (keep_dyn_symbols_lem elf elf' _ (rw (a, b) at e))
      | inr b ↦ rw (a, b) (let e = rw (a, b) at e in cc)
    ]
  ]

  -- When the loop over the sections of ParseELFReader ends, the symbols are those of the last
  -- .symtab section that parsed and the dynamic symbols those of the last .dynsym section that did,
  -- or what they were before if none did; nothing else of the file changes.
  pub extract_symbols-latest :
      (ss : List Section) (elf elf' : ElfFile)
      → extract_symbols limit r o ss elf ≡ ok elf'
      → elf' ≡ kept ss elf
  unfolding extract_symbols last_parsed
  extract_symbols-latest [] elf elf' e = cc
  extract_symbols-latest (s ∷ ss) elf elf' e =
      let (elf₁, e₁, e₂) = >>=-eq-ok (extract_from limit r o elf s) _ e in
      let rest = extract_symbols-latest ss elf₁ elf' e₂ in
      let step = extract_from_lem elf elf₁ s e₁ in
      rest
      ∙ (ap (kept ss) step
          ∙ ap₂ (λ x y. record elf { symbols = x; dyn_symbols = y })
              (or_empty_later (last_parsed limit r o elf.sections elf.header.class sht_symtab ss) _
                elf.symbols)
              (or_empty_later (last_parsed limit r o elf.sections elf.header.class sht_dynsym ss) _
                elf.dyn_symbols))
