-- ===== src/Elf/Names.antt =====
-- internal/binary: the names that the ELF reader's types, flags and machines are shown with. What
-- Sprintf makes of a number is a constructor; strings.Join of parts is the list of the parts.
pub mod Permissions
use Prim.Native.String.{String}
use go_core_lab.Common.{
  ℕ, ◌/◌, ◌%◌, Bool, List, [], ◌∷◌, ◌++◌, Option, none, some, if◌then◌else◌, ◌==◌,
}
use go_core_lab.Elf.Types.{Section, Segment, Symbol}

-- `0x%x`, `OS/PROC(%d)`, `%d` and `Unknown (0x%x)`.
pub data Label : Type 0 where
  text : String → Label
  hexadecimal os_proc decimal unknown : ℕ → Label

-- A map from numbers to names; its keys are distinct.
abbrev pub NameTable : Type 0
NameTable = List (ℕ × String)

unfoldable pub label : (ℕ → Label) → NameTable → ℕ → Label
label otherwise [] n = otherwise n
label otherwise ((k, s) ∷ names) n = if n == k then text s else label otherwise names n

abbrev pub section_type_names : NameTable
section_type_names =
    (0, "NULL")
    ∷ (1, "PROGBITS")
    ∷ (2, "SYMTAB")
    ∷ (3, "STRTAB")
    ∷ (4, "RELA")
    ∷ (5, "HASH")
    ∷ (6, "DYNAMIC")
    ∷ (7, "NOTE")
    ∷ (8, "NOBITS")
    ∷ (9, "REL")
    ∷ (10, "SHLIB")
    ∷ (11, "DYNSYM")
    ∷ (14, "INIT_ARRAY")
    ∷ (15, "FINI_ARRAY")
    ∷ (16, "PREINIT_ARRAY")
    ∷ (17, "GROUP")
    ∷ (18, "SYMTAB_SHNDX")
    ∷ []

abbrev pub segment_type_names : NameTable
segment_type_names =
    (0, "NULL")
    ∷ (1, "LOAD")
    ∷ (2, "DYNAMIC")
    ∷ (3, "INTERP")
    ∷ (4, "NOTE")
    ∷ (5, "SHLIB")
    ∷ (6, "PHDR")
    ∷ (7, "TLS")
    ∷ (0x6474e550, "GNU_EH_FRAME")
    ∷ (0x6474e551, "GNU_STACK")
    ∷ (0x6474e552, "GNU_RELRO")
    ∷ (0x6474e553, "GNU_PROPERTY")
    ∷ (0x70000001, "ARM_EXIDX")
    ∷ []

abbrev pub binding_names : NameTable
binding_names = (0, "LOCAL") ∷ (1, "GLOBAL") ∷ (2, "WEAK") ∷ (10, "UNIQUE") ∷ []

abbrev pub symbol_type_names : NameTable
symbol_type_names =
    (0, "NOTYPE")
    ∷ (1, "OBJECT")
    ∷ (2, "FUNC")
    ∷ (3, "SECTION")
    ∷ (4, "FILE")
    ∷ (5, "COMMON")
    ∷ (6, "TLS")
    ∷ (10, "IFUNC")
    ∷ []

abbrev pub visibility_names : NameTable
visibility_names = (0, "DEFAULT") ∷ (1, "INTERNAL") ∷ (2, "HIDDEN") ∷ (3, "PROTECTED") ∷ []

abbrev pub machine_names : NameTable
machine_names =
    (0x03, "x86") ∷ (0x28, "ARM") ∷ (0x3e, "x86_64") ∷ (0xb7, "AArch64") ∷ (0xf3, "RISC-V") ∷ []

abbrev pub section_type_string : Section → Label
section_type_string s = label hexadecimal section_type_names s.sh_type

abbrev pub segment_type_string : Segment → Label
segment_type_string s = label hexadecimal segment_type_names s.p_type

abbrev pub binding_string : Symbol → Label
binding_string s = label os_proc binding_names s.binding

abbrev pub symbol_type_string : Symbol → Label
symbol_type_string s = label hexadecimal symbol_type_names s.sym_type

abbrev pub visibility_string : Symbol → Label
visibility_string s = label decimal visibility_names s.visibility

abbrev pub architecture_name : ℕ → Label
architecture_name machine = label unknown machine_names machine

-- `flags&mask != 0` for the mask 2^k, which is `bit` here.
abbrev pub has_flag : ℕ → ℕ → Bool
has_flag flags bit = flags / bit % 2 == 1

abbrev flag_if : Bool → String → List String
flag_if b letter = if b then letter ∷ [] else []

unfoldable pub section_flags_string : Section → List String
section_flags_string s =
    flag_if (has_flag s.flags 0x1) "W"
    ++ (flag_if (has_flag s.flags 0x2) "A"
        ++ (flag_if (has_flag s.flags 0x4) "X"
            ++ (flag_if (has_flag s.flags 0x10) "M"
                ++ (flag_if (has_flag s.flags 0x20) "S"
                    ++ (flag_if (has_flag s.flags 0x40) "I"
                        ++ (flag_if (has_flag s.flags 0x80) "L"
                            ++ (flag_if (has_flag s.flags 0x200) "G"
                                ++ (flag_if (has_flag s.flags 0x400) "T"
                                    ++ flag_if (has_flag s.flags 0x800) "C"))))))))

unfoldable pub segment_flags_string : Segment → List String
segment_flags_string s =
    (if has_flag s.flags 0x4 then "R" else " ")
    ∷ (if has_flag s.flags 0x2 then "W" else " ")
    ∷ (if has_flag s.flags 0x1 then "E" else " ")
    ∷ []
