-- ===== src/Flx/Disasm/Tests.antt =====
-- internal/binary/flx/disasm.go: a short program and a truncated one.
use go_core_lab.Common.{
  ◌≡◌, refl, Bytes, [], ◌∷◌, none, some, ok, index, slice, uint, decode, from_le,
}
use go_core_lab.Flx.Table.{opcode_table, find_def, lookup}
use go_core_lab.Flx.Disasm.{
  named, db, unknown_opcode, idx, jump, at, pool_annotation, jump_target, wide_instruction,
  bare_instruction, known_instruction, instruction_of, decode_at, prepend, disassemble_from,
  disassemble,
}
use go_core_lab.Flx.Disasm.Cover.{CoversFrom, disassemble-CoversFrom}

-- LOAD_CONST 5, an unknown byte, and a jump back to the start.
abbrev program : Bytes
program = 0x01 ∷ 5 ∷ 0 ∷ 0x99 ∷ 0x30 ∷ 0xf9 ∷ 0xff ∷ []

program_disassembly :
    disassemble program none
    ≡ ok (
        record {
          offset = 0;
          opcode = 1;
          mnemonic = named "LOAD_CONST";
          raw_bytes = 1 ∷ 5 ∷ 0 ∷ [];
          operand_raw = some 5;
          annotation = idx 5;
        }
        ∷ record {
          offset = 3;
          opcode = 0x99;
          mnemonic = db 0x99;
          raw_bytes = 0x99 ∷ [];
          operand_raw = none;
          annotation = unknown_opcode;
        }
        ∷ record {
          offset = 4;
          opcode = 0x30;
          mnemonic = named "JUMP";
          raw_bytes = 0x30 ∷ 0xf9 ∷ 0xff ∷ [];
          operand_raw = some 0xfff9;
          annotation = jump 0xfff9 (at 0);
        }
        ∷ [])
unfolding disassemble disassemble_from decode_at instruction_of known_instruction wide_instruction
    bare_instruction prepend pool_annotation jump_target lookup find_def opcode_table index slice
    uint decode from_le
program_disassembly = refl

disassemble-CoversFrom_example : CoversFrom (0x40 ∷ []) 0 (disassemble (0x40 ∷ []) none)
disassemble-CoversFrom_example = disassemble-CoversFrom (0x40 ∷ []) none
