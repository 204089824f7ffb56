-- ===== src/Flx/Table.antt =====
-- internal/binary/flx/disasm.go: the instruction table.
use Prim.Native.String.{String}
use go_core_lab.Common.{ℕ, List, [], ◌∷◌, Option, none, some, if◌then◌else◌, ◌==◌}

pub data OperandKind : Type 0 where
  operand_none operand_pool_idx16 operand_u8 operand_u16 operand_rel_jump_i16 : OperandKind

pub record InstructionDef : Type 0 where
  pub opcode : ℕ
  pub mnemonic : String
  pub operand_kind : OperandKind
  pub description : String

abbrev define : ℕ → String → OperandKind → String → InstructionDef
define opcode mnemonic operand_kind description = record {
  opcode = opcode;
  mnemonic = mnemonic;
  operand_kind = operand_kind;
  description = description;
}

-- The map has one entry for each opcode, so that the order of this list does not matter.
unfoldable pub opcode_table : List InstructionDef
opcode_table =
    define 0x00 "NOP" operand_none "No operation"
    ∷ define 0x01 "LOAD_CONST" operand_pool_idx16 "Push constant from pool onto stack"
    ∷ define 0x02 "LOAD_VAR" operand_pool_idx16 "Load variable by symbol name"
    ∷ define 0x03 "STORE_VAR" operand_pool_idx16 "Store TOS into symbol name"
    ∷ define 0x04 "POP" operand_none "Discard top of stack"
    ∷ define 0x05 "DUP" operand_none "Duplicate top of stack"
    ∷ define 0x06 "SWAP" operand_none "Swap top two elements on stack"
    ∷ define 0x10 "ADD" operand_none "Binary addition: TOS-1 + TOS"
    ∷ define 0x11 "SUB" operand_none "Binary subtraction: TOS-1 - TOS"
    ∷ define 0x12 "MUL" operand_none "Binary multiplication: TOS-1 * TOS"
    ∷ define 0x13 "DIV" operand_none "Binary division: TOS-1 / TOS"
    ∷ define 0x14 "MOD" operand_none "Modulo: TOS-1 % TOS"
    ∷ define 0x15 "NEG" operand_none "Unary negation: -TOS"
    ∷ define 0x16 "BIT_AND" operand_none "Bitwise AND"
    ∷ define 0x17 "BIT_OR" operand_none "Bitwise OR"
    ∷ define 0x18 "BIT_XOR" operand_none "Bitwise XOR"
    ∷ define 0x19 "BIT_NOT" operand_none "Bitwise NOT"
    ∷ define 0x20 "CMP_EQ" operand_none "Compare equality: TOS-1 == TOS"
    ∷ define 0x21 "CMP_NE" operand_none "Compare inequality: TOS-1 != TOS"
    ∷ define 0x22 "CMP_LT" operand_none "Compare less than: TOS-1 < TOS"
    ∷ define 0x23 "CMP_LE" operand_none "Compare less or equal: TOS-1 <= TOS"
    ∷ define 0x24 "CMP_GT" operand_none "Compare greater than: TOS-1 > TOS"
    ∷ define 0x25 "CMP_GE" operand_none "Compare greater or equal: TOS-1 >= TOS"
    ∷ define 0x30 "JUMP" operand_rel_jump_i16 "Unconditional relative jump"
    ∷ define 0x31 "JUMP_IF_TRUE" operand_rel_jump_i16 "Jump if TOS is truthy"
    ∷ define 0x32 "JUMP_IF_FALSE" operand_rel_jump_i16 "Jump if TOS is falsy"
    ∷ define 0x33 "LOOP" operand_rel_jump_i16 "Backward relative jump for loops"
    ∷ define 0x40 "CALL" operand_u8 "Call function with N arguments"
    ∷ define 0x41 "RET" operand_none "Return from function"
    ∷ define 0x42 "PRINT" operand_none "Debug print TOS to stdout"
    ∷ define 0x43 "ASSERT" operand_none "Assert TOS is truthy"
    ∷ define 0xFE "DEBUG" operand_none "Trigger debugger breakpoint"
    ∷ define 0xFF "HALT" operand_none "Halt execution"
    ∷ []

unfoldable pub find_def : List InstructionDef → ℕ → Option InstructionDef
find_def [] op = none
find_def (def ∷ rest) op = if def.opcode == op then some def else find_def rest op

-- `OpcodeTable[op]`
unfoldable pub lookup : ℕ → Option InstructionDef
unfolding find_def opcode_table
lookup op = find_def opcode_table op
