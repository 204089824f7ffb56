-- ===== src/Flx/Disasm.antt =====
-- internal/binary/flx/disasm.go: Disassemble.
pub mod Cover
mod Tests
use Prim.Native.String.{String}
use go_core_lab.Common.{
  ℕ, zero, suc, ◌+◌, ◌-◌, ◌^◌, Bool, Bytes, List, [], ◌∷◌, length, Option, none, some, Result, ok,
  err, panic, ◌>>=◌, ◌>>◌, guard, index, slice, uint, little_endian, if◌then◌else◌, ltb, leb, not,
}
use go_core_lab.Flx.Table.{
  OperandKind, operand_none, operand_pool_idx16, operand_u8, operand_u16, operand_rel_jump_i16,
  InstructionDef, lookup,
}
use go_core_lab.Flx.Pool.{Constant, ConstantPool, get}

pub data Mnemonic : Type 0 where
  named : String → Mnemonic
  db : ℕ → Mnemonic

-- The target of a jump: an offset, or so many bytes before the bytecode (a negative offset in Go).
pub data Target : Type 0 where
  at before : ℕ → Target

-- What the annotation prints. A jump has the bit pattern of its int16 offset, as its operand has.
pub data Annotation : Type 0 where
  no_annotation unknown_opcode : Annotation
  constant : Constant → Annotation
  invalid_pool_idx : ℕ → Annotation
  idx : ℕ → Annotation
  argc : ℕ → Annotation
  val : ℕ → Annotation
  jump : ℕ → Target → Annotation

pub record Instruction : Type 0 where
  pub offset : ℕ
  pub opcode : ℕ
  pub mnemonic : Mnemonic
  pub raw_bytes : Bytes
  pub operand_raw : Option ℕ
  pub annotation : Annotation

pub record Truncated : Type 0 where
  pub offset : ℕ
  pub mnemonic : String

pub found_constant : ℕ → Option Constant → Annotation
found_constant i none = invalid_pool_idx i
found_constant i (some c) = constant c

pub pool_annotation : Option ConstantPool → ℕ → Annotation
unfolding found_constant
pool_annotation none i = idx i
pool_annotation (some pool) i = found_constant i (get pool i)

-- `offset + 3 + int(rel)` for the bit pattern `rel` of an int16.
pub jump_target : ℕ → ℕ → Target
jump_target offset rel =
    if ltb rel (2 ^ 15)
    then at (offset + 3 + rel)
    else if leb (2 ^ 16) (offset + 3 + rel)
    then at (offset + 3 + rel - 2 ^ 16)
    else before (2 ^ 16 - (offset + 3 + rel))

-- An instruction with a two-byte operand; the instruction and the offset behind it.
unfoldable pub wide_instruction :
    InstructionDef → Bytes → ℕ → ℕ → (ℕ → Annotation) → Result Truncated (Instruction × ℕ)
wide_instruction def bytecode offset op annotate = do
  guard (ltb (offset + 2) (length bytecode)) (record { offset = offset; mnemonic = def.mnemonic })
  v ← uint little_endian 2 bytecode (offset + 1)
  raw ← slice bytecode offset (offset + 3)
  ok (
    record {
      offset = offset;
      opcode = op;
      mnemonic = named def.mnemonic;
      raw_bytes = raw;
      operand_raw = some v;
      annotation = annotate v;
    },
    offset + 3,
  )

unfoldable pub byte_instruction :
    InstructionDef → Bytes → ℕ → ℕ → Result Truncated (Instruction × ℕ)
byte_instruction def bytecode offset op = do
  guard (ltb (offset + 1) (length bytecode)) (record { offset = offset; mnemonic = def.mnemonic })
  v ← index bytecode (offset + 1)
  raw ← slice bytecode offset (offset + 2)
  ok (
    record {
      offset = offset;
      opcode = op;
      mnemonic = named def.mnemonic;
      raw_bytes = raw;
      operand_raw = some v;
      annotation = argc v;
    },
    offset + 2,
  )

unfoldable pub bare_instruction : Mnemonic → Annotation → ℕ → ℕ → Instruction × ℕ
bare_instruction mnemonic annotation offset op = (
  record {
    offset = offset;
    opcode = op;
    mnemonic = mnemonic;
    raw_bytes = op ∷ [];
    operand_raw = none;
    annotation = annotation;
  },
  offset + 1,
)

-- The switch on the kind of operand.
unfoldable pub known_instruction :
    OperandKind
    → InstructionDef
    → Option ConstantPool
    → Bytes
    → ℕ
    → ℕ
    → Result Truncated (Instruction × ℕ)
known_instruction operand_none def pool bytecode offset op =
    ok (bare_instruction (named def.mnemonic) no_annotation offset op)
known_instruction operand_pool_idx16 def pool bytecode offset op =
    wide_instruction def bytecode offset op (pool_annotation pool)
known_instruction operand_u8 def pool bytecode offset op = byte_instruction def bytecode offset op
known_instruction operand_u16 def pool bytecode offset op =
    wide_instruction def bytecode offset op val
known_instruction operand_rel_jump_i16 def pool bytecode offset op =
    wide_instruction def bytecode offset op (λ rel. jump rel (jump_target offset rel))

unfoldable pub instruction_of :
    Option InstructionDef → Option ConstantPool → Bytes → ℕ → ℕ → Result Truncated (Instruction × ℕ)
instruction_of none pool bytecode offset op = ok (bare_instruction (db op) unknown_opcode offset op)
instruction_of (some def) pool bytecode offset op =
    known_instruction def.operand_kind def pool bytecode offset op

-- One round of the loop.
unfoldable pub decode_at : Option ConstantPool → Bytes → ℕ → Result Truncated (Instruction × ℕ)
decode_at pool bytecode offset = do
  op ← index bytecode offset
  instruction_of (lookup op) pool bytecode offset op

-- A call that fails returns the instructions before the failure beside its error.
abbrev pub Disassembly : Type 0
Disassembly = Result (List Instruction × Truncated) (List Instruction)

unfoldable pub prepend : Instruction → Disassembly → Disassembly
prepend inst (ok rest) = ok (inst ∷ rest)
prepend inst (err (rest, e)) = err (inst ∷ rest, e)
prepend inst panic = panic

-- The loop on fuel.
unfoldable pub disassemble_from : ℕ → Option ConstantPool → Bytes → ℕ → Disassembly
unfolding prepend
disassemble_from zero pool bytecode offset = ok []
disassemble_from (suc n) pool bytecode offset =
    if ltb offset (length bytecode)
    then elim (decode_at pool bytecode offset) [
      | ok (inst, next) ↦ prepend inst (disassemble_from n pool bytecode next)
      | err e ↦ err ([], e)
      | panic ↦ panic
    ]
    else ok []

-- An instruction takes at least one byte, so that the length is fuel enough.
unfoldable pub disassemble : Bytes → Option ConstantPool → Disassembly
disassemble bytecode pool = disassemble_from (length bytecode) pool bytecode 0
