-- ===== src/Flx/Disasm/Cover.antt =====
-- internal/binary/flx/disasm.go, Disassemble: the instructions and the bytecode.
use go_core_lab.Common.{
  ℕ, zero, suc, ◌+◌, ◌-◌, ◌<◌, ◌≤◌, ◌≡◌, refl, sym, ap, ◌∙◌, subst, Bytes, List, [], ◌∷◌, ◌++◌,
  length, drop, drop-drop, length-drop, length-take, take-append-drop, append_assoc, byte, window,
  Option, none, some, Result, ok, err, panic, index_lem, slice_lem, uint_lem, little_endian, ltb,
  arith, Bool-cases, inl, inr, ltb→lt,
}
use go_core_lab.Flx.Table.{
  OperandKind, operand_none, operand_pool_idx16, operand_u8, operand_u16, operand_rel_jump_i16,
  InstructionDef, lookup,
}
use go_core_lab.Flx.Pool.{ConstantPool}
use go_core_lab.Flx.Disasm.{
  Annotation, Mnemonic, Instruction, Truncated, wide_instruction, byte_instruction,
  bare_instruction, known_instruction, instruction_of, decode_at, Disassembly, prepend,
  disassemble_from, disassemble,
}

unfoldable pub raw_of : List Instruction → Bytes
raw_of [] = []
raw_of (i ∷ is) = i.raw_bytes ++ raw_of is

-- Each instruction stands where the one before it ends.
unfoldable pub LaidFrom : ℕ → List Instruction → Type 0
LaidFrom offset [] = Unit
LaidFrom offset (i ∷ is) = (i.offset ≡ offset) × LaidFrom (offset + length i.raw_bytes) is

-- The disassembly of the bytecode from an offset on.
unfoldable pub CoversFrom : Bytes → ℕ → Disassembly → Type 0
CoversFrom b offset (ok is) = (raw_of is ≡ drop offset b) × LaidFrom offset is
CoversFrom b offset (err (is, e)) =
    (raw_of is ++ drop e.offset b ≡ drop offset b)
    × LaidFrom offset is
    × (e.offset < length b)
    × (length b < e.offset + 3)
CoversFrom b offset panic = ⊥

Fetched : Bytes → ℕ → Result Truncated (Instruction × ℕ) → Type 0
Fetched b offset (ok (i, next)) =
    (i.offset ≡ offset)
    × (next ≡ offset + length i.raw_bytes)
    × (i.raw_bytes ++ drop next b ≡ drop offset b)
    × (offset < next)
    × (next ≤ length b)
Fetched b offset (err e) = (e.offset ≡ offset) × (length b < offset + 3)
Fetched b offset panic = ⊥

cut_at : (b : Bytes) (offset k : ℕ) → window b offset k ++ drop (offset + k) b ≡ drop offset b
cut_at b offset k = rw (← drop-drop k offset b) (take-append-drop k (drop offset b))

first_byte : (b : Bytes) (offset : ℕ) → offset < length b → window b offset 1 ≡ byte b offset ∷ []
first_byte [] offset h = absurd (omega arith)
first_byte (x ∷ xs) zero h = refl
first_byte (x ∷ xs) (suc offset) h = first_byte xs offset (omega arith)

length-window : (b : Bytes) (offset k : ℕ) → offset + k ≤ length b → length (window b offset k) ≡ k
length-window b offset k h = omega (arith, length-take k (drop offset b), length-drop offset b)

module _ (b : Bytes) (offset : ℕ) (inside : offset < length b) where
  bare-Fetched :
      (m : Mnemonic) (a : Annotation)
      → Fetched b offset (ok (bare_instruction m a offset (byte b offset)))
  unfolding Fetched bare_instruction
  bare-Fetched m a = (
    refl,
    refl,
    ap (λ s. s ++ drop (offset + 1) b) (sym (first_byte b offset inside)) ∙ cut_at b offset 1,
    omega arith,
    omega arith,
  )

  minus : (k : ℕ) → offset + k - offset ≡ k
  minus k = omega arith

  wide-Fetched :
      (def : InstructionDef) (op : ℕ) (annotate : ℕ → Annotation)
      → Fetched b offset (wide_instruction def b offset op annotate)
  unfolding wide_instruction
  wide-Fetched def op annotate = elim (Bool-cases (ltb (offset + 2) (length b))) [
    | inr short ↦ rw (short, wide_instruction) (unfold Fetched in (refl, ground arith))
    | inl long ↦
        let fits : offset + 3 ≤ length b = ground arith in
        rw
          (
            long,
            wide_instruction,
            uint_lem little_endian 2 b (offset + 1) (omega arith),
            slice_lem b offset (offset + 3) (omega arith) fits,
            minus 3,
          )
          (unfold Fetched in
            (refl, rw (length-window b offset 3 fits), cut_at b offset 3, omega arith, fits))
  ]

  byte-Fetched :
      (def : InstructionDef) (op : ℕ) → Fetched b offset (byte_instruction def b offset op)
  unfolding byte_instruction
  byte-Fetched def op = elim (Bool-cases (ltb (offset + 1) (length b))) [
    | inr short ↦ rw (short, byte_instruction) (unfold Fetched in (refl, ground arith))
    | inl long ↦
        let fits : offset + 2 ≤ length b = ground arith in
        rw
          (
            long,
            byte_instruction,
            index_lem b (offset + 1) (omega arith),
            slice_lem b offset (offset + 2) (omega arith) fits,
            minus 2,
          )
          (unfold Fetched in
            (refl, rw (length-window b offset 2 fits), cut_at b offset 2, omega arith, fits))
  ]

  known-Fetched :
      (k : OperandKind) (def : InstructionDef) (pool : Option ConstantPool)
      → Fetched b offset (known_instruction k def pool b offset (byte b offset))
  unfolding known_instruction
  known-Fetched operand_none def pool = bare-Fetched _ _
  known-Fetched operand_pool_idx16 def pool = wide-Fetched def _ _
  known-Fetched operand_u8 def pool = byte-Fetched def _
  known-Fetched operand_u16 def pool = wide-Fetched def _ _
  known-Fetched operand_rel_jump_i16 def pool = wide-Fetched def _ _

  of-Fetched :
      (o : Option InstructionDef) (pool : Option ConstantPool)
      → Fetched b offset (instruction_of o pool b offset (byte b offset))
  unfolding instruction_of
  of-Fetched none pool = bare-Fetched _ _
  of-Fetched (some def) pool = known-Fetched def.operand_kind def pool

  decode_at-Fetched : (pool : Option ConstantPool) → Fetched b offset (decode_at pool b offset)
  unfolding decode_at
  decode_at-Fetched pool = rw (index_lem b offset inside) (of-Fetched (lookup (byte b offset)) pool)

module _ (b : Bytes) (offset : ℕ) where
  -- An instruction goes in front of the disassembly of what follows it.
  prepend-CoversFrom :
      (i : Instruction) (next : ℕ) (d : Disassembly)
      → Fetched b offset (ok (i, next))
      → CoversFrom b next d
      → CoversFrom b offset (prepend i d)
  unfolding Fetched CoversFrom prepend raw_of LaidFrom
  prepend-CoversFrom i next (ok is) (here, step, bytes, more, fits) (raw, laid) =
      (ap (λ s. i.raw_bytes ++ s) raw ∙ bytes, (here, subst (λ n. LaidFrom n is) step laid))
  prepend-CoversFrom i next (err (is, e)) (here, step, bytes, more, fits)
        (raw, laid, inside, short) =
      (
        append_assoc i.raw_bytes (raw_of is) (drop e.offset b)
            ∙ (ap (λ s. i.raw_bytes ++ s) raw ∙ bytes),
        (here, subst (λ n. LaidFrom n is) step laid),
        inside,
        short,
      )
  prepend-CoversFrom i next panic f c = c

  drop_all : length b ≤ offset → [] ≡ drop offset b
  drop_all h = empty (drop offset b) (omega (arith, length-drop offset b))
    where
      empty : (s : Bytes) → length s ≡ 0 → [] ≡ s
      empty [] h = refl
      empty (x ∷ xs) h = absurd (omega arith)

disassemble_from-CoversFrom :
    (n : ℕ) (pool : Option ConstantPool) (b : Bytes) (offset : ℕ)
    → length b ≤ offset + n
    → CoversFrom b offset (disassemble_from n pool b offset)
unfolding disassemble_from
disassemble_from-CoversFrom zero pool b offset h =
    unfold CoversFrom raw_of LaidFrom in (drop_all b offset (omega arith), tt)
disassemble_from-CoversFrom (suc n) pool b offset h = elim (Bool-cases (ltb offset (length b))) [
  | inr done ↦
      rw (done, disassemble_from)
        (unfold CoversFrom raw_of LaidFrom in (drop_all b offset (ground arith), tt))
  | inl inside ↦
      rw (inside, disassemble_from)
        (go (ltb→lt offset (length b) inside) (decode_at pool b offset)
          (decode_at-Fetched b offset (ltb→lt offset (length b) inside) pool)
          (λ next more. disassemble_from-CoversFrom n pool b next (omega arith)))
]
  where
    go :
        offset < length b
        → (d : Result Truncated (Instruction × ℕ)) → Fetched b offset d
        → ((next : ℕ) → offset < next → CoversFrom b next (disassemble_from n pool b next))
        → CoversFrom b offset (elim d [
          | ok (inst, next) ↦ prepend inst (disassemble_from n pool b next)
          | err e ↦ err ([], e)
          | panic ↦ panic
        ])
    go lt (ok (i, next)) f rest =
        prepend-CoversFrom b offset i next _ f (rest next (unfold Fetched in f.3))
    go lt (err e) f rest =
        unfold Fetched CoversFrom raw_of LaidFrom in
        (ap (λ k. drop k b) f.0, tt, omega (arith, f.0), omega (arith, f.0, f.1))
    go lt panic f rest = unfold Fetched CoversFrom in f

-- Disassemble never panics, with a pool or without. The instructions that it returns stand one behind
-- the other from offset 0 on, and their raw bytes are the bytecode; beside an error, they are the
-- bytecode up to the offset in the error, which lies in the last two bytes.
pub disassemble-CoversFrom :
    (b : Bytes) (pool : Option ConstantPool) → CoversFrom b 0 (disassemble b pool)
unfolding disassemble
disassemble-CoversFrom b pool = disassemble_from-CoversFrom (length b) pool b 0 (omega arith)
