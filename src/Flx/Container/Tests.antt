-- ===== src/Flx/Container/Tests.antt =====
-- internal/binary/flx/container.go: a file that holds only the bytecode HALT.
use go_core_lab.Common.{
  ◌≡◌, refl, Bytes, [], ◌∷◌, none, ok, new_reader, index, decode, from_le, read_full, seek,
}
use go_core_lab.Flx.Table.{opcode_table, find_def, lookup}
use go_core_lab.Flx.Disasm.{
  named, no_annotation, bare_instruction, known_instruction, instruction_of, decode_at, prepend,
  disassemble_from, disassemble,
}
use go_core_lab.Flx.Container.{
  File, header_of, magic_number, new_file, with_metadata, with_pool, with_instructions,
  with_bytecode, parse_reader,
}
use go_core_lab.Flx.Container.Parsed.{IsParsed, parse_reader-IsParsed}

abbrev halt_file : Bytes
halt_file =
    0x46 ∷ 0x4c ∷ 0x58 ∷ 1 ∷ 0 ∷ 1 ∷ 0 ∷ 0 ∷ 0 ∷ 0 ∷ 0 ∷ 0 ∷ 0 ∷ 0 ∷ 0 ∷ 0 ∷ 0 ∷ 0 ∷ 0 ∷ 0 ∷ 36 ∷ 0
    ∷ 0 ∷ 0 ∷ 1 ∷ 0 ∷ 0 ∷ 0 ∷ 0 ∷ 0 ∷ 0 ∷ 0 ∷ 0 ∷ 0 ∷ 0 ∷ 0 ∷ 0xff ∷ []

abbrev halt : File
halt = record {
  header = record {
    magic = magic_number;
    version = 256;
    flags = 0;
    entry_offset = 0;
    constant_pool_offset = 0;
    constant_pool_count = 0;
    bytecode_offset = 36;
    bytecode_size = 1;
    metadata_offset = 0;
    metadata_count = 0;
  };
  metadata = [];
  pool = record { entries = [] };
  bytecode = 0xff ∷ [];
  instructions =
      record {
        offset = 0;
        opcode = 0xff;
        mnemonic = named "HALT";
        raw_bytes = 0xff ∷ [];
        operand_raw = none;
        annotation = no_annotation;
      }
      ∷ [];
  path = "halt.flx";
}

parse_halt : parse_reader (new_reader halt_file) "halt.flx" ≡ ok halt
unfolding parse_reader header_of new_file with_metadata with_pool with_instructions with_bytecode
    read_full seek decode from_le disassemble disassemble_from decode_at instruction_of
    known_instruction bare_instruction prepend lookup find_def opcode_table index
parse_halt = refl

parse_reader-IsParsed_example : IsParsed "halt.flx" halt
parse_reader-IsParsed_example =
    parse_reader-IsParsed (new_reader halt_file) "halt.flx" halt parse_halt
