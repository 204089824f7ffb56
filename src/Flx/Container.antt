-- ===== src/Flx/Container.antt =====
-- internal/binary/flx/container.go: the parser of a .flx file over a byte reader.
pub mod Parsed
mod Tests
use Prim.Native.String.{String}
use go_core_lab.Common.{
  ℕ, zero, suc, ◌+◌, Bool, true, false, ◌&&◌, Bytes, List, [], ◌∷◌, Option, none, some, Result, ok,
  err, panic, ◌>>=◌, ◌>>◌, guard, wrap, Reader, new_reader, IoError, little_endian, decode, window,
  read_uint, read_full, seek, if◌then◌else◌, ltb, ◌==◌,
}
use go_core_lab.Flx.Pool.{ConstantPool, PoolError, decode_pool}
use go_core_lab.Flx.Disasm.{Instruction, Truncated, Disassembly, disassemble}

pub record Header : Type 0 where
  pub magic : ℕ
  pub version : ℕ
  pub flags : ℕ
  pub entry_offset : ℕ
  pub constant_pool_offset : ℕ
  pub constant_pool_count : ℕ
  pub bytecode_offset : ℕ
  pub bytecode_size : ℕ
  pub metadata_offset : ℕ
  pub metadata_count : ℕ

-- `Magic`, its four bytes as a little-endian number.
abbrev pub magic_number : ℕ
magic_number = 0x01584c46

-- The layout that `binary.Read` takes from the fields: 36 bytes.
pub header_of : Bytes → Header
header_of s = record {
  magic = decode little_endian (window s 0 4);
  version = decode little_endian (window s 4 2);
  flags = decode little_endian (window s 6 2);
  entry_offset = decode little_endian (window s 8 4);
  constant_pool_offset = decode little_endian (window s 12 4);
  constant_pool_count = decode little_endian (window s 16 4);
  bytecode_offset = decode little_endian (window s 20 4);
  bytecode_size = decode little_endian (window s 24 4);
  metadata_offset = decode little_endian (window s 28 4);
  metadata_count = decode little_endian (window s 32 4);
}

-- The metadata map is a list of keys and values, the latest first: a key stands for its first value.
pub record File : Type 0 where
  pub header : Header
  pub metadata : List (Bytes × Bytes)
  pub pool : ConstantPool
  pub bytecode : Bytes
  pub instructions : List Instruction
  pub path : String

pub data ParseError : Type 0 where
  read_header : IoError → ParseError
  invalid_magic : ℕ → ParseError
  seek_metadata : IoError → ParseError
  read_key_length : ℕ → IoError → ParseError
  read_key : ℕ → IoError → ParseError
  read_value_length : ℕ → IoError → ParseError
  read_value : ℕ → IoError → ParseError
  seek_pool : IoError → ParseError
  bad_pool : PoolError → ParseError
  seek_bytecode : IoError → ParseError
  read_bytecode : IoError → ParseError
  bad_bytecode : Truncated → ParseError

-- The loop over the metadata table, from entry `i` on, with `n` to go.
pub parse_metadata :
    ℕ → ℕ → List (Bytes × Bytes) → Reader → Result ParseError (List (Bytes × Bytes) × Reader)
parse_metadata zero i table r = ok (table, r)
parse_metadata (suc n) i table r = do
  (key_len, r) ← wrap (read_key_length i) (read_uint little_endian 2 r)
  (key, r) ← wrap (read_key i) (read_full key_len r)
  (val_len, r) ← wrap (read_value_length i) (read_uint little_endian 2 r)
  (value, r) ← wrap (read_value i) (read_full val_len r)
  parse_metadata n (i + 1) ((key, value) ∷ table) r

abbrev present : ℕ → ℕ → Bool
present offset count = ltb 0 offset && ltb 0 count

pub with_metadata : File → Reader → Result ParseError (File × Reader)
with_metadata f r =
    if present f.header.metadata_offset f.header.metadata_count
    then (wrap seek_metadata (seek f.header.metadata_offset r) >>= λ r.
        parse_metadata f.header.metadata_count 0 [] r >>= λ (table, r).
        ok (record f { metadata = table }, r))
    else ok (f, r)

pub with_pool : File → Reader → Result ParseError (File × Reader)
with_pool f r =
    if present f.header.constant_pool_offset f.header.constant_pool_count
    then (wrap seek_pool (seek f.header.constant_pool_offset r) >>= λ r.
        wrap bad_pool (decode_pool r f.header.constant_pool_count) >>= λ (pool, r).
        ok (record f { pool = pool }, r))
    else ok (f, r)

-- What becomes of a disassembly.
pub with_instructions : File → Disassembly → Result ParseError File
with_instructions f (ok instructions) = ok (record f { instructions = instructions })
with_instructions f (err (before, e)) = err (bad_bytecode e)
with_instructions f panic = panic

pub with_bytecode : File → Reader → Result ParseError File
with_bytecode f r =
    if present f.header.bytecode_offset f.header.bytecode_size
    then (wrap seek_bytecode (seek f.header.bytecode_offset r) >>= λ r.
        wrap read_bytecode (read_full f.header.bytecode_size r) >>= λ (bytecode, r).
        with_instructions (record f { bytecode = bytecode }) (disassemble bytecode (some f.pool)))
    else ok f

pub new_file : Header → String → File
new_file hdr path = record {
  header = hdr;
  metadata = [];
  pool = record { entries = [] };
  bytecode = [];
  instructions = [];
  path = path;
}

pub parse_reader : Reader → String → Result ParseError File
parse_reader r path = do
  (s, r) ← wrap read_header (read_full 36 r)
  let hdr = header_of s
  guard (hdr.magic == magic_number) (invalid_magic hdr.magic)
  (f, r) ← with_metadata (new_file hdr path) r
  (f, r) ← with_pool f r
  with_bytecode f r

pub parse_flx_bytes : Bytes → String → Result ParseError File
parse_flx_bytes data_bytes path = parse_reader (new_reader data_bytes) path
