-- ===== src/Flx/Pool.antt =====
-- internal/binary/flx/pool.go: the constant pool and its decoder.
pub mod RoundTrip
mod Tests
use go_core_lab.Common.{
  ℕ, zero, suc, ◌+◌, ◌%◌, ◌^◌, Bool, not, Bytes, List, [], ◌∷◌, length, Option, none, some, Result,
  ok, err, ◌>>=◌, wrap, Reader, IoError, little_endian, read_uint, read_full, if◌then◌else◌, ◌==◌,
}

abbrev pub tag_null : ℕ
tag_null = 0

abbrev pub tag_int : ℕ
tag_int = 1

abbrev pub tag_float : ℕ
tag_float = 2

abbrev pub tag_string : ℕ
tag_string = 3

abbrev pub tag_symbol : ℕ
tag_symbol = 4

abbrev pub tag_bool : ℕ
tag_bool = 5

-- The value of a constant: int64 and float64 as their bit patterns, a string as its bytes.
pub data Value : Type 0 where
  nil : Value
  int : ℕ → Value
  float : ℕ → Value
  string : Bytes → Value
  bool : Bool → Value

pub record Constant : Type 0 where
  pub index : ℕ
  pub tag : ℕ
  pub value : Value

pub record ConstantPool : Type 0 where
  pub entries : List Constant

pub nth : List Constant → ℕ → Option Constant
nth [] i = none
nth (c ∷ cs) zero = some c
nth (c ∷ cs) (suc i) = nth cs i

-- Get, whose error is `none`; the indices of the disassembler are not negative.
pub get : ConstantPool → ℕ → Option Constant
unfolding nth
get cp idx = nth cp.entries idx

-- Each error carries the number of the constant.
pub data PoolError : Type 0 where
  read_tag : ℕ → IoError → PoolError
  read_int : ℕ → IoError → PoolError
  read_float : ℕ → IoError → PoolError
  read_string_length : ℕ → IoError → PoolError
  read_string_bytes : ℕ → IoError → PoolError
  read_bool : ℕ → IoError → PoolError
  unsupported_tag : ℕ → ℕ → PoolError

pub decode_int : ℕ → Reader → Result PoolError (Value × Reader)
decode_int i r = do (v, r) ← wrap (read_int i) (read_uint little_endian 8 r); ok (int v, r)

pub decode_float : ℕ → Reader → Result PoolError (Value × Reader)
decode_float i r = do
  (bits, r) ← wrap (read_float i) (read_uint little_endian 8 r)
  ok (float bits, r)

pub decode_string : ℕ → Reader → Result PoolError (Value × Reader)
decode_string i r = do
  (str_len, r) ← wrap (read_string_length i) (read_uint little_endian 4 r)
  (str_bytes, r) ← wrap (read_string_bytes i) (read_full str_len r)
  ok (string str_bytes, r)

pub decode_bool : ℕ → Reader → Result PoolError (Value × Reader)
decode_bool i r = do
  (b, r) ← wrap (read_bool i) (read_uint little_endian 1 r)
  ok (bool (not (b == 0)), r)

-- The switch on the tag.
pub decode_value : ℕ → ℕ → Reader → Result PoolError (Value × Reader)
unfolding decode_int decode_float decode_string decode_bool
decode_value i tag r =
    if tag == tag_null
    then ok (nil, r)
    else if tag == tag_int
    then decode_int i r
    else if tag == tag_float
    then decode_float i r
    else if tag == tag_string
    then decode_string i r
    else if tag == tag_symbol
    then decode_string i r
    else if tag == tag_bool
    then decode_bool i r
    else err (unsupported_tag tag i)

pub decode_constant : ℕ → Reader → Result PoolError (Constant × Reader)
decode_constant i r = do
  (tag, r) ← wrap (read_tag i) (read_uint little_endian 1 r)
  (v, r) ← decode_value i tag r
  ok (record { index = i; tag = tag; value = v }, r)

-- The loop from constant `i` on, with `n` to go. The partly filled pool beside an error is used by no
-- caller.
pub decode_constants : ℕ → ℕ → Reader → Result PoolError (List Constant × Reader)
decode_constants zero i r = ok ([], r)
decode_constants (suc n) i r = do
  (c, r) ← decode_constant i r
  (cs, r) ← decode_constants n (i + 1) r
  ok (c ∷ cs, r)

pub decode_pool : Reader → ℕ → Result PoolError (ConstantPool × Reader)
decode_pool r n = do (cs, r) ← decode_constants n 0 r; ok (record { entries = cs }, r)
