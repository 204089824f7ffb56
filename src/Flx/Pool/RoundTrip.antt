-- ===== src/Flx/Pool/RoundTrip.antt =====
-- internal/binary/flx/pool.go, DecodePool: the decoder in front of the bytes of a pool.
use go_core_lab.Common.{
  ℕ, ◌+◌, ◌^◌, ◌<◌, ◌≡◌, refl, ap, ◌∙◌, Bool, true, false, Bytes, List, [], ◌∷◌, ◌++◌, append_assoc,
  length, All, Result, ok, Reader, remaining, advance, little_endian, encode, read_uint_at,
  remaining_uint, read_full_at, remaining_at, if◌then◌else◌, arith,
}
use go_core_lab.Flx.Pool.{
  tag_null, tag_int, tag_float, tag_string, tag_symbol, tag_bool, Value, nil, int, float, string,
  bool, Constant, decode_int, decode_float, decode_string, decode_bool, decode_value,
  decode_constant, decode_constants, decode_pool,
}

-- The constants of a program: integers and floats as their 64 bits.
pub data Literal : Type 0 where
  null_lit : Literal
  int_lit : ℕ → Literal
  float_lit : ℕ → Literal
  string_lit : Bytes → Literal
  symbol_lit : Bytes → Literal
  bool_lit : Bool → Literal

pub tag_of : Literal → ℕ
tag_of null_lit = tag_null
tag_of (int_lit v) = tag_int
tag_of (float_lit v) = tag_float
tag_of (string_lit s) = tag_string
tag_of (symbol_lit s) = tag_symbol
tag_of (bool_lit b) = tag_bool

pub value_of : Literal → Value
value_of null_lit = nil
value_of (int_lit v) = int v
value_of (float_lit v) = float v
value_of (string_lit s) = string s
value_of (symbol_lit s) = string s
value_of (bool_lit b) = bool b

abbrev string_bytes : Bytes → Bytes
string_bytes s = encode little_endian 4 (length s) ++ s

pub value_bytes : Literal → Bytes
value_bytes null_lit = []
value_bytes (int_lit v) = encode little_endian 8 v
value_bytes (float_lit v) = encode little_endian 8 v
value_bytes (string_lit s) = string_bytes s
value_bytes (symbol_lit s) = string_bytes s
value_bytes (bool_lit b) = encode little_endian 1 (if b then 1 else 0)

-- What the format can hold.
unfoldable pub FitsPool : Literal → Type 0
FitsPool null_lit = Unit
FitsPool (int_lit v) = v < 256 ^ 8
FitsPool (float_lit v) = v < 256 ^ 8
FitsPool (string_lit s) = length s < 256 ^ 4
FitsPool (symbol_lit s) = length s < 256 ^ 4
FitsPool (bool_lit b) = Unit

pub pool_bytes : List Literal → Bytes
pool_bytes [] = []
pool_bytes (l ∷ ls) = encode little_endian 1 (tag_of l) ++ (value_bytes l ++ pool_bytes ls)

pub numbered : ℕ → List Literal → List Constant
numbered i [] = []
numbered i (l ∷ ls) = record { index = i; tag = tag_of l; value = value_of l } ∷ numbered (i + 1) ls

-- A decoder that returns a value, and the reader behind the bytes of the value.
Decodes : {A E : Type 0} → Result E (A × Reader) → A → Bytes → Type 0
Decodes {A} {E} m a rest = (r' : Reader) × (m ≡ ok (a, r')) × (remaining r' ≡ rest)

module _ (i : ℕ) (rest : Bytes) (r : Reader) where
  int-Decodes :
      (v : ℕ)
      → v < 256 ^ 8
      → remaining r ≡ encode little_endian 8 v ++ rest
      → Decodes (decode_int i r) (int v) rest
  unfolding decode_int Decodes
  int-Decodes v h at = (
    advance 8 r,
    rw (read_uint_at little_endian 8 v rest r at h),
    remaining_uint little_endian 8 v rest r at,
  )

  float-Decodes :
      (v : ℕ)
      → v < 256 ^ 8
      → remaining r ≡ encode little_endian 8 v ++ rest
      → Decodes (decode_float i r) (float v) rest
  unfolding decode_float Decodes
  float-Decodes v h at = (
    advance 8 r,
    rw (read_uint_at little_endian 8 v rest r at h),
    remaining_uint little_endian 8 v rest r at,
  )

  string-Decodes :
      (s : Bytes)
      → length s < 256 ^ 4
      → remaining r ≡ string_bytes s ++ rest
      → Decodes (decode_string i r) (string s) rest
  unfolding decode_string Decodes
  string-Decodes s h at =
      let at_length = at ∙ append_assoc (encode little_endian 4 (length s)) s rest in
      let at_bytes = remaining_uint little_endian 4 (length s) (s ++ rest) r at_length in
      (
        advance (length s) (advance 4 r),
        rw (
          read_uint_at little_endian 4 (length s) (s ++ rest) r at_length h,
          read_full_at s rest (length s) (advance 4 r) refl at_bytes,
        ),
        remaining_at s rest (length s) (advance 4 r) refl at_bytes,
      )

  bool-Decodes :
      (b : Bool)
      → remaining r ≡ encode little_endian 1 (if b then 1 else 0) ++ rest
      → Decodes (decode_bool i r) (bool b) rest
  unfolding decode_bool Decodes
  bool-Decodes true at = (
    advance 1 r,
    rw (read_uint_at little_endian 1 1 rest r at (omega arith)),
    remaining_uint little_endian 1 1 rest r at,
  )
  bool-Decodes false at = (
    advance 1 r,
    rw (read_uint_at little_endian 1 0 rest r at (omega arith)),
    remaining_uint little_endian 1 0 rest r at,
  )

  value-Decodes :
      (l : Literal)
      → FitsPool l
      → remaining r ≡ value_bytes l ++ rest
      → Decodes (decode_value i (tag_of l) r) (value_of l) rest
  unfolding FitsPool value_bytes decode_value tag_of value_of
  value-Decodes null_lit h at = unfold Decodes in (r, refl, at)
  value-Decodes (int_lit v) h at = int-Decodes v h at
  value-Decodes (float_lit v) h at = float-Decodes v h at
  value-Decodes (string_lit s) h at = string-Decodes s h at
  value-Decodes (symbol_lit s) h at = string-Decodes s h at
  value-Decodes (bool_lit b) h at = bool-Decodes b at

tag-small : (l : Literal) → tag_of l < 256 ^ 1
unfolding tag_of
tag-small null_lit = omega arith
tag-small (int_lit v) = omega arith
tag-small (float_lit v) = omega arith
tag-small (string_lit s) = omega arith
tag-small (symbol_lit s) = omega arith
tag-small (bool_lit b) = omega arith

constants-Decodes :
    (ls : List Literal) (i : ℕ) (rest : Bytes) (r : Reader)
    → All FitsPool ls
    → remaining r ≡ pool_bytes ls ++ rest
    → Decodes (decode_constants (length ls) i r) (numbered i ls) rest
unfolding Decodes decode_constants decode_constant pool_bytes numbered
constants-Decodes [] i rest r fits at = (r, refl, at)
constants-Decodes (l ∷ ls) i rest r fits at =
    let tail = pool_bytes ls ++ rest in
    let at_tag : remaining r ≡ encode little_endian 1 (tag_of l) ++ (value_bytes l ++ tail) =
      at
      ∙ (append_assoc _ (value_bytes l ++ pool_bytes ls) rest
          ∙ ap (λ s. encode little_endian 1 (tag_of l) ++ s)
              (append_assoc (value_bytes l) (pool_bytes ls) rest)) in
    let (r₁, found, at_next) =
      value-Decodes i tail (advance 1 r) l fits.0
        (remaining_uint little_endian 1 (tag_of l) (value_bytes l ++ tail) r at_tag) in
    let (r₂, others, behind) = constants-Decodes ls (i + 1) rest r₁ fits.1 at_next in
    (
      r₂,
      rw (read_uint_at little_endian 1 (tag_of l) _ r at_tag (tag-small l), found, others),
      behind,
    )

-- From a reader in front of the bytes of some constants that fit the format, DecodePool with their
-- number returns the pool of these constants, numbered from 0, and the reader stands behind them.
pub decode_pool-pool_bytes :
    (ls : List Literal) (rest : Bytes) (r : Reader)
    → All FitsPool ls
    → remaining r ≡ pool_bytes ls ++ rest
    → (r' : Reader) × (decode_pool r (length ls) ≡ ok (record { entries = numbered 0 ls }, r'))
      × (remaining r' ≡ rest)
unfolding decode_pool Decodes
decode_pool-pool_bytes ls rest r fits at =
    let (r', read, behind) = constants-Decodes ls 0 rest r fits at in (r', rw read, behind)
