-- ===== src/Common/Slices.antt =====
-- Byte slices as lists of numbers: the index and slice expressions of Go with their bounds checks,
-- and the fixed-width integers of `encoding/binary` in both byte orders.
use Prim.Native.Nat.{ℕ, zero, suc, ◌+◌, ◌-◌, ◌*◌, ◌/◌, ◌%◌, ◌^◌, ◌≤◌, ◌<◌}
use mathlib.Core.Path.{◌≡◌, refl, ap, ◌∙◌}
use mathlib.Core.Bool.{◌&&◌}
use mathlib.Core.List.{List, [], ◌∷◌, ◌++◌, reverse, reverse-reverse}
use native.Mathlib.Omega.{arith}
use native.Mathlib.Nat.{pow-suc}
use go_core_lab.Common.Tests.{ltb, leb, if◌then◌else◌, le→leb, lt→ltb, lt→not_leb}
use go_core_lab.Common.Lists.{
  length, get_or, take, drop, take-length, take-append, drop-append, drop-drop, length-reverse,
  length-drop,
}
use go_core_lab.Common.Outcome.{Result, ok, panic, ◌>>=◌}

abbrev pub Bytes : Type 0
Bytes = List ℕ

abbrev pub IsByte : ℕ → Type 0
IsByte b = b < 256

abbrev pub byte : Bytes → ℕ → ℕ
byte b i = get_or b i 0

-- `b[i]`
unfoldable pub index {ℓ} : {E : Type ℓ} → Bytes → ℕ → Result E ℕ
index b i = if ltb i (length b) then ok (byte b i) else panic

-- The `n` bytes from `i` on.
abbrev pub window : Bytes → ℕ → ℕ → Bytes
window b i n = take n (drop i b)

-- `b[lo:hi]`. Go lets `hi` reach the capacity of `b`; the modelled code never asks for more than
-- the length.
unfoldable pub slice {ℓ} : {E : Type ℓ} → Bytes → ℕ → ℕ → Result E Bytes
slice b lo hi = if leb lo hi && leb hi (length b) then ok (window b lo (hi - lo)) else panic

-- The unsigned integer in a byte string, and the `n` bytes of an integer.
unfoldable pub from_le : Bytes → ℕ
from_le [] = 0
from_le (x ∷ xs) = x + 256 * from_le xs

unfoldable pub from_be : Bytes → ℕ
unfolding from_le
from_be s = from_le (reverse s)

unfoldable pub to_le : ℕ → ℕ → Bytes
to_le zero v = []
to_le (suc n) v = v % 256 ∷ to_le n (v / 256)

unfoldable pub to_be : ℕ → ℕ → Bytes
unfolding to_le
to_be n v = reverse (to_le n v)

pub data ByteOrder : Type 0 where
  little_endian big_endian : ByteOrder

unfoldable pub decode : ByteOrder → Bytes → ℕ
unfolding from_be
decode little_endian s = from_le s
decode big_endian s = from_be s

unfoldable pub encode : ByteOrder → ℕ → ℕ → Bytes
unfolding to_be
encode little_endian n v = to_le n v
encode big_endian n v = to_be n v

-- `bo.Uint16(b[i : i+2])`, `bo.Uint32(b[i : i+4])`, `bo.Uint64(b[i : i+8])`
unfoldable pub uint {ℓ} : {E : Type ℓ} → ByteOrder → ℕ → Bytes → ℕ → Result E ℕ
unfolding decode slice
uint o n b i = slice b i (i + n) >>= λ s. ok (decode o s)

pub index_lem {ℓ} :
    {E : Type ℓ} (b : Bytes) (i : ℕ) → i < length b → index {E = E} b i ≡ ok (byte b i)
unfolding index
index_lem b i h = rw (lt→ltb i (length b) h)

pub slice_lem {ℓ} :
    {E : Type ℓ} (b : Bytes) (lo hi : ℕ)
    → lo ≤ hi
    → hi ≤ length b
    → slice {E = E} b lo hi ≡ ok (window b lo (hi - lo))
unfolding slice
slice_lem b lo hi h k = rw (le→leb lo hi h, le→leb hi (length b) k)

pub slice_panics {ℓ} :
    {E : Type ℓ} (b : Bytes) (lo hi : ℕ) → hi < lo → slice {E = E} b lo hi ≡ panic
unfolding slice
slice_panics b lo hi h = rw (lt→not_leb lo hi h)

pub uint_lem {ℓ} :
    {E : Type ℓ} (o : ByteOrder) (n : ℕ) (b : Bytes) (i : ℕ)
    → i + n ≤ length b
    → uint {E = E} o n b i ≡ ok (decode o (window b i n))
unfolding uint
uint_lem o n b i h =
    rw (slice_lem b i (i + n) (omega arith) h) (ap (λ k. ok (decode o (window b i k))) sub)
  where
    sub : i + n - i ≡ n
    sub = omega arith

pub length-to_le : (n v : ℕ) → length (to_le n v) ≡ n
unfolding to_le
length-to_le zero v = refl
length-to_le (suc n) v = ap suc (length-to_le n (v / 256))

pub length-encode : (o : ByteOrder) (n v : ℕ) → length (encode o n v) ≡ n
unfolding encode
length-encode little_endian n v = length-to_le n v
length-encode big_endian n v = length-reverse (to_le n v) ∙ length-to_le n v

pub from_le-to_le : (n v : ℕ) → v < 256 ^ n → from_le (to_le n v) ≡ v
unfolding from_le to_le
from_le-to_le zero v h = omega arith
from_le-to_le (suc n) v h = omega (arith, from_le-to_le n (v / 256) small)
  where
    small : v / 256 < 256 ^ n
    small = omega (arith, pow-suc 256 n)

pub decode-encode : (o : ByteOrder) (n v : ℕ) → v < 256 ^ n → decode o (encode o n v) ≡ v
unfolding decode encode
decode-encode little_endian n v h = from_le-to_le n v h
decode-encode big_endian n v h = rw reverse-reverse (from_le-to_le n v h)

-- The windows of a concatenation.
pub window_all : (a : Bytes) (n : ℕ) → length a ≡ n → window a 0 n ≡ a
window_all a n h = rw (← h) (take-length a)

pub window_here : (a b : Bytes) (n : ℕ) → length a ≡ n → window (a ++ b) 0 n ≡ a
window_here a b n h = rw (← h) (take-append a b)

pub window_past :
    (a b : Bytes) (m k n : ℕ) → length a ≡ m → window (a ++ b) (m + k) n ≡ window b k n
window_past a b m k n h = rw (← h, ← drop-drop k (length a) (a ++ b), drop-append a b)

-- `b[lo:]`
pub slice_from {ℓ} :
    {E : Type ℓ} (b : Bytes) (lo : ℕ)
    → lo ≤ length b
    → slice {E = E} b lo (length b) ≡ ok (drop lo b)
slice_from b lo h =
    slice_lem b lo (length b) h le_self ∙ rw (← length-drop lo b, take-length (drop lo b))
  where
    le_self : length b ≤ length b
    le_self = omega arith

-- `b[:hi]`
pub slice_to {ℓ} :
    {E : Type ℓ} (b : Bytes) (hi : ℕ) → hi ≤ length b → slice {E = E} b 0 hi ≡ ok (take hi b)
slice_to b hi h = slice_lem b 0 hi zero_le h ∙ ap (λ k. ok (take k b)) whole
  where
    zero_le : 0 ≤ hi
    zero_le = omega arith

    whole : hi - 0 ≡ hi
    whole = omega arith
