-- ===== src/Common/Streams.antt =====
-- `bytes.Reader` as a byte string and a position, with `io.ReadFull`, `binary.Read` and `Seek`.
use Prim.Native.Nat.{ℕ, ◌+◌, ◌-◌, ◌^◌, ◌≤◌, ◌<◌}
use mathlib.Core.Path.{◌≡◌, sym, ap, ◌∙◌}
use mathlib.Core.List.{[], ◌∷◌, ◌++◌}
use native.Mathlib.Omega.{arith}
use go_core_lab.Common.Tests.{leb, lt→not_leb, ◌==◌, if◌then◌else◌}
use go_core_lab.Common.Lists.{
  length, take, drop, replicate, length-append, take-append, drop-append, drop-drop,
}
use go_core_lab.Common.Outcome.{Result, ok, err, ◌>>=◌}
use go_core_lab.Common.Slices.{Bytes, ByteOrder, decode, encode, decode-encode, length-encode}
use native.Mathlib.Nat.{add-zero}

-- `io.EOF`, `io.ErrUnexpectedEOF`, and the refusal of a negative position by `Seek`.
pub data IoError : Type 0 where
  eof unexpected_eof negative_position : IoError

pub record Reader : Type 0 where
  pub bytes : Bytes
  pub pos : ℕ

-- `bytes.NewReader(data)`
abbrev pub new_reader : Bytes → Reader
new_reader b = record { bytes = b; pos = 0 }

-- What has not been read.
abbrev pub remaining : Reader → Bytes
remaining r = drop r.pos r.bytes

abbrev pub advance : ℕ → Reader → Reader
advance n r = record r { pos = r.pos + n }

-- `io.ReadFull(r, make([]byte, n))`; an error leaves the reader behind the last byte, which no
-- caller looks at before it seeks.
unfoldable pub read_full : ℕ → Reader → Result IoError (Bytes × Reader)
read_full n r =
    if n == 0
    then ok ([], r)
    else if length (remaining r) == 0
    then err eof
    else if leb n (length (remaining r))
    then ok (take n (remaining r), advance n r)
    else err unexpected_eof

-- `io.ReadFull` into a zeroed buffer of `n` bytes whose error is thrown away.
unfoldable pub read_padded : ℕ → Reader → Bytes
read_padded n r = take n (remaining r) ++ replicate (n - length (remaining r)) 0

-- `binary.Read` of an unsigned integer of `n` bytes.
unfoldable pub read_uint : ByteOrder → ℕ → Reader → Result IoError (ℕ × Reader)
unfolding read_full
read_uint o n r = do (s, r') ← read_full n r; ok (decode o s, r')

-- `r.Seek(int64(offset), io.SeekStart)` for an unsigned 64-bit offset.
unfoldable pub seek : ℕ → Reader → Result IoError Reader
seek offset r =
    if leb (2 ^ 63) offset then err negative_position else ok (record r { pos = offset })

abbrev pub at_offset : ℕ → Reader → Reader
at_offset offset r = record r { pos = offset }

pub seek_lem : (offset : ℕ) (r : Reader) → offset < 2 ^ 63 → seek offset r ≡ ok (at_offset offset r)
unfolding seek
seek_lem offset r h = rw (lt→not_leb (2 ^ 63) offset h)

pub remaining-advance : (n : ℕ) (r : Reader) → remaining (advance n r) ≡ drop n (remaining r)
remaining-advance n r = sym (drop-drop n r.pos r.bytes)

-- The next `n` bytes are read whole, if they are there.
pub read_full_lem :
    (n : ℕ) (r : Reader)
    → 0 < n
    → n ≤ length (remaining r)
    → read_full n r ≡ ok (take n (remaining r), advance n r)
unfolding read_full
read_full_lem n r h k = ground arith

read_full_self :
    (s rest : Bytes) (r : Reader)
    → remaining r ≡ s ++ rest
    → read_full (length s) r ≡ ok (s, advance (length s) r)
read_full_self [] rest r at =
    unfold read_full in
    ap {B = Result IoError (Bytes × Reader)} (λ p. ok ([], record { bytes = r.bytes; pos = p }))
      (sym (add-zero r.pos))
read_full_self (x ∷ xs) rest r at =
    read_full_lem (length (x ∷ xs)) r (omega arith)
      (rw at (omega (arith, length-append (x ∷ xs) rest)))
    ∙ rw (at, take-append (x ∷ xs) rest)

-- A reader in front of the bytes `s` reads them, and stands behind them.
module _ (s rest : Bytes) (n : ℕ) (r : Reader) (len : length s ≡ n)
    (at : remaining r ≡ s ++ rest) where
  pub remaining_at : remaining (advance n r) ≡ rest
  remaining_at = remaining-advance n r ∙ rw (at, ← len) (drop-append s rest)

  pub read_full_at : read_full n r ≡ ok (s, advance n r)
  read_full_at = rw (← len) (read_full_self s rest r at)

-- So it reads back an integer that was encoded there.
module _ (o : ByteOrder) (n v : ℕ) (rest : Bytes) (r : Reader)
    (at : remaining r ≡ encode o n v ++ rest) where
  pub remaining_uint : remaining (advance n r) ≡ rest
  remaining_uint = remaining_at (encode o n v) rest n r (length-encode o n v) at

  pub read_uint_at : v < 256 ^ n → read_uint o n r ≡ ok (v, advance n r)
  unfolding read_uint
  read_uint_at small =
      rw (read_full_at (encode o n v) rest n r (length-encode o n v) at, decode-encode o n v small)

-- Too few bytes are an error: `EOF` with none left, `ErrUnexpectedEOF` otherwise.
pub read_full_short :
    (n : ℕ) (r : Reader)
    → length (remaining r) < n
    → read_full n r ≡ err (if length (remaining r) == 0 then eof else unexpected_eof)
unfolding read_full
read_full_short n r h = ground arith
