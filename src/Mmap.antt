-- ===== src/Mmap.antt =====
-- internal/mmap/mmap.go: files in memory. What the operating system answers is a parameter, and
-- closing a descriptor changes nothing that the package looks at. An `int` is its bit pattern.
pub mod Bounds
mod Tests
use Prim.Native.String.{String}
use go_core_lab.Common.{
  negative, ℕ, ◌+◌, ◌%◌, ◌^◌, Bool, true, false, not, ◌&&◌, ◌||◌, Bytes, List, [], Option, none,
  some, length, Result, ok, err, panic, ◌>>=◌, wrap, slice, if◌then◌else◌, ltb, leb, ◌==◌,
}

pub record MappedFile (H : Type 0) : Type 0 where
  pub data_bytes : Bytes
  pub file : Option H
  pub is_mapped : Bool

pub data OpenError (E : Type 0) : Type 0 where
  open_failed : E → OpenError E
  stat_failed : E → OpenError E
  mmap_and_read_failed : E → E → OpenError E

pub data CloseError (E : Type 0) : Type 0 where
  munmap_failed : E → CloseError E
  close_failed : E → CloseError E

-- The error of Slice, with what it prints: the offset, the sum and the length of the file.
pub data SliceError : Type 0 where
  out_of_bounds : ℕ → ℕ → ℕ → SliceError

-- `offset+length`, which wraps around.
abbrev pub slice_end : ℕ → ℕ → ℕ
slice_end offset size = (offset + size) % 2 ^ 64

module _ {H : Type 0} where
  abbrev pub bytes : MappedFile H → Bytes
  bytes f = f.data_bytes

  abbrev pub file_len : MappedFile H → ℕ
  file_len f = length f.data_bytes

  unfoldable pub file_slice : MappedFile H → ℕ → ℕ → Result SliceError Bytes
  file_slice f offset size =
      if negative offset
        || negative size
        || (not (negative (slice_end offset size))
            && ltb (length f.data_bytes) (slice_end offset size))
      then err (out_of_bounds offset (slice_end offset size) (length f.data_bytes))
      else slice f.data_bytes offset (slice_end offset size)

-- `os.Open`, `Stat` for the size, `syscall.Mmap` and `os.ReadFile`.
module _ {H E : Type 0} (os_open : String → Result E H) (size_of : H → Result E ℕ)
    (map_file : H → ℕ → Result E Bytes) (read_file : String → Result E Bytes) where
  -- The fallback, where mapping failed with `e`.
  unfoldable pub read_instead : H → E → Result E Bytes → Result (OpenError E) (MappedFile H)
  read_instead f e (ok buf) = ok record { data_bytes = buf; file = some f; is_mapped = false }
  read_instead f e (err read_err) = err (mmap_and_read_failed e read_err)
  read_instead f e panic = panic

  unfoldable pub mapped_or_read : String → H → Result E Bytes → Result (OpenError E) (MappedFile H)
  mapped_or_read path f (ok m) = ok record { data_bytes = m; file = some f; is_mapped = true }
  mapped_or_read path f (err e) = read_instead f e (read_file path)
  mapped_or_read path f panic = panic

  unfoldable pub open_file : String → Result (OpenError E) (MappedFile H)
  open_file path = do
    f ← wrap open_failed (os_open path)
    size ← wrap stat_failed (size_of f)
    if size == 0 || negative size
        then ok record { data_bytes = []; file = some f; is_mapped = false }
        else mapped_or_read path f (map_file f size)

-- `syscall.Munmap` and `(*os.MappedFile).Close`, which answer with an error or nil.
module _ {H E : Type 0} (munmap : Bytes → Option E) (close_handle : H → Option E) where
  unfoldable pub unmap : MappedFile H → MappedFile H × Option E
  unmap f =
      if f.is_mapped && ltb 0 (length f.data_bytes)
      then (record f { is_mapped = false; data_bytes = [] }, munmap f.data_bytes)
      else (f, none)

  unfoldable pub close_descriptor : Option H → Option E
  close_descriptor none = none
  close_descriptor (some h) = close_handle h

  -- The error of Munmap goes before that of Close.
  unfoldable pub first_error : Option E → Option E → Option (CloseError E)
  first_error (some e) file_err = some (munmap_failed e)
  first_error none (some e) = some (close_failed e)
  first_error none none = none

  unfoldable pub close : MappedFile H → MappedFile H × Option (CloseError E)
  close f =
      let (g, mmap_err) = unmap f in
      (record g { file = none }, first_error mmap_err (close_descriptor g.file))
