-- ===== src/Mmap/Bounds.antt =====
-- internal/mmap/mmap.go: the bounds of Slice, and a file after Close.
use go_core_lab.Common.{
  ℕ, ◌+◌, ◌%◌, ◌^◌, ◌<◌, ◌≡◌, refl, true, Bool-cases, inl, inr, ◌&&◌, Bytes, window, Option, none,
  length, Result, ok, err, panic, slice, if◌then◌else◌, ltb, leb, ◌-◌, arith,
}
use go_core_lab.Mmap.{
  MappedFile, SliceError, out_of_bounds, slice_end, file_slice, unmap, close_descriptor,
  first_error, close,
}

-- What Slice answers, in numbers that do not wrap around.
abbrev pub sliced : {H : Type 0} → MappedFile H → ℕ → ℕ → Result SliceError Bytes
sliced f offset size =
    if leb (offset + size) (length f.data_bytes)
    then ok (window f.data_bytes offset size)
    else if ltb offset (2 ^ 63) && ltb size (2 ^ 63) && leb (2 ^ 63) (offset + size)
    then panic
    else err (out_of_bounds offset (slice_end offset size) (length f.data_bytes))

module _ {H : Type 0} (f : MappedFile H) (offset size : ℕ) where
  -- Slice of a file that an int can count returns the bytes that are asked for if they are all there;
  -- it panics if the offset and the length are no negative ints but their sum is no int; and in all
  -- other cases it returns an error.
  pub file_slice-sliced :
      length f.data_bytes < 2 ^ 63
      → offset < 2 ^ 64
      → size < 2 ^ 64
      → file_slice f offset size ≡ sliced f offset size
  unfolding file_slice slice
  file_slice-sliced few off len = elim (Bool-cases (leb (offset + size) (length f.data_bytes))) [
    | inl inside ↦
        let whole : (offset + size) % 2 ^ 64 ≡ offset + size = ground arith in
        let rest : offset + size - offset ≡ size = omega arith in rw (whole, rest) (ground arith)
    | inr outside ↦ ground arith
  ]

module _ {H E : Type 0} (munmap : Bytes → Option E) (close_handle : H → Option E) where
  -- Close of a file that is closed already changes nothing and answers nil.
  pub close-close :
      (f : MappedFile H)
      → let g = (close munmap close_handle f).0 in close munmap close_handle g ≡ (g, none)
  unfolding close unmap first_error close_descriptor
  close-close f = elim (Bool-cases (f.is_mapped && ltb 0 (length f.data_bytes))) [
    | inl e ↦ rw e refl
    | inr e ↦ rw (e, e) refl
  ]

  -- A mapping is not read after Close: Slice of one byte or more is an error then.
  pub file_slice-close :
      (f : MappedFile H) (offset size : ℕ)
      → f.is_mapped ≡ true
      → offset < 2 ^ 63
      → 0 < size
      → size < 2 ^ 63
      → offset + size < 2 ^ 63
      → file_slice ((close munmap close_handle f).0) offset size
        ≡ err (out_of_bounds offset (offset + size) 0)
  unfolding close unmap file_slice
  file_slice-close f offset size mapped off pos len sum =
      let whole : (offset + size) % 2 ^ 64 ≡ offset + size = omega arith in
      elim (Bool-cases (ltb 0 (length f.data_bytes))) [
        | inl e ↦ rw (mapped, e, whole) (ground arith)
        | inr e ↦ rw (mapped, e, whole) (ground arith)
      ]
