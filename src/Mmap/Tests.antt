-- ===== src/Mmap/Tests.antt =====
-- internal/mmap/mmap.go: Slice and Close of a mapped file of three bytes.
use go_core_lab.Common.{
  ℕ, ◌^◌, ◌-◌, ◌≡◌, refl, true, Bytes, [], ◌∷◌, Option, none, some, ok, err, panic, arith, slice,
}
use go_core_lab.Mmap.{MappedFile, file_slice, close, out_of_bounds}
use go_core_lab.Mmap.Bounds.{sliced, file_slice-sliced, file_slice-close}

abbrev three : MappedFile ℕ
three = record { data_bytes = 1 ∷ 2 ∷ 3 ∷ []; file = some 7; is_mapped = true }

abbrev no_error : Bytes → Option ℕ
no_error b = none

abbrev close_error : ℕ → Option ℕ
close_error h = some h

slice_two : file_slice three 1 2 ≡ ok (2 ∷ 3 ∷ [])
unfolding file_slice slice
slice_two = refl

slice_overflow : file_slice three 2 (2 ^ 63 - 1) ≡ panic
unfolding file_slice slice
slice_overflow = refl

file_slice-sliced_example : file_slice three 1 2 ≡ sliced three 1 2
file_slice-sliced_example = file_slice-sliced three 1 2 (omega arith) (omega arith) (omega arith)

slice_after_close :
    file_slice ((close no_error close_error three).0) 1 2 ≡ err (out_of_bounds 1 3 0)
slice_after_close =
    file_slice-close no_error close_error three 1 2 refl (omega arith) (omega arith) (omega arith)
      (omega arith)
