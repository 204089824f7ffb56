-- ===== src/Elf/Names/Permissions.antt =====
-- internal/binary/elf_segments.go, Segment.FlagsString.
use Prim.Native.String.{String}
use go_core_lab.Common.{
  ℕ, zero, suc, ◌/◌, ◌%◌, ◌<◌, ◌≡◌, refl, ap, ◌∙◌, List, [], ◌∷◌, get_or, ◌==◌, arith,
}
use go_core_lab.Elf.Types.{Segment}
use go_core_lab.Elf.Names.{has_flag, segment_flags_string}

-- What `readelf -l` shows for each value of the three permission bits, X being 1, W 2 and R 4.
abbrev pub permissions : List (List String)
permissions =
    (" " ∷ " " ∷ " " ∷ [])
    ∷ (" " ∷ " " ∷ "E" ∷ [])
    ∷ (" " ∷ "W" ∷ " " ∷ [])
    ∷ (" " ∷ "W" ∷ "E" ∷ [])
    ∷ ("R" ∷ " " ∷ " " ∷ [])
    ∷ ("R" ∷ " " ∷ "E" ∷ [])
    ∷ ("R" ∷ "W" ∷ " " ∷ [])
    ∷ ("R" ∷ "W" ∷ "E" ∷ [])
    ∷ []

flags_same : (m n bit : ℕ) → m / bit % 2 ≡ n / bit % 2 → has_flag m bit ≡ has_flag n bit
flags_same m n bit e = ap (λ k. k == 1) e

lowest_bits :
    (s : Segment) → segment_flags_string s ≡ segment_flags_string (record s { flags = s.flags % 8 })
unfolding segment_flags_string
lowest_bits s = rw (
  flags_same s.flags (s.flags % 8) 4 (omega arith),
  flags_same s.flags (s.flags % 8) 2 (omega arith),
  flags_same s.flags (s.flags % 8) 1 (omega arith),
)

eight_values :
    (s : Segment) (m : ℕ)
    → m < 8
    → segment_flags_string (record s { flags = m }) ≡ get_or permissions m []
unfolding segment_flags_string
eight_values s zero h = refl
eight_values s (suc zero) h = refl
eight_values s (suc (suc zero)) h = refl
eight_values s (suc (suc (suc zero))) h = refl
eight_values s (suc (suc (suc (suc zero)))) h = refl
eight_values s (suc (suc (suc (suc (suc zero))))) h = refl
eight_values s (suc (suc (suc (suc (suc (suc zero)))))) h = refl
eight_values s (suc (suc (suc (suc (suc (suc (suc zero))))))) h = refl
eight_values s (suc (suc (suc (suc (suc (suc (suc (suc m)))))))) h = absurd (omega arith)

-- FlagsString shows what the table has for the lowest three bits of a segment's flags, whatever the
-- other bits are.
pub segment_flags_string-permissions :
    (s : Segment) → segment_flags_string s ≡ get_or permissions (s.flags % 8) []
segment_flags_string-permissions s = lowest_bits s ∙ eight_values s (s.flags % 8) (omega arith)
