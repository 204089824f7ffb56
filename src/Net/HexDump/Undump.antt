-- ===== src/Net/HexDump/Undump.antt =====
-- internal/net/dissect.go, FormatHexDump: the bytes that are read back from the dump.
use native.Mathlib.Numerals.{add-one}
use go_core_lab.Common.{
  ℕ, zero, suc, ◌+◌, ◌-◌, ◌*◌, ◌/◌, ◌%◌, ◌<◌, ◌≡◌, refl, ap, ◌∙◌, false, Bool-cases, inl, inr,
  Bytes, byte, [], ◌∷◌, ◌++◌, length, drop, take, take-nil, drop_past, drop-get_or, Option, none,
  some, All, if◌then◌else◌, ltb, ◌==◌, ltb→lt, arith,
}
use go_core_lab.Net.HexDump.{space, hex_digit, hex_part_gap, hex_part_from}

-- The value of a hexadecimal digit.
abbrev pub digit_value : ℕ → ℕ
digit_value c = if ltb c 58 then c - 48 else c - 87

-- The bytes that a text of hexadecimal digits in pairs stands for, with a digit that is read already,
-- if there is one.
unfoldable pub undump_from : Option ℕ → Bytes → Bytes
undump_from h [] = []
undump_from none (c ∷ text) = undump_from (if c == space then none else some (digit_value c)) text
undump_from (some h) (c ∷ text) = (h * 16 + digit_value c) ∷ undump_from none text

abbrev pub undump : Bytes → Bytes
undump text = undump_from none text

digit_value-hex_digit : (d : ℕ) → d < 16 → digit_value (hex_digit d) ≡ d
unfolding hex_digit
digit_value-hex_digit d h = ground arith

hex_digit_no_space : (d : ℕ) → (hex_digit d == space) ≡ false
unfolding hex_digit
hex_digit_no_space d = ground arith

undump-digit :
    (d : ℕ) (text : Bytes)
    → d < 16
    → undump_from none (hex_digit d ∷ text) ≡ undump_from (some d) text
unfolding undump_from
undump-digit d text h =
    ap (λ t. undump_from (if t then none else some (digit_value (hex_digit d))) text)
      (hex_digit_no_space d)
    ∙ ap (λ v. undump_from (some v) text) (digit_value-hex_digit d h)

undump-pair :
    (b : ℕ) (text : Bytes)
    → b < 256
    → undump (hex_digit (b / 16) ∷ hex_digit (b % 16) ∷ space ∷ text) ≡ b ∷ undump text
unfolding undump_from
undump-pair b text h =
    let whole : b / 16 * 16 + b % 16 ≡ b = omega arith in
    undump-digit (b / 16) (hex_digit (b % 16) ∷ space ∷ text) (omega arith)
    ∙ ap (λ v. (b / 16 * 16 + v) ∷ undump text) (digit_value-hex_digit (b % 16) (omega arith))
    ∙ ap (λ v. v ∷ undump text) whole

undump-gap : (j : ℕ) (text : Bytes) → undump (hex_part_gap j ++ text) ≡ undump text
unfolding undump_from
undump-gap j text = elim (Bool-cases (j == 7)) [ inl e ↦ rw e refl | inr e ↦ rw e refl ]

byte-small : (chunk : Bytes) (j : ℕ) → All (λ b. b < 256) chunk → byte chunk j < 256
byte-small [] j small = omega arith
byte-small (b ∷ chunk) zero small = small.0
byte-small (b ∷ chunk) (suc j) small = byte-small chunk j (small.1)

module _ (chunk : Bytes) where
  pub undump-hex_part_from :
      (j n : ℕ)
      → All (λ b. b < 256) chunk
      → undump (hex_part_from chunk j n) ≡ take n (drop j chunk)
  unfolding hex_part_from undump_from
  undump-hex_part_from j zero small = refl
  undump-hex_part_from j (suc n) small =
      let rest =
        undump-gap j (hex_part_from chunk (j + 1) n) ∙ undump-hex_part_from (j + 1) n small in
      elim (Bool-cases (ltb j (length chunk))) [
        | inl e ↦
            rw
              (
                e,
                undump-pair (byte chunk j) (hex_part_gap j ++ hex_part_from chunk (j + 1) n)
                    (byte-small chunk j small),
                rest,
                drop-get_or chunk j 0 (ltb→lt j (length chunk) e),
                add-one j,
              )
              refl
        | inr e ↦ rw (e) (
            rest
            ∙ rw (drop_past j chunk (ground arith), drop_past (j + 1) chunk (ground arith))
                (take-nil n))
      ]
