-- ===== src/Report/HexDump/Pieces.antt =====
-- pkg/report/hexdump.go, HexDump: the digits and offsets in a row.
use native.Mathlib.Numerals.{add-one}
use go_core_lab.Common.{
  ℕ, zero, suc, ◌+◌, ◌≤◌, ◌≡◌, refl, sym, ap, ◌∙◌, Bool-cases, inl, inr, ◌&&◌, Bytes, byte, List,
  [], ◌∷◌, ◌++◌, length, drop, take, take-nil, drop_past, take_past, drop-get_or, append-nil,
  append_assoc, if◌then◌else◌, ltb, leb, ◌==◌, ltb→lt, arith,
}
use go_core_lab.Report.HexDump.{
  Piece, color, offset_digits, hex_digits, char, literal, HexDumpOptions, painted, hex_columns,
  ascii_column, hex_row, color_for_byte, Color, color_ascii, color_dim, color_offset,
}

-- The bytes whose hex digits are in a text, and the offsets at the beginning of its rows.
abbrev pub digit : Piece → Bytes
digit (color c) = []
digit (offset_digits n) = []
digit (hex_digits upper b) = b ∷ []
digit (char b) = []
digit (literal s) = []

abbrev pub row_offset : Piece → List ℕ
row_offset (color c) = []
row_offset (offset_digits n) = n ∷ []
row_offset (hex_digits upper b) = []
row_offset (char b) = []
row_offset (literal s) = []

abbrev collect : (Piece → List ℕ) → List Piece → List ℕ
collect f [] = []
collect f (p ∷ ps) = f p ++ collect f ps

abbrev pub digits : List Piece → Bytes
digits ps = collect digit ps

abbrev pub row_offsets : List Piece → List ℕ
row_offsets ps = collect row_offset ps

-- `start`, `start + 16` and so on, `n` of them.
abbrev pub every_16 : ℕ → ℕ → List ℕ
every_16 start zero = []
every_16 start (suc n) = start ∷ every_16 (start + 16) n

pub collect-append :
    (f : Piece → List ℕ) (ps qs : List Piece) → collect f (ps ++ qs) ≡ collect f ps ++ collect f qs
collect-append f [] qs = refl
collect-append f (p ∷ ps) qs =
    ap (λ l. f p ++ l) (collect-append f ps qs)
    ∙ sym (append_assoc (f p) (collect f ps) (collect f qs))

module _ (opts : HexDumpOptions) where
  digits-painted : (c : Color) (p : Piece) → digits (painted opts c p) ≡ digit p
  digits-painted c p = elim (Bool-cases opts.colorize) [
    | inl e ↦ rw e (append-nil (digit p))
    | inr e ↦ rw e (append-nil (digit p))
  ]

  offsets-painted : (c : Color) (p : Piece) → row_offsets (painted opts c p) ≡ row_offset p
  offsets-painted c p = elim (Bool-cases opts.colorize) [
    | inl e ↦ rw e (append-nil (row_offset p))
    | inr e ↦ rw e (append-nil (row_offset p))
  ]

  abbrev cell : Bytes → ℕ → List Piece
  cell chunk j =
      if ltb j (length chunk)
      then painted opts (color_for_byte (byte chunk j)) (hex_digits opts.upper_hex (byte chunk j))
      else literal "   " ∷ []

  digits-gap : (j : ℕ) → digits (if j == 8 then literal " " ∷ [] else []) ≡ []
  digits-gap j = elim (Bool-cases (j == 8)) [ inl e ↦ rw e refl | inr e ↦ rw e refl ]

  digits-cell :
      (chunk : Bytes) (j n : ℕ)
      → digits (cell chunk j) ++ take n (drop (j + 1) chunk) ≡ take (suc n) (drop j chunk)
  digits-cell chunk j n = elim (Bool-cases (ltb j (length chunk))) [
    | inl e ↦ rw (
      e,
      digits-painted (color_for_byte (byte chunk j)) (hex_digits opts.upper_hex (byte chunk j)),
      drop-get_or chunk j 0 (ltb→lt j (length chunk) e),
      add-one j,
    )
    | inr e ↦
        rw (e, drop_past j chunk (ground arith), drop_past (j + 1) chunk (ground arith))
          (take-nil n)
  ]

  offsets-gap : (j : ℕ) → row_offsets (if j == 8 then literal " " ∷ [] else []) ≡ []
  offsets-gap j = elim (Bool-cases (j == 8)) [ inl e ↦ rw e refl | inr e ↦ rw e refl ]

  offsets-cell : (chunk : Bytes) (j : ℕ) → row_offsets (cell chunk j) ≡ []
  offsets-cell chunk j = elim (Bool-cases (ltb j (length chunk))) [
    | inl e ↦ rw (
      e,
      offsets-painted (color_for_byte (byte chunk j)) (hex_digits opts.upper_hex (byte chunk j)),
    )
    | inr e ↦ rw e refl
  ]

  -- The columns show the bytes from `j` on, as many as there are.
  digits-hex_columns :
      (chunk : Bytes) (j n : ℕ) → digits (hex_columns opts chunk j n) ≡ take n (drop j chunk)
  unfolding hex_columns
  digits-hex_columns chunk j zero = refl
  digits-hex_columns chunk j (suc n) =
      collect-append digit (if j == 8 then literal " " ∷ [] else []) _
      ∙ rw (
        digits-gap j,
        collect-append digit (cell chunk j) (hex_columns opts chunk (j + 1) n),
        digits-hex_columns chunk (j + 1) n,
        digits-cell chunk j n,
      )

  offsets-hex_columns : (chunk : Bytes) (j n : ℕ) → row_offsets (hex_columns opts chunk j n) ≡ []
  unfolding hex_columns
  offsets-hex_columns chunk j zero = refl
  offsets-hex_columns chunk j (suc n) =
      collect-append row_offset (if j == 8 then literal " " ∷ [] else []) _
      ∙ rw (
        offsets-gap j,
        collect-append row_offset (cell chunk j) (hex_columns opts chunk (j + 1) n),
        offsets-hex_columns chunk (j + 1) n,
        offsets-cell chunk j,
      )

  -- The sidebar has neither.
  ascii_column-none :
      (chunk : Bytes)
      → (digits (ascii_column opts chunk) ≡ []) × (row_offsets (ascii_column opts chunk) ≡ [])
  unfolding ascii_column
  ascii_column-none [] = (refl, refl)
  ascii_column-none (b ∷ chunk) =
      let (no_digits, no_offsets) = ascii_column-none chunk in
      elim (Bool-cases (leb 32 b && leb b 126)) [
        | inl e ↦ (
          rw (
            e,
            collect-append digit (painted opts color_ascii (char b)),
            digits-painted color_ascii (char b),
            no_digits,
          ),
          rw (
            e,
            collect-append row_offset (painted opts color_ascii (char b)),
            offsets-painted color_ascii (char b),
            no_offsets,
          ),
        )
        | inr e ↦ (
          rw (
            e,
            collect-append digit (painted opts color_dim (literal ".")),
            digits-painted color_dim (literal "."),
            no_digits,
          ),
          rw (
            e,
            collect-append row_offset (painted opts color_dim (literal ".")),
            offsets-painted color_dim (literal "."),
            no_offsets,
          ),
        )
      ]

  collect-hex_row :
      (f : Piece → List ℕ) (n : ℕ) (chunk : Bytes)
      → f (literal "  ") ≡ []
      → f (literal " |") ≡ []
      → f (literal "|\n") ≡ []
      → collect f (ascii_column opts chunk) ≡ []
      → collect f (hex_row opts n chunk)
        ≡ collect f (painted opts color_offset (offset_digits n))
          ++ collect f (hex_columns opts chunk 0 16)
  unfolding hex_row
  collect-hex_row f n chunk a b c d = simp (collect-append f, a, b, c, d, append_assoc, append-nil)

  pub digits-hex_row :
      (n : ℕ) (chunk : Bytes) → length chunk ≤ 16 → digits (hex_row opts n chunk) ≡ chunk
  digits-hex_row n chunk h =
      collect-hex_row digit n chunk refl refl refl ((ascii_column-none chunk).0)
      ∙ rw (digits-painted color_offset (offset_digits n), digits-hex_columns chunk 0 16)
          (take_past 16 chunk h)

  pub offsets-hex_row : (n : ℕ) (chunk : Bytes) → row_offsets (hex_row opts n chunk) ≡ n ∷ []
  offsets-hex_row n chunk =
      collect-hex_row row_offset n chunk refl refl refl ((ascii_column-none chunk).1)
      ∙ rw (offsets-painted color_offset (offset_digits n), offsets-hex_columns chunk 0 16)
