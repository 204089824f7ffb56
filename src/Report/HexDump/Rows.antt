-- ===== src/Report/HexDump/Rows.antt =====
-- pkg/report/hexdump.go, HexDump: what the rows show, and when there are none.
use go_core_lab.Common.{
  ℕ, zero, suc, ◌+◌, ◌-◌, ◌/◌, ◌^◌, ◌≤◌, ◌<◌, ◌≡◌, ◌↔◌, refl, sym, ap, ap₂, ◌∙◌, Bool-cases, inl,
  inr, false, ◌⊎◌, ◌&&◌, Bytes, window, List, ◌++◌, length, drop, drop_past, take, take_past,
  drop-drop, take-append-drop, append-nil, length-drop, length-take, ok, panic, slice, slice-eq-ok,
  if-eq-ok, ok_inj, >>=-eq-ok, if◌then◌else◌, ltb, leb, ◌==◌, ltb→lt, arith,
}
use go_core_lab.Report.HexDump.{
  Piece, HexDumpOptions, hex_row, hex_rows, chunk_at, Dump, hex_dump, rows, start_of, end_of,
}
use go_core_lab.Report.HexDump.Pieces.{
  digit, row_offset, digits, row_offsets, every_16, collect-append, digits-hex_row, offsets-hex_row,
}

module _ (opts : HexDumpOptions) where
  length-chunk_at : (s : Bytes) (i : ℕ) → length (chunk_at s i) ≤ 16
  length-chunk_at s i =
      let chunk_end = if ltb (length s) (i + 16) then length s else i + 16 in
      ground (arith, length-take (chunk_end - i) (drop i s))

  chunk_at-rest : (s : Bytes) (i : ℕ) → chunk_at s i ++ drop (i + 16) s ≡ drop i s
  chunk_at-rest s i = elim (Bool-cases (ltb (length s) (i + 16))) [
    | inl e ↦
        rw
          (
            e,
            take_past (length s - i) (drop i s) (omega (arith, length-drop i s)),
            drop_past (i + 16) s (ground arith),
          )
          (append-nil (drop i s))
    | inr e ↦ rw (e, sixteen, ← drop-drop 16 i s) (take-append-drop 16 (drop i s))
  ]
    where
      sixteen : i + 16 - i ≡ 16
      sixteen = omega arith

  -- The rows from `i` on show what the slice has from there, 16 bytes to a row.
  hex_rows_lem :
      (start : ℕ) (s : Bytes) (i fuel : ℕ)
      → length s ≤ i + fuel
      → (digits (hex_rows opts start s i fuel) ≡ drop i s)
        × (row_offsets (hex_rows opts start s i fuel)
            ≡ every_16 (start + i) ((length s - i + 15) / 16))
  unfolding hex_rows
  hex_rows_lem start s i zero h = (
    sym (drop_past i s (omega arith)),
    let none : (length s - i + 15) / 16 ≡ 0 = omega arith in rw none refl,
  )
  hex_rows_lem start s i (suc fuel) h = elim (Bool-cases (ltb i (length s))) [
    | inr e ↦ (
      rw (e, drop_past i s (ground arith)) refl,
      let none : (length s - i + 15) / 16 ≡ 0 = ground arith in rw (e, none) refl,
    )
    | inl e ↦
        let inside = ltb→lt i (length s) e in
        let row = hex_row opts (start + i) (chunk_at s i) in
        let (shown, placed) = hex_rows_lem start s (i + 16) fuel (omega arith) in
        let one_more : (length s - i + 15) / 16 ≡ suc ((length s - (i + 16) + 15) / 16) =
          omega arith in
        let further : start + (i + 16) ≡ start + i + 16 = omega arith in
        (
          rw
              (
                e,
                collect-append digit row (hex_rows opts start s (i + 16) fuel),
                digits-hex_row opts (start + i) (chunk_at s i) (length-chunk_at s i),
                shown,
              )
              (chunk_at-rest s i),
          rw
              (
                e,
                collect-append row_offset row (hex_rows opts start s (i + 16) fuel),
                offsets-hex_row opts (start + i) (chunk_at s i),
                placed,
                one_more,
                further,
              )
              refl,
        )
  ]

rows_inj : {ps qs : List Piece} → ◌≡◌ {A = Dump} (rows ps) (rows qs) → ps ≡ qs
rows_inj h = cc

-- The bytes that the options ask for: those from the offset on, or from the beginning if it is no
-- int of 0 or more, and at most as many as the length says, if it is an int above 0.
abbrev pub wanted : HexDumpOptions → Bytes → Bytes
wanted opts b =
    let rest = drop (if ltb opts.offset (2 ^ 63) then opts.offset else 0) b in
    if ltb 0 opts.length && ltb opts.length (2 ^ 63) then take opts.length rest else rest

start_lem :
    (opts : HexDumpOptions) → start_of opts ≡ (if ltb opts.offset (2 ^ 63) then opts.offset else 0)
start_lem opts = ground arith

module _ (opts : HexDumpOptions) (size : ℕ) (few : size < 2 ^ 63) (fits : end_of opts size ≤ size)
    (inside : start_of opts < size) where
  end_unlimited : (ltb 0 opts.length && ltb opts.length (2 ^ 63)) ≡ false → end_of opts size ≡ size
  unfolding end_of
  end_unlimited e = ground arith

  end_limited :
      0 < opts.length
      → opts.length < 2 ^ 63
      → (end_of opts size ≡ start_of opts + opts.length)
        ⊎ ((end_of opts size ≡ size) × (size ≤ start_of opts + opts.length))
  unfolding end_of
  end_limited pos int = ground arith

window-wanted :
    (b : Bytes) (opts : HexDumpOptions)
    → length b < 2 ^ 63
    → end_of opts (length b) ≤ length b
    → start_of opts < length b
    → window b (start_of opts) (end_of opts (length b) - start_of opts) ≡ wanted opts b
window-wanted b opts few fits inside =
    let rest = drop (start_of opts) b in
    let len = length-drop (start_of opts) b in
    elim (Bool-cases (ltb 0 opts.length && ltb opts.length (2 ^ 63))) [
      | inr e ↦
          rw (e, ← start_lem opts, end_unlimited opts (length b) few fits inside e)
            (take_past _ rest (omega (arith, len)))
      | inl e ↦ elim (end_limited opts (length b) few fits inside (ground arith) (ground arith)) [
        | inl cut ↦ rw (e, ← start_lem opts, cut) (ap (λ n. take n rest) (omega arith))
        | inr (whole, short) ↦
            rw (e, ← start_lem opts, whole)
              (take_past _ rest (omega (arith, len))
                ∙ sym (take_past opts.length rest (omega (arith, len))))
      ]
    ]

-- Where there are rows, the hex digits in them, in order, are the bytes that the options ask for, each
-- once, and the rows begin at the offset, or at 0 if that is negative, and every 16 bytes from it, for
-- bytes that an int can count.
pub hex_dump-shows :
    (b : Bytes) (opts : HexDumpOptions) (ps : List Piece)
    → length b < 2 ^ 63
    → hex_dump b opts ≡ ok (rows ps)
    → (digits ps ≡ wanted opts b)
      × (row_offsets ps
          ≡ every_16
              (if ltb opts.offset (2 ^ 63) then opts.offset else 0)
              ((length (wanted opts b) + 15) / 16))
unfolding hex_dump
hex_dump-shows b opts ps few h = elim (if-eq-ok (length b == 0) _ _ h) [
  | inl (none, e) ↦ absurd cc
  | inr (some_bytes, e) ↦ elim (if-eq-ok (leb (length b) (start_of opts)) _ _ e) [
    | inl (past, e') ↦ absurd cc
    | inr (inside, e') ↦
        let (s, cut, e'') = >>=-eq-ok (slice b (start_of opts) (end_of opts (length b))) _ e' in
        let (ordered, fits, window_eq) =
          slice-eq-ok b (start_of opts) (end_of opts (length b)) cut in
        let (shown, placed) = hex_rows_lem opts (start_of opts) s 0 (length s) (omega arith) in
        let asked = window_eq ∙ window-wanted b opts few fits (ground arith) in
        let made = rows_inj (ok_inj e'') in
        (
          ap digits (sym made) ∙ (shown ∙ asked),
          ap row_offsets (sym made)
              ∙ (placed
                  ∙ ap₂ every_16 (omega arith ∙ start_lem opts)
                      (ap (λ n. (n + 15) / 16) (omega arith ∙ ap length asked))),
        )
  ]
]

-- HexDump panics exactly if the start is inside the bytes, a length is asked for, and their sum does
-- not fit an int of 64 bits, for bytes that an int can count and a start and length that are ints.
pub hex_dump-panics_iff :
    (b : Bytes) (opts : HexDumpOptions)
    → length b < 2 ^ 63
    → opts.offset < 2 ^ 64
    → opts.length < 2 ^ 64
    → (hex_dump b opts ≡ panic) ↔ (
        (start_of opts < length b)
        × (opts.length < 2 ^ 63)
        × (2 ^ 63 ≤ start_of opts + opts.length))
unfolding hex_dump end_of slice
hex_dump-panics_iff b opts few off len = ground arith
