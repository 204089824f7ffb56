-- ===== src/Hw/Serial/Bounds.antt =====
-- internal/hw/serial.go, ReadNextFrame: how much the buffer holds.
use go_core_lab.Common.{
  ℕ, ◌+◌, ◌*◌, ◌/◌, ◌≤◌, ◌≡◌, refl, ap, ◌∙◌, Bytes, List, [], ◌∷◌, ◌++◌, length, drop,
  length-append, length-drop, All, Option, none, some, arith, Option-cases, Bool-cases, inl, inr,
}
use Prim.Native.Nat.{zero-le}
use native.Mathlib.Nat.{le_refl, le_trans}
use go_core_lab.Pcap.{Time}
use go_core_lab.Hw.Serial.{
  DelimiterMode, newline, sync_byte, length_prefixed, FrameConfig, Frame, FrameReader, index_byte,
  is_nil, at_newline, at_eof, at_sof, extract_in, extract_newline, extract_eof, extract_sync,
  try_extract_frame, Chunk, fill, flushed, after_error, read_next_frame, end_of_file, failed,
  StreamError,
}

-- The buffer holds at most four frames of the configured size.
pub record IsBounded (cfg : FrameConfig) (fr : FrameReader) : Type 0 where
  pub configured : fr.cfg ≡ cfg
  pub bound : length fr.buf ≤ 4 * cfg.max_frame_size

-- What an extraction leaves is no longer than what it found.
record Shrinks (fr fr' : FrameReader) : Type 0 where
  configured : fr'.cfg ≡ fr.cfg
  shorter : length fr'.buf ≤ length fr.buf

length-drop_le : (n : ℕ) (b : Bytes) → length (drop n b) ≤ length b
length-drop_le n b = omega (arith, length-drop n b)

module _ (now : Time) (fr : FrameReader) where
  newline-Shrinks : Shrinks fr (extract_newline now fr).1
  unfolding extract_newline
  newline-Shrinks = elim (index_byte fr.buf 10) as (λ o. Shrinks fr (at_newline now fr o).1) [
    | none ↦ record { configured = refl; shorter = le_refl _ }
    | some i ↦ record { configured = refl; shorter = length-drop_le (i + 1) fr.buf }
  ]

  eof-Shrinks : Shrinks fr (extract_eof now fr).1
  unfolding extract_eof
  eof-Shrinks =
      elim (index_byte (drop 1 fr.buf) fr.cfg.eof) as (λ o. Shrinks fr (at_eof now fr o).1) [
        | none ↦ record { configured = refl; shorter = le_refl _ }
        | some i ↦ record { configured = refl; shorter = length-drop_le (i + 2) fr.buf }
      ]

sync-Shrinks : (now : Time) (fr : FrameReader) → Shrinks fr (extract_sync now fr).1
unfolding extract_sync
sync-Shrinks now fr = elim (index_byte fr.buf fr.cfg.sof) as (λ o. Shrinks fr (at_sof now fr o).1) [
  | none ↦ record { configured = refl; shorter = zero-le }
  | some i ↦
      let s = eof-Shrinks now (record fr { buf = drop i fr.buf }) in
      record { configured = s.configured; shorter = omega (arith, length-drop_le i fr.buf) }
]

extract-Shrinks :
    (d : DelimiterMode) (now : Time) (fr : FrameReader) → Shrinks fr (extract_in d now fr).1
unfolding extract_in
extract-Shrinks newline now fr = newline-Shrinks now fr
extract-Shrinks sync_byte now fr = sync-Shrinks now fr
extract-Shrinks length_prefixed now fr = record { configured = refl; shorter = le_refl _ }

module _ (cfg : FrameConfig) (now : Time) (big : 129 ≤ cfg.max_frame_size) where
  try-IsBounded : (fr : FrameReader) → IsBounded cfg fr → IsBounded cfg (try_extract_frame now fr).1
  unfolding try_extract_frame
  try-IsBounded fr b =
      let s = extract-Shrinks fr.cfg.mode now fr in
      record { configured = s.configured ∙ b.configured; bound = le_trans s.shorter b.bound }

  fill-IsBounded :
      (fr : FrameReader) (c : Bytes) → length c ≤ 512 → IsBounded cfg fr → IsBounded cfg (fill fr c)
  unfolding fill
  fill-IsBounded fr [] h b = b
  fill-IsBounded fr (x ∷ xs) h b = record {
    configured = b.configured;
    bound = ground (
      arith,
      length-append fr.buf (x ∷ xs),
      length-drop (length (fr.buf ++ (x ∷ xs)) / 2) (fr.buf ++ (x ∷ xs)),
      ap (λ (k : FrameConfig). k.max_frame_size) b.configured,
    );
  }

  flushed-IsBounded :
      (r : Option Frame × FrameReader) → IsBounded cfg r.1 → IsBounded cfg (flushed r).1
  unfolding flushed
  flushed-IsBounded (some f, fr) b = b
  flushed-IsBounded (none, fr) b = b

  after_error-IsBounded :
      (fr : FrameReader) (e : StreamError)
      → IsBounded cfg fr
      → IsBounded cfg (after_error now fr e).1
  unfolding after_error
  after_error-IsBounded fr (failed code) b = b
  after_error-IsBounded fr end_of_file b = elim (Bool-cases (is_nil fr.buf)) [
    | inl blank ↦ rw (blank, after_error) b
    | inr more ↦
        rw (more, after_error) (flushed-IsBounded (try_extract_frame now fr) (try-IsBounded fr b))
  ]

  -- Whatever comes in chunks of at most 512 bytes, ReadNextFrame returns with at most four times the
  -- configured frame size in its buffer, if it started so and that size is 129 or more.
  pub read_next_frame-IsBounded :
      (cs : List Chunk) (fr : FrameReader)
      → All (λ c. length c.bytes ≤ 512) cs
      → IsBounded cfg fr
      → IsBounded cfg (read_next_frame now cs fr).1
  unfolding read_next_frame
  read_next_frame-IsBounded [] fr h b = elim (Option-cases (try_extract_frame now fr).0) [
    | inl nothing ↦
        rw (nothing, read_next_frame)
          (after_error-IsBounded (try_extract_frame now fr).1 end_of_file (try-IsBounded fr b))
    | inr (f, found) ↦ rw (found, read_next_frame) (try-IsBounded fr b)
  ]
  read_next_frame-IsBounded (c ∷ cs) fr h b =
      let tried = try-IsBounded fr b in
      let filled = fill-IsBounded (try_extract_frame now fr).1 c.bytes h.0 tried in
      elim (Option-cases (try_extract_frame now fr).0) [
        | inr (f, found) ↦ rw (found, read_next_frame) tried
        | inl nothing ↦ elim (Option-cases c.error) [
          | inr (e, broken) ↦
              rw (nothing, read_next_frame, broken)
                (after_error-IsBounded (fill (try_extract_frame now fr).1 c.bytes) e filled)
          | inl going ↦
              rw (nothing, read_next_frame, going)
                (read_next_frame-IsBounded cs (fill (try_extract_frame now fr).1 c.bytes) h.1
                  filled)
        ]
      ]
