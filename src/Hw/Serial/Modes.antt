-- ===== src/Hw/Serial/Modes.antt =====
-- internal/hw/serial.go, ReadNextFrame: the framing mode that is declared and not handled.
use go_core_lab.Common.{
  ◌≡◌, refl, ap, ◌∙◌, Bytes, List, [], ◌∷◌, none, Option-cases, Bool-cases, inl, inr,
}
use go_core_lab.Pcap.{Time}
use go_core_lab.Hw.Serial.{
  length_prefixed, FrameReader, is_nil, extract_in, try_extract_frame, StreamError, end_of_file,
  failed, Chunk, fill, NextFrame, error, flushed, after_error, read_next_frame,
}

pub data Failed : NextFrame → Type 0 where
  with_error : (e : StreamError) → Failed (error e)

module _ (now : Time) where
  never_extracts :
      (fr : FrameReader) → fr.cfg.mode ≡ length_prefixed → try_extract_frame now fr ≡ (none, fr)
  unfolding try_extract_frame extract_in
  never_extracts fr m = ap (λ d. extract_in d now fr) m

  after_error-Failed :
      (fr : FrameReader) (e : StreamError)
      → fr.cfg.mode ≡ length_prefixed
      → Failed (after_error now fr e).0
  unfolding after_error flushed
  after_error-Failed fr (failed code) m = with_error (failed code)
  after_error-Failed fr end_of_file m = elim (Bool-cases (is_nil fr.buf)) [
    | inl blank ↦ rw (blank, after_error) (with_error end_of_file)
    | inr more ↦ rw (more, after_error, never_extracts fr m) (with_error end_of_file)
  ]

  fill-mode : (fr : FrameReader) (c : Bytes) → (fill fr c).cfg.mode ≡ fr.cfg.mode
  unfolding fill
  fill-mode fr [] = refl
  fill-mode fr (x ∷ xs) = refl

  -- A reader in the length-prefixed mode never returns a frame: whatever the stream sends, the call
  -- ends with an error.
  pub read_next_frame-Failed :
      (cs : List Chunk) (fr : FrameReader)
      → fr.cfg.mode ≡ length_prefixed
      → Failed (read_next_frame now cs fr).0
  unfolding read_next_frame
  read_next_frame-Failed [] fr m =
      rw (never_extracts fr m, read_next_frame, never_extracts fr m)
        (after_error-Failed fr end_of_file m)
  read_next_frame-Failed (c ∷ cs) fr m = elim (Option-cases c.error) [
    | inr (e, broken) ↦
        rw (never_extracts fr m, read_next_frame, broken, never_extracts fr m)
          (after_error-Failed (fill fr c.bytes) e (fill-mode fr c.bytes ∙ m))
    | inl going ↦
        rw (never_extracts fr m, read_next_frame, going, never_extracts fr m)
          (read_next_frame-Failed cs (fill fr c.bytes) (fill-mode fr c.bytes ∙ m))
  ]
