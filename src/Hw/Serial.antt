-- ===== src/Hw/Serial.antt =====
-- internal/hw/serial.go: the frame reader. The underlying stream is the list of what its `Read` calls
-- return, after which it is at its end; a chunk has at most 512 bytes.
pub mod Extract
pub mod Bounds
pub mod Modes
mod Tests
use go_core_lab.Common.{
  ℕ, suc, ◌+◌, ◌-◌, ◌*◌, ◌/◌, ◌%◌, ◌^◌, Bytes, List, [], ◌∷◌, ◌++◌, length, take, drop, Bool, true,
  false, Option, none, some, if◌then◌else◌, ltb, leb, ◌==◌, ◌&&◌,
}
use go_core_lab.Pcap.{Time}

pub data DelimiterMode : Type 0 where
  newline sync_byte length_prefixed : DelimiterMode

pub record FrameConfig : Type 0 where
  pub mode : DelimiterMode
  pub sof : ℕ
  pub eof : ℕ
  pub max_frame_size : ℕ
  pub baud_rate : ℕ

abbrev pub default_config : FrameConfig
default_config = record {
  mode = newline;
  sof = 0xAA;
  eof = 0x55;
  max_frame_size = 4096;
  baud_rate = 115200;
}

pub record Frame : Type 0 where
  pub timestamp : Time
  pub seq_num : ℕ
  pub payload : Bytes
  pub raw : Bytes
  pub valid : Bool

pub record FrameReader : Type 0 where
  pub cfg : FrameConfig
  pub buf : Bytes
  pub seq : ℕ

-- `cfg.MaxFrameSize <= 0` stands for 0 here.
pub new_frame_reader : FrameConfig → FrameReader
new_frame_reader cfg = record {
  cfg = if cfg.max_frame_size == 0 then record cfg { max_frame_size = 4096 } else cfg;
  buf = [];
  seq = 0;
}

-- `bytes.IndexByte`; -1 is `none`.
pub index_byte : Bytes → ℕ → Option ℕ
index_byte [] c = none
index_byte (x ∷ xs) c =
    if x == c then some 0 else elim (index_byte xs c) [ some i ↦ some (suc i) | none ↦ none ]

pub is_nil : Bytes → Bool
is_nil [] = true
is_nil (x ∷ xs) = false

-- `bytes.TrimRight(b, "\r")`
pub trim_right_cr : Bytes → Bytes
unfolding is_nil
trim_right_cr [] = []
trim_right_cr (x ∷ xs) =
    let rest = trim_right_cr xs in if is_nil rest && x == 13 then [] else x ∷ rest

-- `fr.seq++` and the frame that carries it; `now` is what `time.Now()` answers.
abbrev pub emit : Time → FrameReader → Bytes → Bytes → Bytes → Option Frame × FrameReader
emit now fr payload raw rest =
    let seq = (fr.seq + 1) % 2 ^ 32 in
    (
      some (record { timestamp = now; seq_num = seq; payload = payload; raw = raw; valid = true }),
      record fr { buf = rest; seq = seq },
    )

pub at_newline : Time → FrameReader → Option ℕ → Option Frame × FrameReader
at_newline now fr none = (none, fr)
at_newline now fr (some idx) =
    emit now fr (trim_right_cr (take idx fr.buf)) (take (idx + 1) fr.buf) (drop (idx + 1) fr.buf)

pub extract_newline : Time → FrameReader → Option Frame × FrameReader
unfolding at_newline
extract_newline now fr = at_newline now fr (index_byte fr.buf 10)

-- The rest of the sync mode, with the garbage in front of the start byte discarded.
pub at_eof : Time → FrameReader → Option ℕ → Option Frame × FrameReader
at_eof now fr none = (none, fr)
at_eof now fr (some eof_idx) =
    let total_len = eof_idx + 2 in
    emit now fr (take (total_len - 1 - 1) (drop 1 fr.buf)) (take total_len fr.buf)
      (drop total_len fr.buf)

pub extract_eof : Time → FrameReader → Option Frame × FrameReader
unfolding at_eof
extract_eof now fr = at_eof now fr (index_byte (drop 1 fr.buf) fr.cfg.eof)

pub at_sof : Time → FrameReader → Option ℕ → Option Frame × FrameReader
at_sof now fr none = (none, record fr { buf = [] })
at_sof now fr (some sof_idx) = extract_eof now (record fr { buf = drop sof_idx fr.buf })

pub extract_sync : Time → FrameReader → Option Frame × FrameReader
unfolding at_sof
extract_sync now fr = at_sof now fr (index_byte fr.buf fr.cfg.sof)

-- `ok` is whether there is a frame; the error is always nil.
pub extract_in : DelimiterMode → Time → FrameReader → Option Frame × FrameReader
extract_in newline now fr = extract_newline now fr
extract_in sync_byte now fr = extract_sync now fr
extract_in length_prefixed now fr = (none, fr)

pub try_extract_frame : Time → FrameReader → Option Frame × FrameReader
unfolding extract_in extract_newline extract_sync
try_extract_frame now fr = extract_in fr.cfg.mode now fr

pub data StreamError : Type 0 where
  end_of_file : StreamError
  failed : ℕ → StreamError

-- What one `Read` returns: the bytes, and the error.
pub record Chunk : Type 0 where
  pub bytes : Bytes
  pub error : Option StreamError

-- The bytes of a chunk go behind the buffer, whose older half is dropped if it has grown too long.
pub fill : FrameReader → Bytes → FrameReader
fill fr [] = fr
fill fr (x ∷ xs) =
    let buf = fr.buf ++ (x ∷ xs) in
    record fr {
      buf = if ltb (fr.cfg.max_frame_size * 4) (length buf) then drop (length buf / 2) buf else buf;
    }

pub data NextFrame : Type 0 where
  frame : Frame → NextFrame
  error : StreamError → NextFrame

pub flushed : Option Frame × FrameReader → NextFrame × FrameReader
flushed (some f, fr) = (frame f, fr)
flushed (none, fr) = (error end_of_file, fr)

-- What is done after a `Read` that reported an error.
pub after_error : Time → FrameReader → StreamError → NextFrame × FrameReader
unfolding is_nil try_extract_frame flushed
after_error now fr (failed code) = (error (failed code), fr)
after_error now fr end_of_file =
    if is_nil fr.buf then (error end_of_file, fr) else flushed (try_extract_frame now fr)

-- The loop of ReadNextFrame, over the chunks that are still to come.
pub read_next_frame : Time → List Chunk → FrameReader → NextFrame × FrameReader × List Chunk
unfolding try_extract_frame after_error fill
read_next_frame now [] fr =
    let (found, fr') = try_extract_frame now fr in
    elim found [
      | some f ↦ (frame f, fr', [])
      | none ↦ let (out, fr'') = after_error now fr' end_of_file in (out, fr'', [])
    ]
read_next_frame now (c ∷ cs) fr =
    let (found, fr') = try_extract_frame now fr in
    let filled = fill fr' c.bytes in
    let more = read_next_frame now cs filled in
    elim found [
      | some f ↦ (frame f, fr', c ∷ cs)
      | none ↦ elim c.error [
        | some e ↦ let (out, fr'') = after_error now filled e in (out, fr'', cs)
        | none ↦ more
      ]
    ]
