-- ===== src/Hw/Serial/Tests.antt =====
-- internal/hw/serial.go: the frame reader on concrete streams.
use go_core_lab.Common.{◌≡◌, refl, [], ◌∷◌, List, none, some, arith}
use go_core_lab.Pcap.{Time}
use go_core_lab.Hw.Serial.{
  sync_byte, length_prefixed, default_config, Frame, FrameReader, try_extract_frame, Chunk,
  read_next_frame,
}
use go_core_lab.Hw.Serial.Extract.{Lacks, IsLine, IsSynced, extract_newline_lem, extract_sync_lem}
use go_core_lab.Hw.Serial.Modes.{Failed, read_next_frame-Failed}
use go_core_lab.Hw.Serial.Bounds.{IsBounded, read_next_frame-IsBounded}

abbrev noon : Time
noon = record { unix = 1700000000; nsec = 0 }

-- "OK\r\nAT" in the buffer of a line reader.
abbrev two_lines : FrameReader
two_lines = record { cfg = default_config; buf = 79 ∷ 75 ∷ 13 ∷ 10 ∷ 65 ∷ 84 ∷ []; seq = 4 }

extract_newline_lem_example :
    ((f : Frame) (fr' : FrameReader)
      → try_extract_frame noon two_lines ≡ (some f, fr')
      → IsLine two_lines f fr')
    × ((fr' : FrameReader)
        → try_extract_frame noon two_lines ≡ (none, fr')
        → (fr' ≡ two_lines) × Lacks 10 two_lines.buf)
extract_newline_lem_example = extract_newline_lem noon two_lines refl

abbrev synced : FrameReader
synced = record {
  cfg = record default_config { mode = sync_byte };
  buf = 1 ∷ 0xAA ∷ 7 ∷ 8 ∷ 0x55 ∷ 9 ∷ [];
  seq = 0;
}

extract_sync_lem_example :
    ((f : Frame) (fr' : FrameReader)
      → try_extract_frame noon synced ≡ (some f, fr')
      → IsSynced synced f fr')
    × (Lacks 0xAA synced.buf → try_extract_frame noon synced ≡ (none, record synced { buf = [] }))
extract_sync_lem_example = extract_sync_lem noon synced refl

abbrev half_line : List Chunk
half_line = record { bytes = 72 ∷ 73 ∷ []; error = none } ∷ []

abbrev fresh : FrameReader
fresh = record { cfg = default_config; buf = []; seq = 0 }

abbrev fresh-IsBounded : IsBounded default_config fresh
fresh-IsBounded = record { configured = refl; bound = omega arith }

read_next_frame-IsBounded_example :
    IsBounded default_config (read_next_frame noon half_line fresh).1
read_next_frame-IsBounded_example =
    read_next_frame-IsBounded default_config noon (omega arith) half_line fresh (omega arith, tt)
      fresh-IsBounded

abbrev prefixed : FrameReader
prefixed = record fresh { cfg = record default_config { mode = length_prefixed } }

read_next_frame-Failed_example : Failed (read_next_frame noon half_line prefixed).0
read_next_frame-Failed_example = read_next_frame-Failed noon half_line prefixed refl
