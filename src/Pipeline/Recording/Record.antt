-- ===== src/Pipeline/Recording/Record.antt =====
-- internal/pipeline/sinks.go, PcapSink: the file that a recording leaves, and its replay.
use Prim.Native.String.{String}
use go_core_lab.Common.{◌≡◌, false, Bytes, List, [], ◌∷◌, if◌then◌else◌}
use go_core_lab.Pcap.{Time, is_zero}
use go_core_lab.Pipeline.Types.{PipelineEvent}
use go_core_lab.Pipeline.Recording.{is_recorded}

-- What is kept of the events: the bytes and the stamps of those that are written.
unfoldable pub recorded : List PipelineEvent → List (Bytes × Time)
recorded [] = []
recorded (event ∷ rest) =
    if is_recorded event then (event.raw, event.timestamp) ∷ recorded rest else recorded rest

unfoldable pub HasStamp : PipelineEvent → Type 0
HasStamp event = is_zero event.timestamp ≡ false
