-- ===== src/Pipeline/Types.antt =====
-- internal/pipeline/types.go: the events.
use Prim.Native.String.{String}
use go_core_lab.Common.{ℕ, Bytes, List, [], Option, none}
use go_core_lab.Pcap.{Time, zero_time}
use go_core_lab.Net.Types.{Packet}
use go_core_lab.Net.Dissect.{DissectError}
use go_core_lab.Hw.Serial.{Frame}

pub data EventType : Type 0 where
  event_network event_serial event_raw : EventType

pub record IngestionEvent : Type 0 where
  pub id : ℕ
  pub kind : EventType
  pub timestamp : Time
  pub data_bytes : Bytes
  pub source : String
  pub metadata : List (String × String)

-- `latency` is the bit pattern of the int64 that `Nanoseconds` returns. The only errors that the
-- engine puts in are those of the dissector.
pub record PipelineEvent : Type 0 where
  pub id : ℕ
  pub kind : EventType
  pub timestamp : Time
  pub latency : ℕ
  pub raw : Bytes
  pub packet : Option Packet
  pub frame : Option Frame
  pub error : Option DissectError
  pub worker_id : ℕ
  pub attributes : List (String × String)

-- The zero value of the struct, with which `make` fills a slice.
abbrev pub zero_event : PipelineEvent
zero_event = record {
  id = 0;
  kind = event_network;
  timestamp = zero_time;
  latency = 0;
  raw = [];
  packet = none;
  frame = none;
  error = none;
  worker_id = 0;
  attributes = [];
}
