-- ===== src/Pipeline/Recording/Tests.antt =====
-- internal/pipeline: a recording of two events, one of which is not from the network, and its replay.
use go_core_lab.Common.{false, ℕ, Bytes, [], ◌∷◌, ◌++◌, List, Result, ok, little_endian, new_reader}
use go_core_lab.Pcap.{
  Time, packet_header, packet_header_bytes, global_header_bytes, default_header, PcapReader,
}
use go_core_lab.Pipeline.Types.{PipelineEvent, zero_event, event_serial}
use go_core_lab.Pipeline.Recording.Replay.{records_bytes}

abbrev noon : Time
noon = record { unix = 1700000000; nsec = 1234567 }

abbrev ping : Bytes
ping = 8 ∷ 0 ∷ 247 ∷ 255 ∷ []

abbrev two_events : List PipelineEvent
two_events =
    record zero_event { kind = event_serial; timestamp = noon; raw = 7 ∷ [] }
    ∷ record zero_event { timestamp = noon; raw = ping }
    ∷ []

write_bytes : Bytes → Bytes → Result ℕ Bytes
write_bytes w b = ok (w ++ b)

file : Bytes
file =
    (global_header_bytes little_endian default_header
      ++ packet_header_bytes little_endian (packet_header ping noon))
    ++ ping

abbrev at_records : PcapReader
at_records = record {
  r = new_reader (records_bytes ((ping, noon) ∷ []));
  header = default_header;
  is_big_endian = false;
  is_nanosecond = false;
}
