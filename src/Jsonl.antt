-- ===== src/Jsonl.antt =====
-- pkg/export/jsonl.go and internal/pipeline/jsonl_sink.go: events as lines of JSON. `json.Marshal`,
-- the buffered output and the text of addresses, times and errors are parameters.
pub mod Lines
mod Tests
use Prim.Native.String.{String}
use go_core_lab.Common.{
  ℕ, Bool, ◌&&◌, Bytes, List, [], ◌∷◌, Option, none, some, length, Result, ok, err, panic, ◌>>=◌,
  wrap, if◌then◌else◌, ltb, leb,
}
use go_core_lab.Pcap.{Time}
use go_core_lab.Net.Types.{
  Packet, EthernetFrame, Ipv4Header, Ipv6Header, ArpHeader, TcpHeader, UdpHeader,
}
use go_core_lab.Net.Names.{ProtocolName, protocol_text, ip_protocol_name, tcp_flags_string}
use go_core_lab.Net.Dissect.{DissectError}
use go_core_lab.Hw.Serial.{Frame}
use go_core_lab.Pipeline.Types.{
  EventType, event_network, event_serial, event_raw, IngestionEvent, PipelineEvent,
}

-- An empty text and the number 0, which are left out of the output, are `none`, `[]` and 0 here.
pub record JsonPacketRecord : Type 0 where
  pub ether_type : Option ℕ
  pub src_mac : Option String
  pub dst_mac : Option String
  pub protocol : Option ProtocolName
  pub src_ip : Option String
  pub dst_ip : Option String
  pub ttl : ℕ
  pub src_port : ℕ
  pub dst_port : ℕ
  pub tcp_flags : List String
  pub payload_len : ℕ
  pub payload_hex : Option String

pub record JsonFrameRecord : Type 0 where
  pub seq_num : ℕ
  pub payload : Bytes

pub record JsonEventRecord : Type 0 where
  pub id : ℕ
  pub kind : String
  pub timestamp : String
  pub latency_ns : ℕ
  pub worker_id : ℕ
  pub error : Option String
  pub packet : Option JsonPacketRecord
  pub frame : Option JsonFrameRecord

abbrev pub event_type_string : EventType → String
event_type_string event_network = "NETWORK"
event_type_string event_serial = "SERIAL"
event_type_string event_raw = "RAW"

-- JSONPacketRecord of a packet: its addresses, its ports and its payload.
module _ (mac_string ip_string hex_string : Bytes → String) where
  abbrev pub with_payload : Bytes → JsonPacketRecord
  with_payload payload = record {
    ether_type = none;
    src_mac = none;
    dst_mac = none;
    protocol = none;
    src_ip = none;
    dst_ip = none;
    ttl = 0;
    src_port = 0;
    dst_port = 0;
    tcp_flags = [];
    payload_len = length payload;
    payload_hex =
        if ltb 0 (length payload) && leb (length payload) 128
        then some (hex_string payload)
        else none;
  }

  abbrev pub with_ethernet : Option EthernetFrame → JsonPacketRecord → JsonPacketRecord
  with_ethernet none rec = rec
  with_ethernet (some e) rec = record rec {
    src_mac = some (mac_string e.src_mac);
    dst_mac = some (mac_string e.dst_mac);
    ether_type = some e.ether_type;
  }

  abbrev pub with_network :
      Option Ipv4Header → Option Ipv6Header → Option ArpHeader → JsonPacketRecord → JsonPacketRecord
  with_network (some ip) v6 arp rec = record rec {
    protocol = some (ip_protocol_name ip.protocol);
    src_ip = some (ip_string ip.src_ip);
    dst_ip = some (ip_string ip.dst_ip);
    ttl = ip.ttl;
  }
  with_network none (some ip) arp rec = record rec {
    protocol = some (ip_protocol_name ip.next_header);
    src_ip = some (ip_string ip.src_ip);
    dst_ip = some (ip_string ip.dst_ip);
    ttl = ip.hop_limit;
  }
  with_network none none (some arp) rec = record rec {
    protocol = some (protocol_text "ARP");
    src_ip = some (ip_string arp.sender_ip);
    dst_ip = some (ip_string arp.target_ip);
  }
  with_network none none none rec = rec

  abbrev pub with_ports : Option TcpHeader → Option UdpHeader → JsonPacketRecord → JsonPacketRecord
  with_ports (some t) udp rec = record rec {
    src_port = t.src_port;
    dst_port = t.dst_port;
    tcp_flags = tcp_flags_string t;
  }
  with_ports none (some u) rec = record rec { src_port = u.src_port; dst_port = u.dst_port }
  with_ports none none rec = rec

  abbrev pub packet_record : Packet → JsonPacketRecord
  packet_record p =
      with_ports p.tcp p.udp (
        with_network p.ipv4_hdr p.ipv6_hdr p.arp
          (with_ethernet p.ethernet (with_payload p.payload)))

  abbrev pub optional_packet : Option Packet → Option JsonPacketRecord
  optional_packet none = none
  optional_packet (some p) = some (packet_record p)

  abbrev pub optional_frame : Option Frame → Option JsonFrameRecord
  optional_frame none = none
  optional_frame (some f) = some record { seq_num = f.seq_num; payload = f.payload }

  module _ (format_time : Time → String) (error_text : DissectError → String) where
    abbrev optional_error : Option DissectError → Option String
    optional_error none = none
    optional_error (some e) = some (error_text e)

    unfoldable pub event_record : PipelineEvent → JsonEventRecord
    event_record event = record {
      id = event.id;
      kind = event_type_string event.kind;
      timestamp = format_time event.timestamp;
      latency_ns = event.latency;
      worker_id = event.worker_id;
      error = optional_error event.error;
      packet = optional_packet event.packet;
      frame = optional_frame event.frame;
    }

pub data WriteRecordError (E : Type 0) : Type 0 where
  marshal_failed : E → WriteRecordError E
  write_failed : E → WriteRecordError E

-- `marshal` is json.Marshal, and `write` appends to the bufio.Writer `W`.
module _ {W E : Type 0} (marshal : JsonEventRecord → Result E Bytes)
    (write : W → Bytes → Result E W) where
  unfoldable pub write_record : JsonEventRecord → W → Result (WriteRecordError E) W
  write_record rec w = do
    line ← wrap marshal_failed (marshal rec)
    w ← wrap write_failed (write w line)
    wrap write_failed (write w (10 ∷ []))

  -- JsonlSink.OnEvent, for the record that the event has.
  unfoldable pub on_jsonl_event :
      (PipelineEvent → JsonEventRecord) → PipelineEvent → W → Result (WriteRecordError E) W
  on_jsonl_event to_record event w = write_record (to_record event) w

  -- The calls for the events that arrive, in order, up to the first that fails.
  unfoldable pub on_jsonl_events :
      (PipelineEvent → JsonEventRecord) → List PipelineEvent → W → Result (WriteRecordError E) W
  on_jsonl_events to_record [] w = ok w
  on_jsonl_events to_record (event ∷ events) w =
      on_jsonl_event to_record event w >>= λ w. on_jsonl_events to_record events w
