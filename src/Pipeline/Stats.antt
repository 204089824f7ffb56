-- ===== src/Pipeline/Stats.antt =====
-- internal/pipeline/sinks.go, StatsSink: the counters, each of which is updated by one atomic
-- operation. The counters are unsigned 64-bit integers.
pub mod Tally
pub mod Counts
mod Tests
use go_core_lab.Common.{
  ℕ, ◌+◌, ◌/◌, ◌%◌, ◌^◌, Bool, true, false, not, ◌&&◌, Option, none, some, is_some, length,
  if◌then◌else◌, ltb, leb, ◌==◌,
}
use go_core_lab.Net.Types.{Packet}
use go_core_lab.Pipeline.Types.{EventType, event_serial, event_network, event_raw, PipelineEvent}

pub record StatsSink : Type 0 where
  pub total_processed : ℕ
  pub total_bytes : ℕ
  pub dropped_events : ℕ
  pub error_events : ℕ
  pub ipv4_count : ℕ
  pub ipv6_count : ℕ
  pub arp_count : ℕ
  pub tcp_count : ℕ
  pub udp_count : ℕ
  pub icmp_count : ℕ
  pub serial_count : ℕ
  pub other_count : ℕ
  pub total_latency_ns : ℕ
  pub min_latency_ns : ℕ
  pub max_latency_ns : ℕ
  pub count_latency : ℕ

-- The counters of a new sink; its clock readings only serve the rates of a snapshot.
abbrev pub new_stats_sink : StatsSink
new_stats_sink = record {
  total_processed = 0;
  total_bytes = 0;
  dropped_events = 0;
  error_events = 0;
  ipv4_count = 0;
  ipv6_count = 0;
  arp_count = 0;
  tcp_count = 0;
  udp_count = 0;
  icmp_count = 0;
  serial_count = 0;
  other_count = 0;
  total_latency_ns = 0;
  min_latency_ns = 0;
  max_latency_ns = 0;
  count_latency = 0;
}

-- `atomic.AddUint64`
abbrev pub add_uint64 : ℕ → ℕ → ℕ
add_uint64 counter delta = (counter + delta) % 2 ^ 64

-- What the compare-and-swap loops for the minimum and the maximum leave.
pub lower_min : ℕ → ℕ → ℕ
lower_min cur_min lat = if not (cur_min == 0) && leb cur_min lat then cur_min else lat

pub raise_max : ℕ → ℕ → ℕ
raise_max cur_max lat = if leb lat cur_max then cur_max else lat

pub record_latency : ℕ → StatsSink → StatsSink
unfolding lower_min raise_max
record_latency lat s =
    if ltb 0 lat
    then record s {
      total_latency_ns = add_uint64 s.total_latency_ns lat;
      count_latency = add_uint64 s.count_latency 1;
      min_latency_ns = lower_min s.min_latency_ns lat;
      max_latency_ns = raise_max s.max_latency_ns lat;
    }
    else s

-- The two if-chains of the protocol counters, on which headers the packet has.
pub count_network_of : Bool → Bool → Bool → StatsSink → StatsSink
count_network_of ipv4 ipv6 arp s =
    if ipv4
    then record s { ipv4_count = add_uint64 s.ipv4_count 1 }
    else if ipv6
    then record s { ipv6_count = add_uint64 s.ipv6_count 1 }
    else if arp
    then record s { arp_count = add_uint64 s.arp_count 1 }
    else s

pub count_transport_of : Bool → Bool → Bool → StatsSink → StatsSink
count_transport_of tcp udp icmp s =
    if tcp
    then record s { tcp_count = add_uint64 s.tcp_count 1 }
    else if udp
    then record s { udp_count = add_uint64 s.udp_count 1 }
    else if icmp
    then record s { icmp_count = add_uint64 s.icmp_count 1 }
    else record s { other_count = add_uint64 s.other_count 1 }

pub count_packet : Option Packet → StatsSink → StatsSink
count_packet none s = record s { other_count = add_uint64 s.other_count 1 }
count_packet (some pkt) s =
    count_transport_of (is_some pkt.tcp) (is_some pkt.udp) (is_some pkt.icmp)
      (count_network_of (is_some pkt.ipv4_hdr) (is_some pkt.ipv6_hdr) (is_some pkt.arp) s)

pub is_serial : EventType → Bool
is_serial event_serial = true
is_serial event_network = false
is_serial event_raw = false

pub categorize : Bool → Option Packet → StatsSink → StatsSink
unfolding count_packet
categorize true packet s = record s { serial_count = add_uint64 s.serial_count 1 }
categorize false packet s = count_packet packet s

pub count_error : Bool → StatsSink → StatsSink
count_error true s = record s { error_events = add_uint64 s.error_events 1 }
count_error false s = s

pub count_event : ℕ → StatsSink → StatsSink
count_event size s = record s {
  total_processed = add_uint64 s.total_processed 1;
  total_bytes = add_uint64 s.total_bytes size;
}

pub on_stats_event : PipelineEvent → StatsSink → StatsSink
on_stats_event event s = categorize (is_serial event.kind) event.packet (
    record_latency event.latency
      (count_error (is_some event.error) (count_event (length event.raw) s)))

unfoldable pub record_drop : StatsSink → StatsSink
record_drop s = record s { dropped_events = add_uint64 s.dropped_events 1 }

-- The average of a snapshot, `time.Duration(totLat / cntLat)` as a bit pattern.
pub avg_latency : StatsSink → ℕ
avg_latency s = if ltb 0 s.count_latency then s.total_latency_ns / s.count_latency else 0
