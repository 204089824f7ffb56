-- ===== src/Pipeline/Stats/Tally.antt =====
-- internal/pipeline/sinks.go, StatsSink: what one event adds to each counter.
use go_core_lab.Common.{
  ℕ, ◌≡◌, refl, Bool, true, false, not, ◌&&◌, Option, none, some, is_some, length, if◌then◌else◌,
  ltb, Bool-cases, inl, inr,
}
use go_core_lab.Net.Types.{Packet}
use go_core_lab.Pipeline.Types.{PipelineEvent}
use go_core_lab.Pipeline.Stats.{
  StatsSink, add_uint64, lower_min, raise_max, record_latency, count_network_of, count_transport_of,
  count_packet, is_serial, categorize, count_error, count_event, on_stats_event,
}

-- What one event adds to every counter.
pub record Tally : Type 0 where
  pub size : ℕ
  pub lat : ℕ
  pub failed : Bool
  pub serial : Bool
  pub other : Bool
  pub ipv4 : Bool
  pub ipv6 : Bool
  pub arp : Bool
  pub tcp : Bool
  pub udp : Bool
  pub icmp : Bool

abbrev pub bump : Bool → ℕ → ℕ → ℕ
bump b c d = if b then add_uint64 c d else c

unfoldable pub lower : ℕ → ℕ → ℕ
lower c lat = if ltb 0 lat then lower_min c lat else c

unfoldable pub raise : ℕ → ℕ → ℕ
raise c lat = if ltb 0 lat then raise_max c lat else c

unfoldable pub apply : Tally → StatsSink → StatsSink
apply t s = record {
  total_processed = add_uint64 s.total_processed 1;
  total_bytes = add_uint64 s.total_bytes t.size;
  dropped_events = s.dropped_events;
  error_events = bump t.failed s.error_events 1;
  ipv4_count = bump t.ipv4 s.ipv4_count 1;
  ipv6_count = bump t.ipv6 s.ipv6_count 1;
  arp_count = bump t.arp s.arp_count 1;
  tcp_count = bump t.tcp s.tcp_count 1;
  udp_count = bump t.udp s.udp_count 1;
  icmp_count = bump t.icmp s.icmp_count 1;
  serial_count = bump t.serial s.serial_count 1;
  other_count = bump t.other s.other_count 1;
  total_latency_ns = bump (ltb 0 t.lat) s.total_latency_ns t.lat;
  min_latency_ns = lower s.min_latency_ns t.lat;
  max_latency_ns = raise s.max_latency_ns t.lat;
  count_latency = bump (ltb 0 t.lat) s.count_latency 1;
}

unfoldable pub tally_packet : ℕ → ℕ → Bool → Option Packet → Tally
tally_packet size lat failed none = record {
  size = size;
  lat = lat;
  failed = failed;
  serial = false;
  other = true;
  ipv4 = false;
  ipv6 = false;
  arp = false;
  tcp = false;
  udp = false;
  icmp = false;
}
tally_packet size lat failed (some pkt) =
    let v4 = is_some pkt.ipv4_hdr in
    let v6 = is_some pkt.ipv6_hdr in
    let tcp = is_some pkt.tcp in
    let udp = is_some pkt.udp in
    let icmp = is_some pkt.icmp in
    record {
      size = size;
      lat = lat;
      failed = failed;
      serial = false;
      other = not tcp && not udp && not icmp;
      ipv4 = v4;
      ipv6 = not v4 && v6;
      arp = not v4 && not v6 && is_some pkt.arp;
      tcp = tcp;
      udp = not tcp && udp;
      icmp = not tcp && not udp && icmp;
    }

unfoldable pub tally_of : ℕ → ℕ → Bool → Bool → Option Packet → Tally
unfolding tally_packet
tally_of size lat failed false p = tally_packet size lat failed p
tally_of size lat failed true p = record {
  size = size;
  lat = lat;
  failed = failed;
  serial = true;
  other = false;
  ipv4 = false;
  ipv6 = false;
  arp = false;
  tcp = false;
  udp = false;
  icmp = false;
}

unfoldable pub tally : PipelineEvent → Tally
tally event =
    tally_of (length event.raw) event.latency (is_some event.error) (is_serial event.kind)
      event.packet

network_apply :
    (v4 v6 arp : Bool) (s : StatsSink)
    → count_network_of v4 v6 arp s ≡ record s {
      ipv4_count = bump v4 s.ipv4_count 1;
      ipv6_count = bump (not v4 && v6) s.ipv6_count 1;
      arp_count = bump (not v4 && not v6 && arp) s.arp_count 1;
    }
unfolding count_network_of
network_apply true v6 arp s = refl
network_apply false true arp s = refl
network_apply false false true s = refl
network_apply false false false s = refl

transport_apply :
    (tcp udp icmp : Bool) (s : StatsSink)
    → count_transport_of tcp udp icmp s ≡ record s {
      tcp_count = bump tcp s.tcp_count 1;
      udp_count = bump (not tcp && udp) s.udp_count 1;
      icmp_count = bump (not tcp && not udp && icmp) s.icmp_count 1;
      other_count = bump (not tcp && not udp && not icmp) s.other_count 1;
    }
unfolding count_transport_of
transport_apply true udp icmp s = refl
transport_apply false true icmp s = refl
transport_apply false false true s = refl
transport_apply false false false s = refl

latency_apply :
    (lat : ℕ) (s : StatsSink)
    → record_latency lat s ≡ record s {
      total_latency_ns = bump (ltb 0 lat) s.total_latency_ns lat;
      count_latency = bump (ltb 0 lat) s.count_latency 1;
      min_latency_ns = lower s.min_latency_ns lat;
      max_latency_ns = raise s.max_latency_ns lat;
    }
unfolding record_latency lower raise
latency_apply lat s = elim (Bool-cases (ltb 0 lat)) [
  | inl some_time ↦ rw some_time
  | inr no_time ↦ rw no_time
]

error_apply :
    (failed : Bool) (s : StatsSink)
    → count_error failed s ≡ record s { error_events = bump failed s.error_events 1 }
unfolding count_error
error_apply true s = refl
error_apply false s = refl

event_apply :
    (size lat : ℕ) (failed serial : Bool) (p : Option Packet) (s : StatsSink)
    → categorize serial p (record_latency lat (count_error failed (count_event size s)))
      ≡ apply (tally_of size lat failed serial p) s
unfolding apply tally_of tally_packet categorize count_packet count_event
event_apply size lat failed true p s = rw (error_apply, latency_apply)
event_apply size lat failed false none s = rw (error_apply, latency_apply)
event_apply size lat failed false (some pkt) s =
    rw (error_apply, latency_apply, network_apply, transport_apply)

pub on_stats_event-apply :
    (event : PipelineEvent) (s : StatsSink) → on_stats_event event s ≡ apply (tally event) s
unfolding on_stats_event tally
on_stats_event-apply event s = event_apply _ _ _ _ event.packet s
