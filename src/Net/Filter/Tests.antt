-- ===== src/Net/Filter/Tests.antt =====
-- The filter on concrete packets.
use go_core_lab.Common.{◌≡◌, ◌↔◌, refl, true, false, none, some, [], ◌∷◌}
use go_core_lab.Net.Types.{Packet, ipv4}
use go_core_lab.Net.Filter.{PacketFilter, matches, criteria}
use go_core_lab.Net.Filter.{
  protocol_ok, port_ok, src_port_ok, dst_port_ok, host_ok, cidr_ok, ip_equal, same_bytes, contains,
  network_and_mask, same_masked, is_empty,
}
use go_core_lab.Net.Filter.Criteria.{Satisfies, matches_iff}

abbrev tcp_packet : Packet
tcp_packet = record {
  timestamp = record { unix = 0; nsec = 0 };
  raw = [];
  ethernet = none;
  ipv4_hdr = some (record {
    version = 4;
    ihl = 5;
    dscp = 0;
    ecn = 0;
    total_length = 40;
    identification = 0;
    flags = 0;
    fragment_offset = 0;
    ttl = 64;
    protocol = 6;
    checksum = 0;
    src_ip = ipv4 10 1 2 3;
    dst_ip = ipv4 192 168 1 1;
  });
  ipv6_hdr = none;
  arp = none;
  tcp = some (record {
    src_port = 443;
    dst_port = 50000;
    seq_num = 0;
    ack_num = 0;
    data_offset = 5;
    flags = 2;
    window_size = 0;
    checksum = 0;
    urgent_ptr = 0;
  });
  udp = none;
  icmp = none;
  payload = [];
}

-- TCP, port 443, host 192.168.1.1, net 10.0.0.0/8
abbrev web : PacketFilter
web = record {
  protocol = "tcp";
  port = 443;
  src_port = 0;
  dst_port = 0;
  host = some (ipv4 192 168 1 1);
  cidr = some (record { ip = 10 ∷ 0 ∷ 0 ∷ 0 ∷ []; mask = 255 ∷ 0 ∷ 0 ∷ 0 ∷ [] });
}

web_passes : matches (some web) (some tcp_packet) ≡ true
unfolding matches criteria protocol_ok port_ok src_port_ok dst_port_ok host_ok cidr_ok ip_equal
    same_bytes contains network_and_mask same_masked is_empty
web_passes = refl

other_port : matches (some (record web { port = 80 })) (some tcp_packet) ≡ false
unfolding matches criteria protocol_ok port_ok src_port_ok dst_port_ok host_ok cidr_ok ip_equal
    same_bytes contains network_and_mask same_masked is_empty
other_port = refl

matches_iff_example : (matches (some web) (some tcp_packet) ≡ true) ↔ Satisfies web tcp_packet
matches_iff_example = matches_iff web tcp_packet refl
