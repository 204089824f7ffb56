-- ===== src/Net/Dissect/Safety.antt =====
-- internal/net/dissect.go: the frames on which the dissector panics.
use go_core_lab.Common.{◌/◌, ◌≤◌, ◌<◌, ◌≡◌, ◌↔◌, Bytes, length, drop, panic, byte, arith}
use go_core_lab.Pcap.{Time}
use go_core_lab.Net.Types.{Packet, ether_type_ipv4}
use go_core_lab.Net.Dissect.{dissect_with_timestamp, new_packet}
use go_core_lab.Net.Dissect.Fields.{be, ethernet_at}
use go_core_lab.Net.Dissect.Network.{
  header_len, total_len, ipv4_of, ipv6_of, arp_of, l3_of, frame_of, dissect_lem,
}

-- An IPv4 packet whose header is accepted, and whose total length, cut to the bytes that are
-- there, ends inside the header.
pub record Overrun (b : Bytes) : Type 0 where
  pub fixed_part : 20 ≤ length b
  pub version : byte b 0 / 16 ≡ 4
  pub header_min : 20 ≤ header_len b
  pub header_fits : header_len b ≤ length b
  pub total_inside : total_len b < header_len b

ipv4-panics : (pkt : Packet) (b : Bytes) → (ipv4_of pkt b ≡ panic) ↔ Overrun b
unfolding ipv4_of
ipv4-panics pkt b = ground arith

-- DissectWithTimestamp panics on exactly those frames of 14 bytes or more and of the type IPv4 whose
-- packet has 20 bytes or more, the version 4, a header length from 20 to the length of the packet, and
-- a total length, cut to the bytes that are there, below the header length.
pub dissect-panics_iff :
    (raw : Bytes) (ts : Time)
    → (dissect_with_timestamp raw ts ≡ panic)
      ↔ ((14 ≤ length raw) × (be raw 12 2 ≡ ether_type_ipv4) × Overrun (drop 14 raw))
unfolding frame_of l3_of ipv6_of arp_of
dissect-panics_iff raw ts =
    rw dissect_lem (ground (arith, ipv4-panics (new_packet raw ts (ethernet_at raw)) (drop 14 raw)))
