-- ===== src/Net/Dissect/Structure.antt =====
-- internal/net/dissect.go: which layers a dissected packet can have.
use go_core_lab.Common.{
  ℕ, ◌≡◌, refl, Bytes, drop, true, false, ◌&&◌, Option, none, some, is_some, arith,
}
use go_core_lab.Pcap.{Time}
use go_core_lab.Net.Types.{
  Packet, EthernetFrame, ArpHeader, Ipv4Header, Ipv6Header, ip_proto_tcp, ip_proto_udp,
  ip_proto_icmp,
}
use go_core_lab.Net.Dissect.{dissect_with_timestamp, new_packet}
use go_core_lab.Net.Dissect.Fields.{ethernet_at}
use go_core_lab.Net.Dissect.Returned.{Returned, l3-Returned, dissect-Returned}
use go_core_lab.Net.Dissect.Network.{ipv4_hdr_of, ipv6_hdr_of}
use go_core_lab.Net.Dissect.Layers.{l4_of, tcp_of, udp_of, icmp_of}

-- The protocol number that the network layer names.
abbrev pub next_proto : Packet → Option ℕ
next_proto pkt = elim pkt.ipv4_hdr [
  | some h ↦ some h.protocol
  | none ↦ elim pkt.ipv6_hdr [ some h ↦ some h.next_header | none ↦ none ]
]

pub record IsLayered (raw : Bytes) (ts : Time) (pkt : Packet) : Type 0 where
  pub raw_kept : pkt.raw ≡ raw
  pub stamp_kept : pkt.timestamp ≡ ts
  pub ethernet : is_some pkt.ethernet ≡ true
  pub one_network :
      (is_some pkt.ipv4_hdr && is_some pkt.ipv6_hdr ≡ false)
      × (is_some pkt.ipv4_hdr && is_some pkt.arp ≡ false)
      × (is_some pkt.ipv6_hdr && is_some pkt.arp ≡ false)
  pub tcp_proto : is_some pkt.tcp ≡ true → next_proto pkt ≡ some ip_proto_tcp
  pub udp_proto : is_some pkt.udp ≡ true → next_proto pkt ≡ some ip_proto_udp
  pub icmp_proto : is_some pkt.icmp ≡ true → next_proto pkt ≡ some ip_proto_icmp

-- A packet that has its network layer and no transport layer yet.
record HasNoTransport (pkt : Packet) : Type 0 where
  tcp : pkt.tcp ≡ none
  udp : pkt.udp ≡ none
  icmp : pkt.icmp ≡ none

l4-IsLayered :
    (raw : Bytes) (ts : Time) (pkt : Packet) (proto : ℕ) (b : Bytes)
    → IsLayered raw ts pkt
    → HasNoTransport pkt
    → next_proto pkt ≡ some proto
    → IsLayered raw ts (l4_of pkt proto b)
unfolding l4_of tcp_of udp_of icmp_of
l4-IsLayered raw ts pkt proto b l n e = ground arith

module _ (raw : Bytes) (ts : Time) (eth : EthernetFrame) where
  abbrev start : Packet
  start = new_packet raw ts eth

  abbrev Good : Packet → Type 0
  Good = IsLayered raw ts

  with_payload : (p : Bytes) → Good (record (new_packet raw ts eth) { payload = p })
  unfolding new_packet
  with_payload p = ground arith

  over_ipv4 :
      (h : Ipv4Header) (p : Bytes)
      → Good (l4_of (record (new_packet raw ts eth) { ipv4_hdr = some h }) h.protocol p)
  unfolding new_packet
  over_ipv4 h p = l4-IsLayered raw ts _ h.protocol p (ground arith) (ground arith) refl

  over_ipv6 :
      (h : Ipv6Header) (p : Bytes)
      → Good (l4_of (record (new_packet raw ts eth) { ipv6_hdr = some h }) h.next_header p)
  unfolding new_packet
  over_ipv6 h p = l4-IsLayered raw ts _ h.next_header p (ground arith) (ground arith) refl

  over_arp :
      (h : ArpHeader) (p : Bytes)
      → Good (record (new_packet raw ts eth) { arp = some h; payload = p })
  unfolding new_packet
  over_arp h p = ground arith

-- The packet that DissectWithTimestamp returns, with an error or without, keeps the bytes and the
-- stamp of the capture, has an Ethernet header, at most one network layer, and a transport layer
-- only of the protocol that its IP header names.
pub dissect-IsLayered :
    (raw : Bytes) (ts : Time) → Returned (IsLayered raw ts) (dissect_with_timestamp raw ts)
dissect-IsLayered raw ts =
    let eth = ethernet_at raw in
    dissect-Returned (IsLayered raw ts) raw ts (
      l3-Returned (IsLayered raw ts) (new_packet raw ts eth) (drop 14 raw)
        (with_payload raw ts eth (drop 14 raw))
        (λ h. over_ipv4 raw ts eth (ipv4_hdr_of (drop 14 raw)) _)
        (over_ipv6 raw ts eth (ipv6_hdr_of (drop 14 raw)) _) (λ h. over_arp raw ts eth h _))
