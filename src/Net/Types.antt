-- ===== src/Net/Types.antt =====
-- internal/net/types.go: the layers of a dissected packet. A nil pointer is `none`.
use go_core_lab.Common.{ℕ, Bytes, Option, [], ◌∷◌}
use go_core_lab.Pcap.{Time}

abbrev pub ether_type_ipv4 : ℕ
ether_type_ipv4 = 0x0800

abbrev pub ether_type_arp : ℕ
ether_type_arp = 0x0806

abbrev pub ether_type_ipv6 : ℕ
ether_type_ipv6 = 0x86DD

abbrev pub ip_proto_icmp : ℕ
ip_proto_icmp = 1

abbrev pub ip_proto_tcp : ℕ
ip_proto_tcp = 6

abbrev pub ip_proto_udp : ℕ
ip_proto_udp = 17

-- `net.IP` and `net.HardwareAddr` are byte slices; `net.IPv4` builds the 16-byte form.
abbrev pub IpAddr : Type 0
IpAddr = Bytes

abbrev pub ipv4 : ℕ → ℕ → ℕ → ℕ → IpAddr
ipv4 a b c d = 0 ∷ 0 ∷ 0 ∷ 0 ∷ 0 ∷ 0 ∷ 0 ∷ 0 ∷ 0 ∷ 0 ∷ 0xff ∷ 0xff ∷ a ∷ b ∷ c ∷ d ∷ []

pub record EthernetFrame : Type 0 where
  pub dst_mac : Bytes
  pub src_mac : Bytes
  pub ether_type : ℕ

pub record Ipv4Header : Type 0 where
  pub version : ℕ
  pub ihl : ℕ
  pub dscp : ℕ
  pub ecn : ℕ
  pub total_length : ℕ
  pub identification : ℕ
  pub flags : ℕ
  pub fragment_offset : ℕ
  pub ttl : ℕ
  pub protocol : ℕ
  pub checksum : ℕ
  pub src_ip : IpAddr
  pub dst_ip : IpAddr

pub record Ipv6Header : Type 0 where
  pub version : ℕ
  pub traffic_class : ℕ
  pub flow_label : ℕ
  pub payload_len : ℕ
  pub next_header : ℕ
  pub hop_limit : ℕ
  pub src_ip : IpAddr
  pub dst_ip : IpAddr

pub record ArpHeader : Type 0 where
  pub hardware_type : ℕ
  pub protocol_type : ℕ
  pub hardware_size : ℕ
  pub protocol_size : ℕ
  pub opcode : ℕ
  pub sender_mac : Bytes
  pub sender_ip : IpAddr
  pub target_mac : Bytes
  pub target_ip : IpAddr

pub record TcpHeader : Type 0 where
  pub src_port : ℕ
  pub dst_port : ℕ
  pub seq_num : ℕ
  pub ack_num : ℕ
  pub data_offset : ℕ
  pub flags : ℕ
  pub window_size : ℕ
  pub checksum : ℕ
  pub urgent_ptr : ℕ

pub record UdpHeader : Type 0 where
  pub src_port : ℕ
  pub dst_port : ℕ
  pub length : ℕ
  pub checksum : ℕ

pub record IcmpHeader : Type 0 where
  pub kind : ℕ
  pub code : ℕ
  pub checksum : ℕ

pub record Packet : Type 0 where
  pub timestamp : Time
  pub raw : Bytes
  pub ethernet : Option EthernetFrame
  pub ipv4_hdr : Option Ipv4Header
  pub ipv6_hdr : Option Ipv6Header
  pub arp : Option ArpHeader
  pub tcp : Option TcpHeader
  pub udp : Option UdpHeader
  pub icmp : Option IcmpHeader
  pub payload : Bytes
