-- ===== src/Net/Dissect/Fields.antt =====
-- internal/net/dissect.go: the headers that are read when enough bytes are there, as tables of
-- offsets and widths, with no bounds check left.
use Prim.Native.Nat.{bit_or}
use go_core_lab.Common.{
  ℕ, ◌+◌, ◌*◌, ◌/◌, ◌%◌, ◌^◌, ◌≤◌, ◌≡◌, Bytes, length, ok, big_endian, decode, window, byte,
  index_lem, slice_lem, uint_lem, arith,
}
use go_core_lab.Net.Types.{
  EthernetFrame, Ipv4Header, Ipv6Header, ArpHeader, TcpHeader, UdpHeader, IcmpHeader, ipv4, IpAddr,
}
use go_core_lab.Net.Dissect.{
  read_ipv4, tcp_header, ipv4_header, ipv6_header, arp_header, ethernet_frame,
}

-- The unsigned integer in the `n` bytes at `i`, most significant first.
abbrev pub be : Bytes → ℕ → ℕ → ℕ
be b i n = decode big_endian (window b i n)

abbrev pub ipv4_at : Bytes → ℕ → IpAddr
ipv4_at b i = ipv4 (byte b i) (byte b (i + 1)) (byte b (i + 2)) (byte b (i + 3))

abbrev pub tcp_at : ℕ → Bytes → TcpHeader
tcp_at data_offset b = record {
  src_port = be b 0 2;
  dst_port = be b 2 2;
  seq_num = be b 4 4;
  ack_num = be b 8 4;
  data_offset = data_offset / 4;
  flags = byte b 13;
  window_size = be b 14 2;
  checksum = be b 16 2;
  urgent_ptr = be b 18 2;
}

abbrev pub udp_at : Bytes → UdpHeader
udp_at b = record {
  src_port = be b 0 2;
  dst_port = be b 2 2;
  length = be b 4 2;
  checksum = be b 6 2;
}

abbrev pub icmp_at : Bytes → IcmpHeader
icmp_at b = record { kind = byte b 0; code = byte b 1; checksum = be b 2 2 }

abbrev pub ipv4_header_at : ℕ → ℕ → ℕ → Bytes → Ipv4Header
ipv4_header_at version ihl total_len b = record {
  version = version;
  ihl = ihl;
  dscp = byte b 1 / 4;
  ecn = byte b 1 % 4;
  total_length = total_len;
  identification = be b 4 2;
  flags = byte b 6 / 32;
  fragment_offset = be b 6 2 % 8192;
  ttl = byte b 8;
  protocol = byte b 9;
  checksum = be b 10 2;
  src_ip = ipv4_at b 12;
  dst_ip = ipv4_at b 16;
}

abbrev pub ipv6_header_at : ℕ → Bytes → Ipv6Header
ipv6_header_at version b = record {
  version = version;
  traffic_class = bit_or (byte b 0 % 16 * 16) (byte b 1 / 16);
  flow_label = bit_or (bit_or (byte b 1 % 16 * 2 ^ 16) (byte b 2 * 2 ^ 8)) (byte b 3);
  payload_len = be b 4 2;
  next_header = byte b 6;
  hop_limit = byte b 7;
  src_ip = window b 8 16;
  dst_ip = window b 24 16;
}

abbrev pub arp_at : Bytes → ArpHeader
arp_at b = record {
  hardware_type = be b 0 2;
  protocol_type = be b 2 2;
  hardware_size = byte b 4;
  protocol_size = byte b 5;
  opcode = be b 6 2;
  sender_mac = window b 8 6;
  sender_ip = ipv4_at b 14;
  target_mac = window b 18 6;
  target_ip = ipv4_at b 24;
}

abbrev pub ethernet_at : Bytes → EthernetFrame
ethernet_at b = record { dst_mac = window b 0 6; src_mac = window b 6 6; ether_type = be b 12 2 }

read_ipv4_lem : (b : Bytes) (i : ℕ) → i + 4 ≤ length b → read_ipv4 b i ≡ ok (ipv4_at b i)
unfolding read_ipv4
read_ipv4_lem b i h = rw (
  index_lem b i (omega arith),
  index_lem b (i + 1) (omega arith),
  index_lem b (i + 2) (omega arith),
  index_lem b (i + 3) (omega arith),
)

module _ (b : Bytes) where
  pub tcp_header_lem : (off : ℕ) → 20 ≤ length b → tcp_header off b ≡ ok (tcp_at off b)
  unfolding tcp_header
  tcp_header_lem off h = rw (
    uint_lem big_endian 2 b 0 (omega arith),
    uint_lem big_endian 2 b 2 (omega arith),
    uint_lem big_endian 4 b 4 (omega arith),
    uint_lem big_endian 4 b 8 (omega arith),
    index_lem b 13 (omega arith),
    uint_lem big_endian 2 b 14 (omega arith),
    uint_lem big_endian 2 b 16 (omega arith),
    uint_lem big_endian 2 b 18 (omega arith),
  )

  pub ipv4_header_lem :
      (version ihl total_len : ℕ)
      → 20 ≤ length b
      → ipv4_header version ihl total_len b ≡ ok (ipv4_header_at version ihl total_len b)
  unfolding ipv4_header
  ipv4_header_lem version ihl total_len h = rw (
    index_lem b 1 (omega arith),
    uint_lem big_endian 2 b 4 (omega arith),
    index_lem b 6 (omega arith),
    uint_lem big_endian 2 b 6 (omega arith),
    index_lem b 8 (omega arith),
    index_lem b 9 (omega arith),
    uint_lem big_endian 2 b 10 (omega arith),
    read_ipv4_lem b 12 (omega arith),
    read_ipv4_lem b 16 (omega arith),
  )

  pub ipv6_header_lem :
      (version : ℕ) → 40 ≤ length b → ipv6_header version b ≡ ok (ipv6_header_at version b)
  unfolding ipv6_header
  ipv6_header_lem version h = rw (
    uint_lem big_endian 2 b 4 (omega arith),
    index_lem b 6 (omega arith),
    index_lem b 0 (omega arith),
    index_lem b 1 (omega arith),
    index_lem b 2 (omega arith),
    index_lem b 3 (omega arith),
    index_lem b 7 (omega arith),
    slice_lem b 8 24 (omega arith) (omega arith),
    slice_lem b 24 40 (omega arith) (omega arith),
  )

  pub arp_header_lem : 28 ≤ length b → arp_header b ≡ ok (arp_at b)
  unfolding arp_header
  arp_header_lem h = rw (
    uint_lem big_endian 2 b 0 (omega arith),
    uint_lem big_endian 2 b 2 (omega arith),
    index_lem b 4 (omega arith),
    index_lem b 5 (omega arith),
    uint_lem big_endian 2 b 6 (omega arith),
    slice_lem b 8 14 (omega arith) (omega arith),
    read_ipv4_lem b 14 (omega arith),
    slice_lem b 18 24 (omega arith) (omega arith),
    read_ipv4_lem b 24 (omega arith),
  )

  pub ethernet_frame_lem : 14 ≤ length b → ethernet_frame b ≡ ok (ethernet_at b)
  unfolding ethernet_frame
  ethernet_frame_lem h = rw (
    slice_lem b 0 6 (omega arith) (omega arith),
    slice_lem b 6 12 (omega arith) (omega arith),
    uint_lem big_endian 2 b 12 (omega arith),
  )
