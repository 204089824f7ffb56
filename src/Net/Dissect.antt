-- ===== src/Net/Dissect.antt =====
-- internal/net/dissect.go: DissectWithTimestamp and the dissectors of the layers.
-- A dissector that fails returns the packet as far as it was filled in, beside its error. Index and
-- slice expressions out of range panic, as in Go. Shifts and masks are `/`, `%` and `*`.
pub mod Fields
pub mod Layers
pub mod Network
pub mod Safety
pub mod Returned
pub mod Structure
pub mod Payload
mod Tests
use Prim.Native.Nat.{bit_or}
use go_core_lab.Common.{
  ℕ, ◌+◌, ◌*◌, ◌/◌, ◌%◌, ◌^◌, Bytes, Option, none, some, Bool, true, false, ◌||◌, not, length,
  Result, ok, err, panic, ◌>>=◌, ◌>>◌, guard, index, slice, uint, big_endian, if◌then◌else◌, ltb,
  leb, ◌==◌, [],
}
use go_core_lab.Pcap.{Time}
use go_core_lab.Net.Types.{
  EthernetFrame, Ipv4Header, Ipv6Header, ArpHeader, TcpHeader, UdpHeader, IcmpHeader, Packet, ipv4,
  ether_type_ipv4, ether_type_ipv6, ether_type_arp, ip_proto_tcp, ip_proto_udp, ip_proto_icmp,
}

pub data DissectError : Type 0 where
  packet_too_short : ℕ → DissectError
  truncated_ipv4 : ℕ → DissectError
  invalid_ipv4_version : ℕ → DissectError
  invalid_ipv4_header_length : ℕ → DissectError
  truncated_ipv6 : ℕ → DissectError
  invalid_ipv6_version : ℕ → DissectError
  truncated_arp : ℕ → DissectError

-- The two results of a Go call that failed. Only DissectWithTimestamp itself returns a nil packet.
abbrev pub Failure : Type 0
Failure = Option Packet × DissectError

-- `binary.BigEndian.Uint16(b[i : i+2])`, `binary.BigEndian.Uint32(b[i : i+4])`
abbrev pub uint16 : Bytes → ℕ → Result Failure ℕ
uint16 b i = uint big_endian 2 b i

abbrev pub uint32 : Bytes → ℕ → Result Failure ℕ
uint32 b i = uint big_endian 4 b i

-- `net.IPv4(b[i], b[i+1], b[i+2], b[i+3])`
pub read_ipv4 : Bytes → ℕ → Result Failure Bytes
read_ipv4 b i = do
  x ← index b i
  y ← index b (i + 1)
  z ← index b (i + 2)
  w ← index b (i + 3)
  ok (ipv4 x y z w)

pub tcp_header : ℕ → Bytes → Result Failure TcpHeader
tcp_header data_offset b = do
  src_port ← uint16 b 0
  dst_port ← uint16 b 2
  seq_num ← uint32 b 4
  ack_num ← uint32 b 8
  flags ← index b 13
  window_size ← uint16 b 14
  checksum ← uint16 b 16
  urgent_ptr ← uint16 b 18
  ok record {
    src_port = src_port;
    dst_port = dst_port;
    seq_num = seq_num;
    ack_num = ack_num;
    data_offset = data_offset / 4;
    flags = flags;
    window_size = window_size;
    checksum = checksum;
    urgent_ptr = urgent_ptr;
  }

-- `dataOffset := (b[12] >> 4) * 4` and its correction; the product is a uint8.
pub tcp_data_offset : Bytes → Result Failure ℕ
tcp_data_offset b = do
  x ← index b 12
  let offset = x / 16 * 4 % 256
  ok (if ltb (length b) offset || ltb offset 20 then 20 else offset)

-- `if int(dataOffset) <= len(b) { pkt.Payload = b[dataOffset:] }`
pub tcp_payload : Packet → ℕ → Bytes → Result Failure Packet
tcp_payload pkt data_offset b =
    if leb data_offset (length b)
    then (slice b data_offset (length b) >>= λ rest. ok (record pkt { payload = rest }))
    else ok pkt

pub dissect_tcp : Packet → Bytes → Result Failure Packet
dissect_tcp pkt b = if ltb (length b) 20 then ok (record pkt { payload = b }) else do
  data_offset ← tcp_data_offset b
  h ← tcp_header data_offset b
  tcp_payload (record pkt { tcp = some h }) data_offset b

pub dissect_udp : Packet → Bytes → Result Failure Packet
dissect_udp pkt b = if ltb (length b) 8 then ok (record pkt { payload = b }) else do
  src_port ← uint16 b 0
  dst_port ← uint16 b 2
  len ← uint16 b 4
  checksum ← uint16 b 6
  rest ← slice b 8 (length b)
  ok (record pkt {
    udp =
        some
          (record { src_port = src_port; dst_port = dst_port; length = len; checksum = checksum });
    payload = rest;
  })

pub dissect_icmp : Packet → Bytes → Result Failure Packet
dissect_icmp pkt b = if ltb (length b) 4 then ok (record pkt { payload = b }) else do
  kind ← index b 0
  code ← index b 1
  checksum ← uint16 b 2
  rest ← slice b 4 (length b)
  ok (record pkt {
    icmp = some (record { kind = kind; code = code; checksum = checksum });
    payload = rest;
  })

pub dissect_l4 : Packet → ℕ → Bytes → Result Failure Packet
dissect_l4 pkt proto b =
    if proto == ip_proto_tcp
    then dissect_tcp pkt b
    else if proto == ip_proto_udp
    then dissect_udp pkt b
    else if proto == ip_proto_icmp
    then dissect_icmp pkt b
    else ok (record pkt { payload = b })

-- The failures of a layer leave what it was given as the payload.
abbrev fail : Packet → Bytes → DissectError → Failure
fail pkt b e = (some (record pkt { payload = b }), e)

pub ipv4_header : ℕ → ℕ → ℕ → Bytes → Result Failure Ipv4Header
ipv4_header version ihl total_len b = do
  tos ← index b 1
  identification ← uint16 b 4
  top ← index b 6
  fragment ← uint16 b 6
  ttl ← index b 8
  protocol ← index b 9
  checksum ← uint16 b 10
  src_ip ← read_ipv4 b 12
  dst_ip ← read_ipv4 b 16
  ok record {
    version = version;
    ihl = ihl;
    dscp = tos / 4;
    ecn = tos % 4;
    total_length = total_len;
    identification = identification;
    flags = top / 32;
    fragment_offset = fragment % 8192;
    ttl = ttl;
    protocol = protocol;
    checksum = checksum;
    src_ip = src_ip;
    dst_ip = dst_ip;
  }

-- `totalLen`, cut to the bytes that are there.
pub ipv4_total_len : Bytes → Result Failure ℕ
ipv4_total_len b = do
  total_len ← uint16 b 2
  ok (if ltb (length b) total_len then length b % 2 ^ 16 else total_len)

pub dissect_ipv4 : Packet → Bytes → Result Failure Packet
dissect_ipv4 pkt b = do
  guard (not (ltb (length b) 20)) (fail pkt b (truncated_ipv4 (length b)))
  first ← index b 0
  let version = first / 16
  guard (version == 4) (fail pkt b (invalid_ipv4_version version))
  let ihl = first % 16
  let header_len = ihl * 4
  guard (not (ltb (length b) header_len || ltb header_len 20))
      (fail pkt b (invalid_ipv4_header_length header_len))
  total_len ← ipv4_total_len b
  h ← ipv4_header version ihl total_len b
  l4 ← slice b header_len total_len
  dissect_l4 (record pkt { ipv4_hdr = some h }) h.protocol l4

pub ipv6_header : ℕ → Bytes → Result Failure Ipv6Header
ipv6_header version b = do
  payload_len ← uint16 b 4
  next_header ← index b 6
  b0 ← index b 0
  b1 ← index b 1
  b2 ← index b 2
  b3 ← index b 3
  hop_limit ← index b 7
  src_ip ← slice b 8 24
  dst_ip ← slice b 24 40
  ok record {
    version = version;
    traffic_class = bit_or (b0 % 16 * 16) (b1 / 16);
    flow_label = bit_or (bit_or (b1 % 16 * 2 ^ 16) (b2 * 2 ^ 8)) b3;
    payload_len = payload_len;
    next_header = next_header;
    hop_limit = hop_limit;
    src_ip = src_ip;
    dst_ip = dst_ip;
  }

pub dissect_ipv6 : Packet → Bytes → Result Failure Packet
dissect_ipv6 pkt b = do
  guard (not (ltb (length b) 40)) (fail pkt b (truncated_ipv6 (length b)))
  first ← index b 0
  let version = first / 16
  guard (version == 6) (fail pkt b (invalid_ipv6_version version))
  h ← ipv6_header version b
  rest ← slice b 40 (length b)
  l4 ← if ltb h.payload_len (length rest) then slice rest 0 h.payload_len else ok rest
  dissect_l4 (record pkt { ipv6_hdr = some h }) h.next_header l4

pub arp_header : Bytes → Result Failure ArpHeader
arp_header b = do
  hardware_type ← uint16 b 0
  protocol_type ← uint16 b 2
  hardware_size ← index b 4
  protocol_size ← index b 5
  opcode ← uint16 b 6
  sender_mac ← slice b 8 14
  sender_ip ← read_ipv4 b 14
  target_mac ← slice b 18 24
  target_ip ← read_ipv4 b 24
  ok record {
    hardware_type = hardware_type;
    protocol_type = protocol_type;
    hardware_size = hardware_size;
    protocol_size = protocol_size;
    opcode = opcode;
    sender_mac = sender_mac;
    sender_ip = sender_ip;
    target_mac = target_mac;
    target_ip = target_ip;
  }

pub dissect_arp : Packet → Bytes → Result Failure Packet
dissect_arp pkt b = do
  guard (not (ltb (length b) 28)) (fail pkt b (truncated_arp (length b)))
  h ← arp_header b
  rest ← slice b 28 (length b)
  ok (record pkt { arp = some h; payload = rest })

pub new_packet : Bytes → Time → EthernetFrame → Packet
new_packet raw ts eth = record {
  timestamp = ts;
  raw = raw;
  ethernet = some eth;
  ipv4_hdr = none;
  ipv6_hdr = none;
  arp = none;
  tcp = none;
  udp = none;
  icmp = none;
  payload = [];
}

pub ethernet_frame : Bytes → Result Failure EthernetFrame
ethernet_frame raw = do
  dst_mac ← slice raw 0 6
  src_mac ← slice raw 6 12
  ether_type ← uint16 raw 12
  ok record { dst_mac = dst_mac; src_mac = src_mac; ether_type = ether_type }

pub dissect_l3 : Packet → ℕ → Bytes → Result Failure Packet
dissect_l3 pkt ether_type payload =
    if ether_type == ether_type_ipv4
    then dissect_ipv4 pkt payload
    else if ether_type == ether_type_ipv6
    then dissect_ipv6 pkt payload
    else if ether_type == ether_type_arp
    then dissect_arp pkt payload
    else ok (record pkt { payload = payload })

pub dissect_with_timestamp : Bytes → Time → Result Failure Packet
dissect_with_timestamp raw ts = do
  guard (not (ltb (length raw) 14)) (none, packet_too_short (length raw))
  eth ← ethernet_frame raw
  payload ← slice raw 14 (length raw)
  dissect_l3 (new_packet raw ts eth) eth.ether_type payload
