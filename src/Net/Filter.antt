-- ===== src/Net/Filter.antt =====
-- internal/net/filter.go: the userspace packet filter, with `net.IP.Equal` and `net.IPNet.Contains`.
pub mod Criteria
mod Tests
use Prim.Native.Nat.{bit_and}
use Prim.Native.String.{String}
use text.Mathlib.Text.{◌==◌ as str_eq}
use go_core_lab.Common.{
  ℕ, Bool, true, false, not, ◌&&◌, ◌||◌, Option, none, some, is_some, List, [], ◌∷◌, Bytes, length,
  take, drop, if◌then◌else◌, ◌==◌, Result, ok, err,
}
use go_core_lab.Net.Types.{Packet, IpAddr, TcpHeader, UdpHeader}

pub same_bytes : Bytes → Bytes → Bool
same_bytes [] [] = true
same_bytes (x ∷ xs) (y ∷ ys) = x == y && same_bytes xs ys
same_bytes _ _ = false

-- The twelve bytes in front of an IPv4 address in its 16-byte form.
abbrev pub v4_prefix : Bytes
v4_prefix = 0 ∷ 0 ∷ 0 ∷ 0 ∷ 0 ∷ 0 ∷ 0 ∷ 0 ∷ 0 ∷ 0 ∷ 0xff ∷ 0xff ∷ []

pub to4 : IpAddr → Option Bytes
to4 ip =
    if length ip == 4
    then some ip
    else if length ip == 16 && same_bytes (take 12 ip) v4_prefix
    then some (drop 12 ip)
    else none

-- An IPv4 address equals its 16-byte form.
pub ip_equal : IpAddr → IpAddr → Bool
ip_equal ip x =
    if length ip == length x
    then same_bytes ip x
    else if length ip == 4 && length x == 16
    then same_bytes (take 12 x) v4_prefix && same_bytes ip (drop 12 x)
    else if length ip == 16 && length x == 4
    then same_bytes (take 12 ip) v4_prefix && same_bytes (drop 12 ip) x
    else false

pub record IpNet : Type 0 where
  pub ip : IpAddr
  pub mask : Bytes

pub same_masked : Bytes → Bytes → Bytes → Bool
same_masked (n ∷ ns) (m ∷ ms) (x ∷ xs) = bit_and n m == bit_and x m && same_masked ns ms xs
same_masked _ _ _ = true

-- The network number and the mask at the same length, if they have one.
pub network_and_mask : IpNet → Option (Bytes × Bytes)
unfolding to4
network_and_mask n = number (elim (to4 n.ip) [ some v4 ↦ v4 | none ↦ n.ip ])
  where
    number : Bytes → Option (Bytes × Bytes)
    number ip =
        if length n.mask == 4 && length ip == 4
        then some (ip, n.mask)
        else if length n.mask == 16 && length ip == 4
        then some (ip, drop 12 n.mask)
        else if length n.mask == 16 && length ip == 16
        then some (ip, n.mask)
        else none

pub contains : IpNet → IpAddr → Bool
contains n addr = elim (network_and_mask n) [
  | none ↦ false
  | some (number, mask) ↦ length x == length number && same_masked number mask x
]
  where
    x : Bytes
    x = elim (to4 addr) [ some v4 ↦ v4 | none ↦ addr ]

pub record PacketFilter : Type 0 where
  pub protocol : String
  pub port : ℕ
  pub src_port : ℕ
  pub dst_port : ℕ
  pub host : Option IpAddr
  pub cidr : Option IpNet

pub data FilterError : Type 0 where
  invalid_cidr : String → FilterError
  invalid_ip : String → FilterError

-- `strings.ToLower`, `strings.TrimSpace`, `strings.Contains(_, "/")`, `net.ParseCIDR` and
-- `net.ParseIP` are parameters.
module _ (to_lower trim_space : String → String) (has_slash : String → Bool)
    (parse_cidr : String → Option IpNet) (parse_ip : String → Option IpAddr) where
  pub plain_filter : String → ℕ → PacketFilter
  plain_filter protocol port = record {
    protocol = to_lower (trim_space protocol);
    port = port;
    src_port = 0;
    dst_port = 0;
    host = none;
    cidr = none;
  }

  pub with_address : PacketFilter → String → Result FilterError PacketFilter
  with_address f s =
      if has_slash s
      then elim (parse_cidr s) [
        | none ↦ err (invalid_cidr s)
        | some net ↦ ok (record f { cidr = some net })
      ]
      else elim (parse_ip s) [
        | none ↦ err (invalid_ip s)
        | some ip ↦ ok (record f { host = some ip })
      ]

  pub new_packet_filter : String → ℕ → String → Result FilterError PacketFilter
  new_packet_filter protocol port host_or_cidr =
      if str_eq host_or_cidr ""
      then ok (plain_filter protocol port)
      else with_address (plain_filter protocol port) (trim_space host_or_cidr)

pub is_empty : PacketFilter → Bool
is_empty f =
    str_eq f.protocol ""
    && f.port == 0
    && f.src_port == 0
    && f.dst_port == 0
    && not (is_some f.host)
    && not (is_some f.cidr)

-- The switch on the protocol name; an unknown name matches nothing.
pub protocol_ok : String → Packet → Bool
protocol_ok name pkt =
    if str_eq name ""
    then true
    else if str_eq name "tcp"
    then is_some pkt.tcp
    else if str_eq name "udp"
    then is_some pkt.udp
    else if str_eq name "icmp"
    then is_some pkt.icmp
    else if str_eq name "arp"
    then is_some pkt.arp
    else if str_eq name "ip" || str_eq name "ipv4"
    then is_some pkt.ipv4_hdr
    else if str_eq name "ipv6"
    then is_some pkt.ipv6_hdr
    else false

pub port_matched : ℕ → Packet → Bool
port_matched port pkt = elim pkt.tcp [
  | some h ↦ h.src_port == port || h.dst_port == port
  | none ↦ elim pkt.udp [ some h ↦ h.src_port == port || h.dst_port == port | none ↦ false ]
]

pub port_ok : ℕ → Packet → Bool
unfolding port_matched
port_ok port pkt = if port == 0 then true else port_matched port pkt

-- `(tcp && tcp.port != want) || (udp && udp.port != want) || (!tcp && !udp)`
pub one_port_refused : ℕ → (TcpHeader → ℕ) → (UdpHeader → ℕ) → Packet → Bool
one_port_refused want tcp_port udp_port pkt =
    elim pkt.tcp [ some h ↦ not (tcp_port h == want) | none ↦ false ]
    || elim pkt.udp [ some h ↦ not (udp_port h == want) | none ↦ false ]
    || (not (is_some pkt.tcp) && not (is_some pkt.udp))

pub src_port_ok : ℕ → Packet → Bool
unfolding one_port_refused
src_port_ok want pkt =
    if want == 0 then true else not (one_port_refused want (λ h. h.src_port) (λ h. h.src_port) pkt)

pub dst_port_ok : ℕ → Packet → Bool
unfolding one_port_refused
dst_port_ok want pkt =
    if want == 0 then true else not (one_port_refused want (λ h. h.dst_port) (λ h. h.dst_port) pkt)

-- A test on either address of the network layer, IPv4 before IPv6.
pub address_ok : (IpAddr → Bool) → Packet → Bool
address_ok test pkt = elim pkt.ipv4_hdr [
  | some h ↦ test h.src_ip || test h.dst_ip
  | none ↦ elim pkt.ipv6_hdr [ some h ↦ test h.src_ip || test h.dst_ip | none ↦ false ]
]

pub host_ok : Option IpAddr → Packet → Bool
unfolding address_ok
host_ok none pkt = true
host_ok (some host) pkt = address_ok (λ ip. ip_equal ip host) pkt

pub cidr_ok : Option IpNet → Packet → Bool
unfolding address_ok
cidr_ok none pkt = true
cidr_ok (some net) pkt = address_ok (contains net) pkt

pub criteria : PacketFilter → Packet → Bool
criteria f pkt =
    protocol_ok f.protocol pkt
    && port_ok f.port pkt
    && src_port_ok f.src_port pkt
    && dst_port_ok f.dst_port pkt
    && host_ok f.host pkt
    && cidr_ok f.cidr pkt

-- A nil filter and an empty one match everything, a nil packet too.
pub matches : Option PacketFilter → Option Packet → Bool
matches none pkt = true
matches (some f) pkt =
    if is_empty f then true else elim pkt [ none ↦ false | some p ↦ criteria f p ]
