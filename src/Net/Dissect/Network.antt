-- ===== src/Net/Dissect/Network.antt =====
-- internal/net/dissect.go: the network layer and the whole frame, as one table of outcomes each.
use go_core_lab.Common.{
  ℕ, ◌-◌, ◌*◌, ◌/◌, ◌%◌, ◌^◌, ◌≤◌, ◌≡◌, Bytes, none, some, not, length, drop, Result, ok, err,
  panic, ◌>>=◌, if◌then◌else◌, ltb, ◌==◌, ◌||◌, window, byte, index_lem, uint_lem, big_endian,
  slice_lem, slice_from, slice_panics, arith, Bool-cases, inl, inr, ltb→lt, slice, slice_to, take,
}
use go_core_lab.Pcap.{Time}
use go_core_lab.Net.Types.{
  Packet, ether_type_ipv4, ether_type_ipv6, ether_type_arp, Ipv4Header, Ipv6Header,
}
use go_core_lab.Net.Dissect.{
  ipv4_total_len, dissect_ipv4, dissect_ipv6, dissect_arp, dissect_l3, dissect_l4, new_packet,
  dissect_with_timestamp, Failure, truncated_ipv4, invalid_ipv4_version, invalid_ipv4_header_length,
  truncated_ipv6, invalid_ipv6_version, truncated_arp, packet_too_short,
}
use go_core_lab.Net.Dissect.Fields.{
  be, ipv4_header_at, ipv6_header_at, arp_at, ethernet_at, ipv4_header_lem, ipv6_header_lem,
  arp_header_lem, ethernet_frame_lem,
}
use go_core_lab.Net.Dissect.Layers.{l4_of, dissect_l4_lem}

-- The header length in bytes, and the total length cut to the bytes that are there.
abbrev pub header_len : Bytes → ℕ
header_len b = byte b 0 % 16 * 4

unfoldable pub total_len : Bytes → ℕ
total_len b = if ltb (length b) (be b 2 2) then length b % 2 ^ 16 else be b 2 2

pub total_len-le : (b : Bytes) → total_len b ≤ length b
unfolding total_len
total_len-le b = ground arith

abbrev pub ipv4_hdr_of : Bytes → Ipv4Header
ipv4_hdr_of b = ipv4_header_at (byte b 0 / 16) (byte b 0 % 16) (total_len b) b

abbrev pub ipv6_hdr_of : Bytes → Ipv6Header
ipv6_hdr_of b = ipv6_header_at (byte b 0 / 16) b

unfoldable pub ipv4_of : Packet → Bytes → Result Failure Packet
ipv4_of pkt b =
    if ltb (length b) 20
    then err (some (record pkt { payload = b }), truncated_ipv4 (length b))
    else if not (byte b 0 / 16 == 4)
    then err (some (record pkt { payload = b }), invalid_ipv4_version (byte b 0 / 16))
    else if ltb (length b) (header_len b) || ltb (header_len b) 20
    then err (some (record pkt { payload = b }), invalid_ipv4_header_length (header_len b))
    else if ltb (total_len b) (header_len b)
    then panic
    else ok (
        l4_of (record pkt { ipv4_hdr = some (ipv4_hdr_of b) }) (byte b 9)
          (window b (header_len b) (total_len b - header_len b)))

-- The bytes behind the fixed IPv6 header, cut to the payload length.
abbrev pub ipv6_payload : Bytes → Bytes
ipv6_payload b =
    if ltb (be b 4 2) (length (drop 40 b)) then take (be b 4 2) (drop 40 b) else drop 40 b

unfoldable pub ipv6_of : Packet → Bytes → Result Failure Packet
ipv6_of pkt b =
    if ltb (length b) 40
    then err (some (record pkt { payload = b }), truncated_ipv6 (length b))
    else if not (byte b 0 / 16 == 6)
    then err (some (record pkt { payload = b }), invalid_ipv6_version (byte b 0 / 16))
    else ok (l4_of (record pkt { ipv6_hdr = some (ipv6_hdr_of b) }) (byte b 6) (ipv6_payload b))

unfoldable pub arp_of : Packet → Bytes → Result Failure Packet
arp_of pkt b =
    if ltb (length b) 28
    then err (some (record pkt { payload = b }), truncated_arp (length b))
    else ok (record pkt { arp = some (arp_at b); payload = drop 28 b })

unfoldable pub l3_of : Packet → ℕ → Bytes → Result Failure Packet
l3_of pkt ether_type b =
    if ether_type == ether_type_ipv4
    then ipv4_of pkt b
    else if ether_type == ether_type_ipv6
    then ipv6_of pkt b
    else if ether_type == ether_type_arp
    then arp_of pkt b
    else ok (record pkt { payload = b })

unfoldable pub frame_of : Bytes → Time → Result Failure Packet
frame_of raw ts =
    if ltb (length raw) 14
    then err (none, packet_too_short (length raw))
    else l3_of (new_packet raw ts (ethernet_at raw)) (be raw 12 2) (drop 14 raw)

module _ (pkt : Packet) (b : Bytes) where
  ipv4_total_len_lem : 20 ≤ length b → ipv4_total_len b ≡ ok (total_len b)
  unfolding ipv4_total_len total_len
  ipv4_total_len_lem h = rw (uint_lem big_endian 2 b 2 (omega arith))

  -- `b[lo:hi]` panics when the cut total length ends inside the header.
  l4_slice :
      (lo hi proto : ℕ)
      → hi ≤ length b
      → (slice b lo hi >>= λ l4. dissect_l4 pkt proto l4)
        ≡ (if ltb hi lo then panic else ok (l4_of pkt proto (window b lo (hi - lo))))
  l4_slice lo hi proto h = elim (Bool-cases (ltb hi lo)) [
    | inl below ↦ rw (below, slice_panics b lo hi (ltb→lt hi lo below))
    | inr above ↦
        rw (above, slice_lem b lo hi (ground arith) h)
          (dissect_l4_lem pkt (window b lo (hi - lo)) proto)
  ]

module _ (pkt : Packet) (b : Bytes) where
  dissect_ipv4_lem : dissect_ipv4 pkt b ≡ ipv4_of pkt b
  unfolding dissect_ipv4 ipv4_of
  dissect_ipv4_lem = elim (Bool-cases (ltb (length b) 20)) [
    | inl short ↦ rw short
    | inr long ↦
        let h : 20 ≤ length b = ground arith in
        rw (long, index_lem b 0 (omega arith))
          (elim (Bool-cases (byte b 0 / 16 == 4)) [
            | inr other ↦ rw other
            | inl four ↦
                rw four
                  (elim (Bool-cases (ltb (length b) (header_len b) || ltb (header_len b) 20)) [
                    | inl bad ↦ rw bad
                    | inr good ↦
                        rw
                          (
                            good,
                            ipv4_total_len_lem pkt b h,
                            ipv4_header_lem b (byte b 0 / 16) (byte b 0 % 16) (total_len b) h,
                          )
                          (l4_slice (record pkt { ipv4_hdr = some (ipv4_hdr_of b) }) b
                            (header_len b) (total_len b) (byte b 9) (total_len-le b))
                  ])
          ])
  ]

  dissect_ipv6_lem : dissect_ipv6 pkt b ≡ ipv6_of pkt b
  unfolding dissect_ipv6 ipv6_of
  dissect_ipv6_lem = elim (Bool-cases (ltb (length b) 40)) [
    | inl short ↦ rw short
    | inr long ↦
        let h : 40 ≤ length b = ground arith in
        rw (long, index_lem b 0 (omega arith))
          (elim (Bool-cases (byte b 0 / 16 == 6)) [
            | inr other ↦ rw other
            | inl six ↦
                rw (six, ipv6_header_lem b (byte b 0 / 16) h, slice_from b 40 h)
                  (elim (Bool-cases (ltb (be b 4 2) (length (drop 40 b)))) [
                    | inl cut ↦
                        rw (cut, slice_to (drop 40 b) (be b 4 2) (ground arith))
                          (dissect_l4_lem (record pkt { ipv6_hdr = some (ipv6_hdr_of b) }) _
                            (byte b 6))
                    | inr whole ↦ rw whole (
                        dissect_l4_lem (record pkt { ipv6_hdr = some (ipv6_hdr_of b) }) _
                          (byte b 6))
                  ])
          ])
  ]

  dissect_arp_lem : dissect_arp pkt b ≡ arp_of pkt b
  unfolding dissect_arp arp_of
  dissect_arp_lem = elim (Bool-cases (ltb (length b) 28)) [
    | inl short ↦ rw short
    | inr long ↦
        let h : 28 ≤ length b = ground arith in rw (long, arp_header_lem b h, slice_from b 28 h)
  ]

  dissect_l3_lem : (ether_type : ℕ) → dissect_l3 pkt ether_type b ≡ l3_of pkt ether_type b
  unfolding dissect_l3 l3_of
  dissect_l3_lem ether_type = rw (dissect_ipv4_lem, dissect_ipv6_lem, dissect_arp_lem)

-- On every frame, long or short, DissectWithTimestamp returns what the description without bounds
-- checks says: each field at its offset, each error, the payload and the one panic.
pub dissect_lem : (raw : Bytes) (ts : Time) → dissect_with_timestamp raw ts ≡ frame_of raw ts
unfolding dissect_with_timestamp frame_of
dissect_lem raw ts = elim (Bool-cases (ltb (length raw) 14)) [
  | inl short ↦ rw short
  | inr long ↦
      let h : 14 ≤ length raw = ground arith in
      rw (long, ethernet_frame_lem raw h, slice_from raw 14 h)
        (dissect_l3_lem (new_packet raw ts (ethernet_at raw)) (drop 14 raw) (be raw 12 2))
]
