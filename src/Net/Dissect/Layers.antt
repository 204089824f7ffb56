-- ===== src/Net/Dissect/Layers.antt =====
-- internal/net/dissect.go: what each dissector returns on every input, as functions that do not fail
-- and read nothing out of range.
use go_core_lab.Common.{
  ℕ, ◌*◌, ◌/◌, ◌%◌, ◌≤◌, ◌≡◌, Bytes, some, length, drop, ok, if◌then◌else◌, ltb, ◌==◌, ◌||◌, byte,
  index_lem, uint_lem, big_endian, slice_from, arith, le→leb, Bool-cases, inl, inr,
}
use go_core_lab.Net.Types.{Packet, ip_proto_tcp, ip_proto_udp, ip_proto_icmp}
use go_core_lab.Net.Dissect.{
  tcp_data_offset, tcp_payload, dissect_tcp, dissect_udp, dissect_icmp, dissect_l4,
}
use go_core_lab.Net.Dissect.Fields.{tcp_at, udp_at, icmp_at, tcp_header_lem}

abbrev pub raw_offset : Bytes → ℕ
raw_offset b = byte b 12 / 16 * 4 % 256

abbrev pub offset_at : Bytes → ℕ
offset_at b = if ltb (length b) (raw_offset b) || ltb (raw_offset b) 20 then 20 else raw_offset b

-- The corrected data offset stays inside a segment of 20 bytes or more.
pub offset_at_bounds : (b : Bytes) → 20 ≤ length b → (20 ≤ offset_at b) × (offset_at b ≤ length b)
offset_at_bounds b h = ground arith

unfoldable pub tcp_of : Packet → Bytes → Packet
tcp_of pkt b =
    if ltb (length b) 20
    then record pkt { payload = b }
    else record pkt { tcp = some (tcp_at (offset_at b) b); payload = drop (offset_at b) b }

unfoldable pub udp_of : Packet → Bytes → Packet
udp_of pkt b =
    if ltb (length b) 8
    then record pkt { payload = b }
    else record pkt { udp = some (udp_at b); payload = drop 8 b }

unfoldable pub icmp_of : Packet → Bytes → Packet
icmp_of pkt b =
    if ltb (length b) 4
    then record pkt { payload = b }
    else record pkt { icmp = some (icmp_at b); payload = drop 4 b }

unfoldable pub l4_of : Packet → ℕ → Bytes → Packet
l4_of pkt proto b =
    if proto == ip_proto_tcp
    then tcp_of pkt b
    else if proto == ip_proto_udp
    then udp_of pkt b
    else if proto == ip_proto_icmp
    then icmp_of pkt b
    else record pkt { payload = b }

module _ (pkt : Packet) (b : Bytes) where
  tcp_data_offset_lem : 20 ≤ length b → tcp_data_offset b ≡ ok (offset_at b)
  unfolding tcp_data_offset
  tcp_data_offset_lem h = rw (index_lem b 12 (omega arith))

  tcp_payload_lem :
      (off : ℕ) → off ≤ length b → tcp_payload pkt off b ≡ ok (record pkt { payload = drop off b })
  unfolding tcp_payload
  tcp_payload_lem off h = rw (le→leb off (length b) h, slice_from b off h)

module _ (pkt : Packet) (b : Bytes) where
  dissect_tcp_lem : dissect_tcp pkt b ≡ ok (tcp_of pkt b)
  unfolding dissect_tcp tcp_of
  dissect_tcp_lem = elim (Bool-cases (ltb (length b) 20)) [
    | inl short ↦ rw short
    | inr long ↦
        let h : 20 ≤ length b = ground arith in
        rw (
          long,
          tcp_data_offset_lem pkt b h,
          tcp_header_lem b (offset_at b) h,
          tcp_payload_lem (record pkt { tcp = some (tcp_at (offset_at b) b) }) b (offset_at b)
              (offset_at_bounds b h).1,
        )
  ]

  dissect_udp_lem : dissect_udp pkt b ≡ ok (udp_of pkt b)
  unfolding dissect_udp udp_of
  dissect_udp_lem = elim (Bool-cases (ltb (length b) 8)) [
    | inl short ↦ rw short
    | inr long ↦
        let h : 8 ≤ length b = ground arith in
        rw (
          long,
          uint_lem big_endian 2 b 0 (omega arith),
          uint_lem big_endian 2 b 2 (omega arith),
          uint_lem big_endian 2 b 4 (omega arith),
          uint_lem big_endian 2 b 6 (omega arith),
          slice_from b 8 h,
        )
  ]

  dissect_icmp_lem : dissect_icmp pkt b ≡ ok (icmp_of pkt b)
  unfolding dissect_icmp icmp_of
  dissect_icmp_lem = elim (Bool-cases (ltb (length b) 4)) [
    | inl short ↦ rw short
    | inr long ↦
        let h : 4 ≤ length b = ground arith in
        rw (
          long,
          index_lem b 0 (omega arith),
          index_lem b 1 (omega arith),
          uint_lem big_endian 2 b 2 (omega arith),
          slice_from b 4 h,
        )
  ]

  -- The transport layer is dissected on every input: no error, no panic.
  pub dissect_l4_lem : (proto : ℕ) → dissect_l4 pkt proto b ≡ ok (l4_of pkt proto b)
  unfolding dissect_l4 l4_of
  dissect_l4_lem proto = rw (dissect_tcp_lem, dissect_udp_lem, dissect_icmp_lem) (ground arith)
