-- ===== src/Net/Dissect/Payload.antt =====
-- internal/net/dissect.go: where the payload of a dissected packet lies in the frame.
use go_core_lab.Common.{
  ℕ, zero, suc, ◌+◌, ◌-◌, ◌*◌, ◌/◌, ◌≤◌, ◌≡◌, refl, sym, ap, ◌∙◌, Bytes, [], ◌∷◌, length, drop,
  take, take-nil, take_past, drop-drop, Bool, true, false, Bool-cases, inl, inr, Option, none, some,
  if◌then◌else◌, ltb, ◌==◌, window, arith,
}
use go_core_lab.Pcap.{Time}
use go_core_lab.Net.Types.{
  Packet, EthernetFrame, Ipv4Header, Ipv6Header, ArpHeader, TcpHeader, UdpHeader, IcmpHeader,
  ip_proto_tcp, ip_proto_udp, ip_proto_icmp,
}
use go_core_lab.Net.Dissect.{dissect_with_timestamp, new_packet}
use go_core_lab.Net.Dissect.Fields.{be, ethernet_at}
use go_core_lab.Net.Dissect.Layers.{l4_of, tcp_of, udp_of, icmp_of, offset_at}
use go_core_lab.Net.Dissect.Network.{ipv6_payload, ipv4_hdr_of, ipv6_hdr_of, header_len, total_len}
use go_core_lab.Net.Dissect.Returned.{Returned, l3-Returned, dissect-Returned}

-- How long the network header is, by the headers that a packet has.
abbrev pub network_len : Option Ipv4Header → Option Ipv6Header → Option ArpHeader → ℕ
network_len (some h) v6 arp = 4 * h.ihl
network_len none (some h) arp = 40
network_len none none (some h) = 28
network_len none none none = 0

abbrev pub transport_len : Option TcpHeader → Option UdpHeader → Option IcmpHeader → ℕ
transport_len (some h) udp icmp = 4 * h.data_offset
transport_len none (some h) icmp = 8
transport_len none none (some h) = 4
transport_len none none none = 0

-- The frame up to where its IP header says that the datagram ends.
abbrev pub datagram : Option Ipv4Header → Option Ipv6Header → Bytes → Bytes
datagram (some h) v6 raw = take (14 + h.total_length) raw
datagram none (some h) raw = take (14 + 40 + h.payload_len) raw
datagram none none raw = raw

-- The payload is what stands behind the headers of the packet, to the end of the datagram.
abbrev pub PayloadOf : Bytes → Packet → Type 0
PayloadOf raw pkt =
    pkt.payload
    ≡ drop
        (14
          + network_len pkt.ipv4_hdr pkt.ipv6_hdr pkt.arp
          + transport_len pkt.tcp pkt.udp pkt.icmp)
        (datagram pkt.ipv4_hdr pkt.ipv6_hdr raw)

drop-take : (m n : ℕ) (xs : Bytes) → drop m (take (m + n) xs) ≡ take n (drop m xs)
drop-take zero n xs = ap (λ k. take k xs) (omega arith)
drop-take (suc m) n [] = ap (drop (suc m)) (take-nil (suc m + n)) ∙ sym (take-nil n)
drop-take (suc m) n (x ∷ xs) =
    let next : suc m + n ≡ suc (m + n) = omega arith in rw next (drop-take m n xs)

offset_whole : (b : Bytes) → 4 * (offset_at b / 4) ≡ offset_at b
offset_whole b = ground arith

-- What the transport layer makes of a packet with its network layer, from the bytes `b`.
record Carries (v4 : Option Ipv4Header) (v6 : Option Ipv6Header) (b : Bytes) (pkt : Packet)
    : Type 0 where
  payload : pkt.payload ≡ drop (transport_len pkt.tcp pkt.udp pkt.icmp) b
  ipv4_kept : pkt.ipv4_hdr ≡ v4
  ipv6_kept : pkt.ipv6_hdr ≡ v6
  no_arp : pkt.arp ≡ none

choose : (P : Packet → Type 0) (p q : Packet) (c : Bool) → P p → P q → P (if c then p else q)
choose P p q true hp hq = hp
choose P p q false hp hq = hq

module _ (raw : Bytes) (ts : Time) (eth : EthernetFrame) (v4 : Option Ipv4Header)
    (v6 : Option Ipv6Header) (b : Bytes) where
  abbrev begun : Packet
  begun = record (new_packet raw ts eth) { ipv4_hdr = v4; ipv6_hdr = v6 }

  abbrev C : Packet → Type 0
  C = Carries v4 v6 b

  all_of_it : C (record begun { payload = b })
  unfolding new_packet
  all_of_it = record { payload = refl; ipv4_kept = refl; ipv6_kept = refl; no_arp = refl }

  tcp_carries : C (tcp_of begun b)
  unfolding tcp_of new_packet
  tcp_carries = choose C _ _ (ltb (length b) 20) all_of_it (record {
    payload = ap (λ n. drop n b) (sym (offset_whole b));
    ipv4_kept = refl;
    ipv6_kept = refl;
    no_arp = refl;
  })

  udp_carries : C (udp_of begun b)
  unfolding udp_of new_packet
  udp_carries =
      choose C _ _ (ltb (length b) 8) all_of_it
        (record { payload = refl; ipv4_kept = refl; ipv6_kept = refl; no_arp = refl })

  icmp_carries : C (icmp_of begun b)
  unfolding icmp_of new_packet
  icmp_carries =
      choose C _ _ (ltb (length b) 4) all_of_it
        (record { payload = refl; ipv4_kept = refl; ipv6_kept = refl; no_arp = refl })

  l4_carries : (proto : ℕ) → C (l4_of begun proto b)
  unfolding l4_of
  l4_carries proto = choose C _ _ (proto == ip_proto_tcp) tcp_carries (
      choose C _ _ (proto == ip_proto_udp) udp_carries
        (choose C _ _ (proto == ip_proto_icmp) icmp_carries all_of_it))

  -- So the payload is where it should be, if the network layer hands on the right bytes.
  Carries-PayloadOf :
      (pkt : Packet)
      → C pkt
      → b ≡ drop (14 + network_len v4 v6 none) (datagram v4 v6 raw)
      → PayloadOf raw pkt
  Carries-PayloadOf pkt c at =
      c.payload
      ∙ rw (c.ipv4_kept, c.ipv6_kept, c.no_arp)
          (ap (drop (transport_len pkt.tcp pkt.udp pkt.icmp)) at
            ∙ drop-drop (transport_len pkt.tcp pkt.udp pkt.icmp) (14 + network_len v4 v6 none)
                (datagram v4 v6 raw))

-- Both network layers hand on the rest of the datagram.
ipv4_hands_on :
    (raw : Bytes) (hl len total : ℕ)
    → hl ≡ len
    → len ≤ total
    → window (drop 14 raw) len (total - len) ≡ drop (14 + hl) (take (14 + total) raw)
ipv4_hands_on raw hl len total same h =
    let cut : 14 + total ≡ 14 + len + (total - len) = omega arith in
    rw (same, cut, drop-take (14 + len) (total - len) raw, drop-drop len 14 raw) refl

ipv6_hands_on :
    (raw : Bytes) (n : ℕ)
    → (if ltb n (length (drop 40 (drop 14 raw)))
        then take n (drop 40 (drop 14 raw))
        else drop 40 (drop 14 raw))
      ≡ drop (14 + 40) (take (14 + 40 + n) raw)
ipv6_hands_on raw n =
    let behind = drop-drop 40 14 raw in
    elim (Bool-cases (ltb n (length (drop 40 (drop 14 raw))))) [
      | inl e ↦ rw (e, drop-take (14 + 40) n raw, behind) refl
      | inr e ↦
          rw (e, drop-take (14 + 40) n raw, ← behind)
            (sym (take_past n (drop 40 (drop 14 raw)) (ground arith)))
    ]

-- The payload of the packet that DissectWithTimestamp returns, with an error or without, is exactly
-- what stands in the frame behind the Ethernet header and the network and transport headers that the
-- packet has, at the lengths that they give themselves, to the end of the datagram that the IP header
-- gives, or of the frame if it ends before that or there is no IP header.
pub dissect-PayloadOf :
    (raw : Bytes) (ts : Time) → Returned (PayloadOf raw) (dissect_with_timestamp raw ts)
unfolding new_packet
dissect-PayloadOf raw ts =
    let eth = ethernet_at raw in
    let b = drop 14 raw in
    dissect-Returned (PayloadOf raw) raw ts (
      l3-Returned (PayloadOf raw) (new_packet raw ts eth) b refl
        (λ inside.
          let l4 = window b (header_len b) (total_len b - header_len b) in
          Carries-PayloadOf raw ts eth (some (ipv4_hdr_of b)) none l4 _
            (l4_carries raw ts eth (some (ipv4_hdr_of b)) none l4 _)
            (ipv4_hands_on raw _ (header_len b) (total_len b) (omega arith) inside))
        (Carries-PayloadOf raw ts eth none (some (ipv6_hdr_of b)) (ipv6_payload b) _
          (l4_carries raw ts eth none (some (ipv6_hdr_of b)) (ipv6_payload b) _)
          (ipv6_hands_on raw (be b 4 2)))
        (λ h. drop-drop 28 14 raw))
