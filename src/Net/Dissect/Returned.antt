-- ===== src/Net/Dissect/Returned.antt =====
-- internal/net/dissect.go: to show that a property holds of every packet that a dissection returns it
-- is enough to look at the four ways in which a dissector ends.
use go_core_lab.Common.{
  ℕ, Bytes, length, drop, Bool, true, false, not, ◌||◌, none, some, Result, ok, err, panic,
  if◌then◌else◌, ltb, ◌==◌, ◌/◌, ◌-◌, ◌≤◌, byte, window, Bool-cases, inl, inr, arith,
}
use go_core_lab.Pcap.{Time}
use go_core_lab.Net.Types.{Packet, ArpHeader, ether_type_ipv4, ether_type_ipv6, ether_type_arp}
use go_core_lab.Net.Dissect.{dissect_with_timestamp, new_packet, Failure, DissectError}
use go_core_lab.Net.Dissect.Fields.{be, ethernet_at}
use go_core_lab.Net.Dissect.Layers.{l4_of}
use go_core_lab.Net.Dissect.Network.{
  ipv4_of, ipv6_of, arp_of, l3_of, frame_of, dissect_lem, header_len, total_len, ipv6_payload,
  ipv4_hdr_of, ipv6_hdr_of,
}

-- What holds of the packet that a call returns, with or without an error.
unfoldable pub Returned : (Packet → Type 0) → Result Failure Packet → Type 0
Returned P (ok pkt) = P pkt
Returned P (err (some pkt, e)) = P pkt
Returned P (err (none, e)) = Unit
Returned P panic = Unit

Returned-if :
    (P : Packet → Type 0) (c : Bool) (x y : Result Failure Packet)
    → Returned P x
    → Returned P y
    → Returned P (if c then x else y)
Returned-if P true x y hx hy = hx
Returned-if P false x y hx hy = hy

module _ (P : Packet → Type 0) where
  Returned-ok : {pkt : Packet} → P pkt → Returned P (ok pkt)
  unfolding Returned
  Returned-ok h = h

  Returned-err : {pkt : Packet} (e : DissectError) → P pkt → Returned P (err (some pkt, e))
  unfolding Returned
  Returned-err e h = h

  Returned-none : (e : DissectError) → Returned P (err (none, e))
  unfolding Returned
  Returned-none e = tt

  Returned-panic : Returned P panic
  unfolding Returned
  Returned-panic = tt

module _ (P : Packet → Type 0) (start : Packet) (b : Bytes)
    (plain : P (record start { payload = b }))
    (v4 : header_len b ≤ total_len b
      → P (
          l4_of
            (record start { ipv4_hdr = some (ipv4_hdr_of b) })
            (byte b 9)
            (window b (header_len b) (total_len b - header_len b))))
    (v6 : P (l4_of (record start { ipv6_hdr = some (ipv6_hdr_of b) }) (byte b 6) (ipv6_payload b)))
    (arp : (h : ArpHeader) → P (record start { arp = some h; payload = drop 28 b })) where
  ipv4-Returned : Returned P (ipv4_of start b)
  unfolding ipv4_of
  ipv4-Returned = Returned-if P (ltb (length b) 20) _ _ (Returned-err P _ (plain)) (
      Returned-if P (not (byte b 0 / 16 == 4)) _ _ (Returned-err P _ (plain)) (
        Returned-if P (ltb (length b) (header_len b) || ltb (header_len b) 20) _ _
          (Returned-err P _ (plain))
          (elim (Bool-cases (ltb (total_len b) (header_len b))) [
            | inl e ↦ rw e (Returned-panic P)
            | inr e ↦ rw e (Returned-ok P (v4 (ground arith)))
          ])))

  ipv6-Returned : Returned P (ipv6_of start b)
  unfolding ipv6_of
  ipv6-Returned =
      Returned-if P (ltb (length b) 40) _ _ (Returned-err P _ (plain))
        (Returned-if P (not (byte b 0 / 16 == 6)) _ _ (Returned-err P _ (plain)) (Returned-ok P v6))

  arp-Returned : Returned P (arp_of start b)
  unfolding arp_of
  arp-Returned =
      Returned-if P (ltb (length b) 28) _ _ (Returned-err P _ (plain)) (Returned-ok P (arp _))

  pub l3-Returned : (ether_type : ℕ) → Returned P (l3_of start ether_type b)
  unfolding l3_of
  l3-Returned ether_type = Returned-if P (ether_type == ether_type_ipv4) _ _ ipv4-Returned (
      Returned-if P (ether_type == ether_type_ipv6) _ _ ipv6-Returned
        (Returned-if P (ether_type == ether_type_arp) _ _ arp-Returned (Returned-ok P (plain))))

pub dissect-Returned :
    (P : Packet → Type 0) (raw : Bytes) (ts : Time)
    → ((ether_type : ℕ)
        → Returned P (l3_of (new_packet raw ts (ethernet_at raw)) ether_type (drop 14 raw)))
    → Returned P (dissect_with_timestamp raw ts)
unfolding frame_of
dissect-Returned P raw ts l3 =
    rw dissect_lem (Returned-if P (ltb (length raw) 14) _ _ (Returned-none P _) (l3 (be raw 12 2)))
