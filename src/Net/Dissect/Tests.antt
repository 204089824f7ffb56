-- ===== src/Net/Dissect/Tests.antt =====
-- Dissections of concrete frames, and the theorems at concrete frames.
use go_core_lab.Common.{
  ◌≡◌, ◌↔◌, ◌≤◌, refl, Bytes, [], ◌∷◌, ◌++◌, length, drop, Result, ok, err, panic, none, index,
  slice, uint,
}
use go_core_lab.Pcap.{Time}
use go_core_lab.Net.Types.{ether_type_ipv4, Packet}
use go_core_lab.Net.Dissect.{
  dissect_with_timestamp, dissect_l3, dissect_ipv4, dissect_l4, dissect_udp, ipv4_header,
  ipv4_total_len, read_ipv4, ethernet_frame, packet_too_short, new_packet, Failure,
}
use go_core_lab.Net.Dissect.Fields.{be}
use go_core_lab.Net.Dissect.Returned.{Returned}
use go_core_lab.Net.Dissect.Safety.{Overrun, dissect-panics_iff}
use go_core_lab.Net.Dissect.Structure.{IsLayered, dissect-IsLayered}
use go_core_lab.Net.Dissect.Network.{frame_of, dissect_lem}
use go_core_lab.Net.Dissect.Payload.{PayloadOf, dissect-PayloadOf}

abbrev noon : Time
noon = record { unix = 1700000000; nsec = 5000 }

abbrev ethernet : Bytes
ethernet = 1 ∷ 2 ∷ 3 ∷ 4 ∷ 5 ∷ 6 ∷ 7 ∷ 8 ∷ 9 ∷ 10 ∷ 11 ∷ 12 ∷ 0x08 ∷ 0x00 ∷ []

-- UDP from 10.0.0.1:53 to 10.0.0.2:8080 with three bytes of payload, and two bytes of padding.
abbrev udp_frame : Bytes
udp_frame =
    ethernet
    ++ (0x45 ∷ 0 ∷ 0 ∷ 31 ∷ 0 ∷ 7 ∷ 0x40 ∷ 0 ∷ 64 ∷ 17 ∷ 0 ∷ 0 ∷ 10 ∷ 0 ∷ 0 ∷ 1 ∷ 10 ∷ 0 ∷ 0 ∷ 2 ∷ 0
        ∷ 53 ∷ 0x1f ∷ 0x90 ∷ 0 ∷ 11 ∷ 0 ∷ 0 ∷ 97 ∷ 98 ∷ 99 ∷ 0 ∷ 0 ∷ [])

-- The same header with a total length of 19.
abbrev overrun_frame : Bytes
overrun_frame =
    ethernet
    ++ (0x45 ∷ 0 ∷ 0 ∷ 19 ∷ 0 ∷ 7 ∷ 0x40 ∷ 0 ∷ 64 ∷ 17 ∷ 0 ∷ 0 ∷ 10 ∷ 0 ∷ 0 ∷ 1 ∷ 10 ∷ 0 ∷ 0 ∷ 2
        ∷ [])

payload_of : Result Failure Packet → Bytes
payload_of (ok pkt) = pkt.payload
payload_of (err e) = []
payload_of panic = []

udp_frame_payload : payload_of (dissect_with_timestamp udp_frame noon) ≡ 97 ∷ 98 ∷ 99 ∷ []
unfolding payload_of dissect_with_timestamp dissect_l3 dissect_ipv4 dissect_l4 dissect_udp
    ipv4_header ipv4_total_len read_ipv4 ethernet_frame new_packet index slice uint
udp_frame_payload = refl

short_frame : dissect_with_timestamp (1 ∷ 2 ∷ []) noon ≡ err (none, packet_too_short 2)
unfolding dissect_with_timestamp
short_frame = refl

dissect-panics_iff_example : (dissect_with_timestamp overrun_frame noon ≡ panic) ↔ (
    (14 ≤ length overrun_frame)
    × (be overrun_frame 12 2 ≡ ether_type_ipv4)
    × Overrun (drop 14 overrun_frame))
dissect-panics_iff_example = dissect-panics_iff overrun_frame noon

dissect-IsLayered_example :
    Returned (IsLayered udp_frame noon) (dissect_with_timestamp udp_frame noon)
dissect-IsLayered_example = dissect-IsLayered udp_frame noon

dissect-PayloadOf_example : Returned (PayloadOf udp_frame) (dissect_with_timestamp udp_frame noon)
dissect-PayloadOf_example = dissect-PayloadOf udp_frame noon

dissect_lem_example : dissect_with_timestamp udp_frame noon ≡ frame_of udp_frame noon
dissect_lem_example = dissect_lem udp_frame noon
