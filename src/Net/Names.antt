-- ===== src/Net/Names.antt =====
-- internal/net/types.go: the names that protocols and TCP flags are shown with. `IP(%d)` is data, and
-- what strings.Join puts together is the list of its parts.
use Prim.Native.String.{String}
use go_core_lab.Common.{ℕ, ◌/◌, ◌%◌, List, [], ◌∷◌, ◌++◌, if◌then◌else◌, ◌==◌}
use go_core_lab.Net.Types.{ip_proto_icmp, ip_proto_tcp, ip_proto_udp, TcpHeader}

pub data ProtocolName : Type 0 where
  protocol_text : String → ProtocolName
  ip_number : ℕ → ProtocolName

unfoldable pub ip_protocol_name : ℕ → ProtocolName
ip_protocol_name proto =
    if proto == ip_proto_icmp
    then protocol_text "ICMP"
    else if proto == ip_proto_tcp
    then protocol_text "TCP"
    else if proto == ip_proto_udp
    then protocol_text "UDP"
    else ip_number proto

-- `t.Flags&mask != 0` for the mask 2^k, which is `bit` here.
abbrev flag_name : ℕ → ℕ → String → List String
flag_name flags bit name = if flags / bit % 2 == 1 then name ∷ [] else []

abbrev or_none : List String → List String
or_none [] = "none" ∷ []
or_none (f ∷ fs) = f ∷ fs

unfoldable pub tcp_flags_string : TcpHeader → List String
tcp_flags_string t = or_none (
    flag_name t.flags 0x02 "SYN"
    ++ (flag_name t.flags 0x10 "ACK"
        ++ (flag_name t.flags 0x01 "FIN"
            ++ (flag_name t.flags 0x04 "RST"
                ++ (flag_name t.flags 0x08 "PSH" ++ flag_name t.flags 0x20 "URG")))))
