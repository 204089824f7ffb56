-- ===== src/Net/Filter/Criteria.antt =====
-- internal/net/filter.go, Matches: the filter as the conjunction of the rules that are configured.
use Prim.Native.String.{String}
use text.Mathlib.Text.{◌==◌ as str_eq}
use text.Mathlib.TextEquality.{eq_iff}
use go_core_lab.Common.{
  ℕ, Bool, true, false, ◌&&◌, ◌||◌, Option, none, some, is_some, ◌≡◌, ◌≢◌, ◌↔◌, ◌⊎◌, inl, inr, refl,
  sym, subst, arith, if◌then◌else◌, Bool-cases,
}
use go_core_lab.Net.Types.{Packet, IpAddr}
use go_core_lab.Net.Filter.{
  PacketFilter, IpNet, ip_equal, contains, is_empty, protocol_ok, port_matched, port_ok,
  src_port_ok, dst_port_ok, address_ok, host_ok, cidr_ok, criteria, matches,
}

-- The ports of a packet, source first, and its addresses.
abbrev pub ports : Packet → Option (ℕ × ℕ)
ports pkt = elim pkt.tcp [
  | some h ↦ some (h.src_port, h.dst_port)
  | none ↦ elim pkt.udp [ some h ↦ some (h.src_port, h.dst_port) | none ↦ none ]
]

abbrev pub addresses : Packet → Option (IpAddr × IpAddr)
addresses pkt = elim pkt.ipv4_hdr [
  | some h ↦ some (h.src_ip, h.dst_ip)
  | none ↦ elim pkt.ipv6_hdr [ some h ↦ some (h.src_ip, h.dst_ip) | none ↦ none ]
]

abbrev pub Holds {ℓ} : {A : Type ℓ} → (A → Type 0) → Option A → Type 0
Holds P none = ⊥
Holds P (some a) = P a

abbrev pub IfSet {ℓ} : {A : Type ℓ} → (A → Type 0) → Option A → Type 0
IfSet P none = Unit
IfSet P (some a) = P a

-- The layer that a protocol name stands for is there.
abbrev pub HasLayer : String → Packet → Type 0
HasLayer name pkt =
    ((name ≡ "tcp") × (is_some pkt.tcp ≡ true))
    ⊎ (((name ≡ "udp") × (is_some pkt.udp ≡ true))
        ⊎ (((name ≡ "icmp") × (is_some pkt.icmp ≡ true))
            ⊎ (((name ≡ "arp") × (is_some pkt.arp ≡ true))
                ⊎ ((((name ≡ "ip") ⊎ (name ≡ "ipv4")) × (is_some pkt.ipv4_hdr ≡ true))
                    ⊎ ((name ≡ "ipv6") × (is_some pkt.ipv6_hdr ≡ true))))))

pub record Satisfies (f : PacketFilter) (pkt : Packet) : Type 0 where
  pub protocol : f.protocol ≢ "" → HasLayer f.protocol pkt
  pub port : f.port ≢ 0 → Holds (λ p. (p.0 ≡ f.port) ⊎ (p.1 ≡ f.port)) (ports pkt)
  pub src_port : f.src_port ≢ 0 → Holds (λ p. p.0 ≡ f.src_port) (ports pkt)
  pub dst_port : f.dst_port ≢ 0 → Holds (λ p. p.1 ≡ f.dst_port) (ports pkt)
  pub host :
      IfSet
        (λ ip. Holds (λ p. (ip_equal p.0 ip ≡ true) ⊎ (ip_equal p.1 ip ≡ true)) (addresses pkt))
        f.host
  pub cidr :
      IfSet
        (λ net. Holds (λ p. (contains net p.0 ≡ true) ⊎ (contains net p.1 ≡ true)) (addresses pkt))
        f.cidr

-- A ladder of tests that comes out true does so at one of its rungs.
rung : (c x y : Bool) → (if c then x else y) ≡ true → ((c ≡ true) × (x ≡ true)) ⊎ (y ≡ true)
rung true x y h = inl (refl, h)
rung false x y h = inr h

or_true : (a b : Bool) → a || b ≡ true → (a ≡ true) ⊎ (b ≡ true)
or_true a b h = ground arith

module _ (name : String) (pkt : Packet) where
  named : (s : String) → str_eq name s ≡ true → name ≡ s
  named s h = (eq_iff name s).0 h

  layer_of_ok : protocol_ok name pkt ≡ true → name ≢ "" → HasLayer name pkt
  unfolding protocol_ok
  layer_of_ok h ne = elim (rung (str_eq name "") true _ h) [
    | inl (e, x) ↦ absurd (ne (named "" e))
    | inr h ↦ elim (rung (str_eq name "tcp") (is_some pkt.tcp) _ h) [
      | inl (e, x) ↦ inl (named "tcp" e, x)
      | inr h ↦ elim (rung (str_eq name "udp") (is_some pkt.udp) _ h) [
        | inl (e, x) ↦ inr (inl (named "udp" e, x))
        | inr h ↦ elim (rung (str_eq name "icmp") (is_some pkt.icmp) _ h) [
          | inl (e, x) ↦ inr (inr (inl (named "icmp" e, x)))
          | inr h ↦ elim (rung (str_eq name "arp") (is_some pkt.arp) _ h) [
            | inl (e, x) ↦ inr (inr (inr (inl (named "arp" e, x))))
            | inr h ↦
                elim (rung (str_eq name "ip" || str_eq name "ipv4") (is_some pkt.ipv4_hdr) _ h) [
                  | inl (e, x) ↦ inr (
                      inr (
                        inr (
                          inr (
                            inl (
                              elim (or_true _ _ e) [
                                | inl a ↦ inl (named "ip" a)
                                | inr b ↦ inr (named "ipv4" b)
                              ],
                              x,
                            )))))
                  | inr h ↦ elim (rung (str_eq name "ipv6") (is_some pkt.ipv6_hdr) _ h) [
                    | inl (e, x) ↦ inr (inr (inr (inr (inr (named "ipv6" e, x)))))
                    | inr h ↦ cc
                  ]
                ]
          ]
        ]
      ]
    ]
  ]

at_name :
    (s : String) (name : String) (pkt : Packet)
    → name ≡ s
    → protocol_ok s pkt ≡ true
    → protocol_ok name pkt ≡ true
at_name s name pkt e h = subst (λ n. protocol_ok n pkt ≡ true) (sym e) h

ok_of_layer : (name : String) (pkt : Packet) → HasLayer name pkt → protocol_ok name pkt ≡ true
unfolding protocol_ok
ok_of_layer name pkt = elim [
  | inl (e, x) ↦ at_name "tcp" name pkt e x
  | inr (inl (e, x)) ↦ at_name "udp" name pkt e x
  | inr (inr (inl (e, x))) ↦ at_name "icmp" name pkt e x
  | inr (inr (inr (inl (e, x)))) ↦ at_name "arp" name pkt e x
  | inr (inr (inr (inr (inl (inl e, x))))) ↦ at_name "ip" name pkt e x
  | inr (inr (inr (inr (inl (inr e, x))))) ↦ at_name "ipv4" name pkt e x
  | inr (inr (inr (inr (inr (e, x))))) ↦ at_name "ipv6" name pkt e x
]

protocol_ok_iff :
    (name : String) (pkt : Packet) → (protocol_ok name pkt ≡ true) ↔ (name ≢ "" → HasLayer name pkt)
unfolding protocol_ok
protocol_ok_iff name pkt = (
  layer_of_ok name pkt,
  λ f. elim (Bool-cases (str_eq name "")) [
    | inl blank ↦ rw blank
    | inr set ↦ ok_of_layer name pkt (f (λ e. cc (set, (eq_iff name "").1 e)))
  ],
)

port_ok_iff :
    (port : ℕ) (pkt : Packet)
    → (port_ok port pkt ≡ true) ↔ (port ≢ 0 → Holds (λ p. (p.0 ≡ port) ⊎ (p.1 ≡ port)) (ports pkt))
unfolding port_ok port_matched
port_ok_iff port pkt = ground arith

module _ (want : ℕ) (pkt : Packet) (one : is_some pkt.tcp && is_some pkt.udp ≡ false) where
  src_port_ok_iff : (src_port_ok want pkt ≡ true) ↔ (want ≢ 0 → Holds (λ p. p.0 ≡ want) (ports pkt))
  unfolding src_port_ok
  src_port_ok_iff = ground arith

  dst_port_ok_iff : (dst_port_ok want pkt ≡ true) ↔ (want ≢ 0 → Holds (λ p. p.1 ≡ want) (ports pkt))
  unfolding dst_port_ok
  dst_port_ok_iff = ground arith

address_ok_iff :
    (test : IpAddr → Bool) (pkt : Packet)
    → (address_ok test pkt ≡ true)
      ↔ Holds (λ p. (test p.0 ≡ true) ⊎ (test p.1 ≡ true)) (addresses pkt)
unfolding address_ok
address_ok_iff test pkt = ground arith

host_ok_iff :
    (host : Option IpAddr) (pkt : Packet)
    → (host_ok host pkt ≡ true)
      ↔ IfSet
          (λ ip. Holds (λ p. (ip_equal p.0 ip ≡ true) ⊎ (ip_equal p.1 ip ≡ true)) (addresses pkt))
          host
unfolding host_ok
host_ok_iff none pkt = (λ h. tt, λ h. refl)
host_ok_iff (some ip) pkt = address_ok_iff (λ x. ip_equal x ip) pkt

cidr_ok_iff :
    (cidr : Option IpNet) (pkt : Packet)
    → (cidr_ok cidr pkt ≡ true)
      ↔ IfSet
          (λ net.
            Holds (λ p. (contains net p.0 ≡ true) ⊎ (contains net p.1 ≡ true)) (addresses pkt))
          cidr
unfolding cidr_ok
cidr_ok_iff none pkt = (λ h. tt, λ h. refl)
cidr_ok_iff (some net) pkt = address_ok_iff (contains net) pkt

-- An empty filter has no rule that could fail.
criteria_of_empty : (f : PacketFilter) (pkt : Packet) → is_empty f ≡ true → criteria f pkt ≡ true
unfolding is_empty criteria protocol_ok port_ok src_port_ok dst_port_ok host_ok cidr_ok
criteria_of_empty f pkt h = ground arith

all_six :
    (a b c d e g : Bool)
    → (a && b && c && d && e && g ≡ true)
      ↔ ((a ≡ true) × (b ≡ true) × (c ≡ true) × (d ≡ true) × (e ≡ true) × (g ≡ true))
all_six a b c d e g = ground arith

module _ (f : PacketFilter) (pkt : Packet) (one : is_some pkt.tcp && is_some pkt.udp ≡ false) where
  satisfied : criteria f pkt ≡ true → Satisfies f pkt
  unfolding criteria
  satisfied h =
      let (protocol, port, src, dst, host, cidr) = (all_six _ _ _ _ _ _).0 h in
      record {
        protocol = (protocol_ok_iff f.protocol pkt).0 protocol;
        port = (port_ok_iff f.port pkt).0 port;
        src_port = (src_port_ok_iff f.src_port pkt one).0 src;
        dst_port = (dst_port_ok_iff f.dst_port pkt one).0 dst;
        host = (host_ok_iff f.host pkt).0 host;
        cidr = (cidr_ok_iff f.cidr pkt).0 cidr;
      }

  accepted : Satisfies f pkt → criteria f pkt ≡ true
  unfolding criteria
  accepted s = (all_six _ _ _ _ _ _).1 (
    (protocol_ok_iff f.protocol pkt).1 s.protocol,
    (port_ok_iff f.port pkt).1 s.port,
    (src_port_ok_iff f.src_port pkt one).1 s.src_port,
    (dst_port_ok_iff f.dst_port pkt one).1 s.dst_port,
    (host_ok_iff f.host pkt).1 s.host,
    (cidr_ok_iff f.cidr pkt).1 s.cidr,
  )

-- A filter that is not nil matches a packet that has not both a TCP and a UDP header exactly if every
-- rule that is configured holds of it: the layer of the protocol is there, the ports and the
-- addresses are among its own.
pub matches_iff :
    (f : PacketFilter) (pkt : Packet)
    → is_some pkt.tcp && is_some pkt.udp ≡ false
    → (matches (some f) (some pkt) ≡ true) ↔ Satisfies f pkt
unfolding matches
matches_iff f pkt one = elim (Bool-cases (is_empty f)) [
  | inl blank ↦ rw blank (λ h. satisfied f pkt one (criteria_of_empty f pkt blank), λ h. refl)
  | inr set ↦ rw set (satisfied f pkt one, accepted f pkt one)
]
