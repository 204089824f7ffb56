-- ===== src/Pcap/Written.antt =====
-- pkg/export/pcap.go, WritePacket: the record in the format of libpcap that it leaves in the output.
use go_core_lab.Common.{
  ◌/◌, ◌%◌, ◌^◌, ◌≡◌, refl, encode, ap, ◌∙◌, Bytes, [], ◌∷◌, ◌++◌, append-nil, length,
  little_endian, encode_layout, Result, ok, if◌then◌else◌, arith,
}
use go_core_lab.Pcap.{Time, is_zero, packet_header, packet_header_bytes, write_packet}
use go_core_lab.Pcap.RoundTrip.{Fits, record_bytes, write_packet-appends}

-- A record as libpcap documents it: four little-endian words of 32 bits with the seconds, the
-- microseconds, the bytes that are kept and the bytes that the packet had, and then the packet.
abbrev pub libpcap_record : Time → Bytes → Bytes
libpcap_record stamp pkt =
    encode_layout little_endian
      ((4, stamp.unix) ∷ (4, stamp.nsec / 1000) ∷ (4, length pkt) ∷ (4, length pkt) ∷ [])
    ++ pkt

record_bytes-libpcap_record :
    (pkt : Bytes) (stamp : Time)
    → Fits pkt stamp
    → record_bytes pkt stamp ≡ libpcap_record stamp pkt
unfolding record_bytes packet_header_bytes packet_header encode_layout
record_bytes-libpcap_record pkt stamp fits =
    let sec : stamp.unix % 2 ^ 32 ≡ stamp.unix = omega (arith, fits.unix) in
    let usec : stamp.nsec / 1000 % 2 ^ 32 ≡ stamp.nsec / 1000 = omega (arith, fits.nsec) in
    let len : length pkt % 2 ^ 32 ≡ length pkt = omega (arith, fits.size) in
    rw (sec, usec, len, append-nil (encode little_endian 4 (length pkt))) refl

-- Over an output whose `Write` appends what it was given whenever it succeeds, a WritePacket that
-- succeeds has appended the packet's record in the format of libpcap, with the current time if the
-- stamp is the zero time, for a packet and a stamp that fit the 32-bit fields of a record.
pub write_packet-writes :
    {W E : Type 0} (write : W → Bytes → Result E W) (contents : W → Bytes)
    → ((w : W) (b : Bytes) (w' : W) → write w b ≡ ok w' → contents w' ≡ contents w ++ b)
    → (now : Time) (pkt : Bytes) (ts : Time) (w w' : W) → Fits pkt (if is_zero ts then now else ts)
    → write_packet write now pkt ts w ≡ ok w'
    → contents w' ≡ contents w ++ libpcap_record (if is_zero ts then now else ts) pkt
write_packet-writes write contents appends now pkt ts w w' fits h =
    write_packet-appends write contents appends now pkt ts w w' h
    ∙ ap (λ r. contents w ++ r)
        (record_bytes-libpcap_record pkt (if is_zero ts then now else ts) fits)
