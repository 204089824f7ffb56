-- ===== src/Pcap/Tests.antt =====
-- pkg/export/pcap.go: the writer and the reader on concrete files.
use go_core_lab.Common.{
  ℕ, ◌≡◌, refl, true, false, Bytes, [], ◌∷◌, ◌++◌, append-nil, sym, Result, ok, big_endian,
  new_reader, arith, encode, encode_layout, to_le,
}
use go_core_lab.Pcap.{
  Time, PcapReader, PcapGlobalHeader, default_header, global_header_bytes, new_pcap_reader,
  next_packet, write_packet, magic_nanoseconds, is_zero, packet_header, packet_header_bytes,
}
use go_core_lab.Pcap.Header.{Accepted, InRange, new_pcap_reader-accepts}
use go_core_lab.Pcap.Written.{libpcap_record, write_packet-writes}
use go_core_lab.Pcap.RoundTrip.{record_bytes, microseconds, Fits, next_packet-record}

abbrev noon : Time
noon = record { unix = 1700000000; nsec = 1234567 }

abbrev ping : Bytes
ping = 8 ∷ 0 ∷ 247 ∷ 255 ∷ []

-- A file of another machine: big endian, with nanoseconds.
abbrev foreign_header : PcapGlobalHeader
foreign_header = record default_header { magic_number = magic_nanoseconds; snap_len = 262144 }

abbrev foreign_file : Bytes
foreign_file = global_header_bytes big_endian foreign_header ++ ping

abbrev foreign_header-InRange : InRange foreign_header
foreign_header-InRange = record {
  version_major = omega arith;
  version_minor = omega arith;
  this_zone = omega arith;
  sig_figs = omega arith;
  snap_len = omega arith;
  network = omega arith;
}

new_pcap_reader-accepts_example :
    (pr : PcapReader) × (new_pcap_reader (new_reader foreign_file) ≡ ok pr)
    × Accepted big_endian true foreign_header ping pr
new_pcap_reader-accepts_example =
    new_pcap_reader-accepts big_endian true foreign_header ping (new_reader foreign_file)
      foreign_header-InRange refl refl

abbrev ping_reader : PcapReader
ping_reader = record {
  r = new_reader (record_bytes ping noon);
  header = default_header;
  is_big_endian = false;
  is_nanosecond = false;
}

abbrev ping-Fits : Fits ping noon
ping-Fits = record { unix = omega arith; nsec = omega arith; size = omega arith }

next_packet-record_example :
    next_packet ping_reader
    ≡ ok (
      (ping, microseconds noon),
      record ping_reader { r = record { bytes = record_bytes ping noon; pos = 20 } },
    )
next_packet-record_example =
    next_packet-record ping noon [] ping_reader ping-Fits refl refl
      (sym (append-nil (record_bytes ping noon)))

-- Nothing is left behind a stamp cut to microseconds.
microseconds-noon : microseconds noon ≡ record { unix = 1700000000; nsec = 1234000 }
microseconds-noon = refl

-- A disk of unlimited size.
write_bytes : Bytes → Bytes → Result ℕ Bytes
write_bytes w b = ok (w ++ b)

write_bytes-appends : (w b w' : Bytes) → write_bytes w b ≡ ok w' → w' ≡ w ++ b
unfolding write_bytes
write_bytes-appends w b w' h = cc

write_ping :
    write_packet write_bytes noon ping noon (7 ∷ []) ≡ ok ((7 ∷ []) ++ record_bytes ping noon)
unfolding write_packet write_bytes is_zero record_bytes packet_header_bytes packet_header encode
    to_le
write_ping = refl

abbrev ping_record : Bytes
ping_record = 0 ∷ 0xf1 ∷ 0x53 ∷ 0x65 ∷ 0xd2 ∷ 4 ∷ 0 ∷ 0 ∷ 4 ∷ 0 ∷ 0 ∷ 0 ∷ 4 ∷ 0 ∷ 0 ∷ 0 ∷ ping

ping_written : libpcap_record noon ping ≡ ping_record
unfolding encode_layout encode to_le
ping_written = refl

write_packet-writes_example :
    (7 ∷ []) ++ record_bytes ping noon ≡ (7 ∷ []) ++ libpcap_record noon ping
unfolding is_zero
write_packet-writes_example =
    write_packet-writes write_bytes (λ w. w) write_bytes-appends noon ping noon (7 ∷ [])
      ((7 ∷ []) ++ record_bytes ping noon) ping-Fits write_ping
