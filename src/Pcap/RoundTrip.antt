-- ===== src/Pcap/RoundTrip.antt =====
-- pkg/export/pcap.go: the records of WritePacket and NextPacket.
use go_core_lab.Common.{
  if◌then◌else◌, ◌+◌, [], eof, unexpected_eof, read_full_short, ◌==◌, ◌*◌, ◌/◌, ◌^◌, ◌<◌, ◌≡◌, refl,
  ◌∙◌, false, Bytes, ◌++◌, append_assoc, ByteOrder, little_endian, encode, Result, ok, err, panic,
  remaining, advance, read_full_at, remaining_at, arith, length, length-encode, length-append,
  decode-encode, window_all, window_here, window_past, window, wrap, >>=-eq-ok,
}
use go_core_lab.Pcap.{
  new_pcap_writer, global_header_bytes, default_header, write_global_header, read_field, Time,
  is_zero, time_unix, PcapPacketHeader, packet_header_bytes, packet_header_of, packet_header,
  write_packet_header, write_packet_data, write_packet, PcapReader, packet_time, next_packet,
}

record InRange (h : PcapPacketHeader) : Type 0 where
  ts_sec : h.ts_sec < 256 ^ 4
  ts_usec : h.ts_usec < 256 ^ 4
  incl_len : h.incl_len < 256 ^ 4
  orig_len : h.orig_len < 256 ^ 4

length-packet_header_bytes :
    (o : ByteOrder) (h : PcapPacketHeader) → length (packet_header_bytes o h) ≡ 16
unfolding packet_header_bytes
length-packet_header_bytes o h = simp (length-append, length-encode)

-- The fields stand in the 16 bytes at 0, 4, 8 and 12.
module _ (o : ByteOrder) (h : PcapPacketHeader) where
  l1 : length (encode o 4 h.ts_sec) ≡ 4
  l1 = length-encode o 4 h.ts_sec

  l2 : length (encode o 4 h.ts_usec) ≡ 4
  l2 = length-encode o 4 h.ts_usec

  l3 : length (encode o 4 h.incl_len) ≡ 4
  l3 = length-encode o 4 h.incl_len

  field_sec : window (packet_header_bytes o h) 0 4 ≡ encode o 4 h.ts_sec
  unfolding packet_header_bytes
  field_sec = window_here (encode o 4 h.ts_sec) _ 4 l1

  field_usec : window (packet_header_bytes o h) 4 4 ≡ encode o 4 h.ts_usec
  unfolding packet_header_bytes
  field_usec =
      window_past (encode o 4 h.ts_sec) _ 4 0 4 l1 ∙ window_here (encode o 4 h.ts_usec) _ 4 l2

  field_incl : window (packet_header_bytes o h) 8 4 ≡ encode o 4 h.incl_len
  unfolding packet_header_bytes
  field_incl =
      window_past (encode o 4 h.ts_sec) _ 4 4 4 l1
      ∙ (window_past (encode o 4 h.ts_usec) _ 4 0 4 l2 ∙ window_here (encode o 4 h.incl_len) _ 4 l3)

  field_orig : window (packet_header_bytes o h) 12 4 ≡ encode o 4 h.orig_len
  unfolding packet_header_bytes
  field_orig =
      window_past (encode o 4 h.ts_sec) _ 4 8 4 l1
      ∙ (window_past (encode o 4 h.ts_usec) _ 4 4 4 l2
          ∙ (window_past (encode o 4 h.incl_len) _ 4 0 4 l3
              ∙ window_all (encode o 4 h.orig_len) 4 (length-encode o 4 h.orig_len)))

  packet_header_of-bytes : InRange h → packet_header_of o (packet_header_bytes o h) ≡ h
  unfolding packet_header_of
  packet_header_of-bytes fits = rw (
    field_sec,
    field_usec,
    field_incl,
    field_orig,
    decode-encode o 4 h.ts_sec fits.ts_sec,
    decode-encode o 4 h.ts_usec fits.ts_usec,
    decode-encode o 4 h.incl_len fits.incl_len,
    decode-encode o 4 h.orig_len fits.orig_len,
  )

packet_header-InRange : (pkt : Bytes) (ts : Time) → InRange (packet_header pkt ts)
unfolding packet_header
packet_header-InRange pkt ts = omega arith

-- One record of the file.
unfoldable pub record_bytes : Bytes → Time → Bytes
record_bytes pkt ts = packet_header_bytes little_endian (packet_header pkt ts) ++ pkt

pub length-record_bytes : (pkt : Bytes) (ts : Time) → length (record_bytes pkt ts) ≡ 16 + length pkt
unfolding record_bytes
length-record_bytes pkt ts =
    length-append (packet_header_bytes little_endian (packet_header pkt ts)) pkt
    ∙ rw (length-packet_header_bytes little_endian (packet_header pkt ts))

-- At the end of the file.
pub next_packet-end :
    (pr : PcapReader) → remaining pr.r ≡ [] → next_packet pr ≡ err (read_field eof)
unfolding next_packet
next_packet-end pr at = rw (read_full_short 16 pr.r short, ended)
  where
    short : length (remaining pr.r) < 16
    short = rw at (omega arith)

    ended : (if length (remaining pr.r) == 0 then eof else unexpected_eof) ≡ eof
    ended = rw at

-- What the file keeps of a time stamp: whole microseconds.
abbrev pub microseconds : Time → Time
microseconds ts = record { unix = ts.unix; nsec = ts.nsec / 1000 * 1000 }

-- The stamps and packets that the 32-bit fields of a record can hold.
pub record Fits (pkt : Bytes) (ts : Time) : Type 0 where
  pub unix : ts.unix < 2 ^ 32
  pub nsec : ts.nsec < 1000000000
  pub size : length pkt < 2 ^ 32

packet_time_lem :
    (pkt : Bytes) (ts : Time)
    → Fits pkt ts
    → packet_time false (packet_header pkt ts) ≡ microseconds ts
unfolding packet_time packet_header time_unix
packet_time_lem pkt ts f = ground arith

incl_len_lem :
    (pkt : Bytes) (ts : Time) → Fits pkt ts → (packet_header pkt ts).incl_len ≡ length pkt
unfolding packet_header
incl_len_lem pkt ts f = omega arith

-- NextPacket on a little-endian microsecond file, in front of a record.
module _ (pkt : Bytes) (ts : Time) (rest : Bytes) (pr : PcapReader) (f : Fits pkt ts)
    (le : pr.is_big_endian ≡ false) (us : pr.is_nanosecond ≡ false)
    (at : remaining pr.r ≡ record_bytes pkt ts ++ rest) where
  hdr : PcapPacketHeader
  hdr = packet_header pkt ts

  at_header : remaining pr.r ≡ packet_header_bytes little_endian hdr ++ (pkt ++ rest)
  unfolding record_bytes hdr
  at_header = at ∙ append_assoc _ pkt rest

  at_packet : remaining (advance 16 pr.r) ≡ pkt ++ rest
  at_packet =
      remaining_at (packet_header_bytes little_endian hdr) (pkt ++ rest) 16 pr.r
        (length-packet_header_bytes little_endian hdr) at_header

  abbrev pub reader_behind : PcapReader
  reader_behind = record pr { r = advance (length pkt) (advance 16 pr.r) }

  -- In front of a record of a little-endian file with microseconds, whose packet and stamp fit its
  -- 32-bit fields, NextPacket returns the packet and the stamp cut to whole microseconds, and the
  -- reader stands behind the record.
  pub next_packet-record : next_packet pr ≡ ok ((pkt, microseconds ts), reader_behind)
  unfolding next_packet hdr
  next_packet-record = rw (
    le,
    us,
    read_full_at (packet_header_bytes little_endian hdr) (pkt ++ rest) 16 pr.r
        (length-packet_header_bytes little_endian hdr) at_header,
    packet_header_of-bytes little_endian hdr (packet_header-InRange pkt ts),
    packet_time_lem pkt ts f,
    incl_len_lem pkt ts f,
    read_full_at pkt rest (length pkt) (advance 16 pr.r) refl at_packet,
  )

  pub remaining-record : remaining (advance (length pkt) (advance 16 pr.r)) ≡ rest
  remaining-record = remaining_at pkt rest (length pkt) (advance 16 pr.r) refl at_packet

-- A writer whose `Write` appends what it was given, whenever it reports success.
module _ {W E : Type 0} (write : W → Bytes → Result E W) (contents : W → Bytes)
    (appends : (w : W) (b : Bytes) (w' : W)
      → write w b ≡ ok w'
      → contents w' ≡ contents w ++ b) where
  wrap_appends :
      {F : Type 0} (f : E → F) (w : W) (b : Bytes) (w' : W)
      → wrap f (write w b) ≡ ok w'
      → contents w' ≡ contents w ++ b
  wrap_appends f w b w' h = appends w b w' (inner (write w b) refl h)
    where
      inner : (m : Result E W) → write w b ≡ m → wrap f m ≡ ok w' → write w b ≡ ok w'
      inner (ok a) e k = cc
      inner (err x) e k = cc
      inner panic e k = cc

  -- What a WritePacket that succeeds has appended; `now` is the stamp if none is given.
  pub write_packet-appends :
      (now : Time) (pkt : Bytes) (ts : Time) (w w' : W)
      → write_packet write now pkt ts w ≡ ok w'
      → contents w' ≡ contents w ++ record_bytes pkt (if is_zero ts then now else ts)
  unfolding write_packet record_bytes
  write_packet-appends now pkt ts w w' h =
      let (w₁, e₁, e₂) = >>=-eq-ok _ _ h in
      wrap_appends write_packet_data w₁ pkt w' e₂
      ∙ (rw (wrap_appends write_packet_header w _ w₁ e₁) (append_assoc (contents w) _ pkt))

  pub new_pcap_writer-appends :
      (w w' : W)
      → new_pcap_writer write w ≡ ok w'
      → contents w' ≡ contents w ++ global_header_bytes little_endian default_header
  unfolding new_pcap_writer
  new_pcap_writer-appends w w' h = wrap_appends write_global_header w _ w' h
