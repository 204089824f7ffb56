-- ===== src/Pcap.antt =====
-- pkg/export/pcap.go: the writer and the reader of libpcap files.
-- `binary.Write` hands each header to the output in one call, and `binary.Read` of a struct takes
-- its bytes in one `io.ReadFull`.
pub mod Header
pub mod RoundTrip
pub mod Written
mod Tests
use go_core_lab.Common.{
  ℕ, ◌+◌, ◌*◌, ◌/◌, ◌%◌, ◌^◌, ◌-◌, Bool, true, false, ◌&&◌, Bytes, List, [], ◌∷◌, ◌++◌, length,
  ByteOrder, little_endian, big_endian, encode, decode, window, Result, ok, err, ◌>>=◌, wrap,
  Reader, IoError, read_uint, read_full, if◌then◌else◌, ◌==◌,
}

-- `time.Time`: seconds since 1970 as the bit pattern of the int64 that `Unix` returns, and the
-- nanoseconds within the second.
pub record Time : Type 0 where
  pub unix : ℕ
  pub nsec : ℕ

-- 1 January of the year 1, the zero value of `time.Time`.
abbrev pub zero_time : Time
zero_time = record { unix = 2 ^ 64 - 62135596800; nsec = 0 }

unfoldable pub is_zero : Time → Bool
is_zero t = t.unix == zero_time.unix && t.nsec == 0

-- `time.Unix(sec, nsec)` carries whole seconds over.
pub time_unix : ℕ → ℕ → Time
time_unix sec nsec = record { unix = sec + nsec / 1000000000; nsec = nsec % 1000000000 }

abbrev pub magic_microseconds : ℕ
magic_microseconds = 0xa1b2c3d4

abbrev pub magic_nanoseconds : ℕ
magic_nanoseconds = 0xa1b23c4d

abbrev pub link_type_ethernet : ℕ
link_type_ethernet = 1

pub record PcapGlobalHeader : Type 0 where
  pub magic_number : ℕ
  pub version_major : ℕ
  pub version_minor : ℕ
  pub this_zone : ℕ
  pub sig_figs : ℕ
  pub snap_len : ℕ
  pub network : ℕ

pub record PcapPacketHeader : Type 0 where
  pub ts_sec : ℕ
  pub ts_usec : ℕ
  pub incl_len : ℕ
  pub orig_len : ℕ

-- The layout of the two headers, which `encoding/binary` takes from their fields.
pub global_header_bytes : ByteOrder → PcapGlobalHeader → Bytes
global_header_bytes o h =
    encode o 4 h.magic_number
    ++ (encode o 2 h.version_major
        ++ (encode o 2 h.version_minor
            ++ (encode o 4 h.this_zone
                ++ (encode o 4 h.sig_figs ++ (encode o 4 h.snap_len ++ encode o 4 h.network)))))

unfoldable pub packet_header_bytes : ByteOrder → PcapPacketHeader → Bytes
packet_header_bytes o h =
    encode o 4 h.ts_sec
    ++ (encode o 4 h.ts_usec ++ (encode o 4 h.incl_len ++ encode o 4 h.orig_len))

pub packet_header_of : ByteOrder → Bytes → PcapPacketHeader
packet_header_of o s = record {
  ts_sec = decode o (window s 0 4);
  ts_usec = decode o (window s 4 4);
  incl_len = decode o (window s 8 4);
  orig_len = decode o (window s 12 4);
}

pub data WriteError (E : Type 0) : Type 0 where
  write_global_header : E → WriteError E
  write_packet_header : E → WriteError E
  write_packet_data : E → WriteError E

abbrev pub default_header : PcapGlobalHeader
default_header = record {
  magic_number = magic_microseconds;
  version_major = 2;
  version_minor = 4;
  this_zone = 0;
  sig_figs = 0;
  snap_len = 65535;
  network = link_type_ethernet;
}

unfoldable pub packet_header : Bytes → Time → PcapPacketHeader
packet_header pkt ts = record {
  ts_sec = ts.unix % 2 ^ 32;
  ts_usec = ts.nsec / 1000 % 2 ^ 32;
  incl_len = length pkt % 2 ^ 32;
  orig_len = length pkt % 2 ^ 32;
}

-- `io.Writer` is an interface: what is written to is a state `W`, and a call of `Write` that fails
-- returns the writer's error.
module _ {W E : Type 0} (write : W → Bytes → Result E W) where
  unfoldable pub new_pcap_writer : W → Result (WriteError E) W
  new_pcap_writer w =
      wrap write_global_header (write w (global_header_bytes little_endian default_header))

  -- `now` is what `time.Now()` answers.
  unfoldable pub write_packet : Time → Bytes → Time → W → Result (WriteError E) W
  write_packet now pkt ts w = do
    let stamp = if is_zero ts then now else ts
    w' ←
        wrap write_packet_header
          (write w (packet_header_bytes little_endian (packet_header pkt stamp)))
    wrap write_packet_data (write w' pkt)

pub data ReadError : Type 0 where
  read_magic : IoError → ReadError
  unrecognized_magic : ℕ → ReadError
  read_field : IoError → ReadError
  read_packet_data : IoError → ReadError

pub record PcapReader : Type 0 where
  pub r : Reader
  pub header : PcapGlobalHeader
  pub is_big_endian : Bool
  pub is_nanosecond : Bool

-- The switch on the magic number: byte order, `isBE`, `isNano`.
pub magic_format : ℕ → Result ReadError (ByteOrder × Bool × Bool)
magic_format magic =
    if magic == magic_microseconds
    then ok (little_endian, false, false)
    else if magic == magic_nanoseconds
    then ok (little_endian, false, true)
    else if magic == 0xd4c3b2a1
    then ok (big_endian, true, false)
    else if magic == 0x4d3cb2a1
    then ok (big_endian, true, true)
    else err (unrecognized_magic magic)

pub read_field_of : ByteOrder → ℕ → Reader → Result ReadError (ℕ × Reader)
read_field_of o n r = wrap read_field (read_uint o n r)

pub new_pcap_reader : Reader → Result ReadError PcapReader
new_pcap_reader r = do
  (magic, r) ← wrap read_magic (read_uint little_endian 4 r)
  (bo, is_be, is_nano) ← magic_format magic
  (version_major, r) ← read_field_of bo 2 r
  (version_minor, r) ← read_field_of bo 2 r
  (this_zone, r) ← read_field_of bo 4 r
  (sig_figs, r) ← read_field_of bo 4 r
  (snap_len, r) ← read_field_of bo 4 r
  (network, r) ← read_field_of bo 4 r
  ok record {
    r = r;
    header = record {
      magic_number = magic;
      version_major = version_major;
      version_minor = version_minor;
      this_zone = this_zone;
      sig_figs = sig_figs;
      snap_len = snap_len;
      network = network;
    };
    is_big_endian = is_be;
    is_nanosecond = is_nano;
  }

pub packet_time : Bool → PcapPacketHeader → Time
packet_time nano h =
    if nano then time_unix h.ts_sec h.ts_usec else time_unix h.ts_sec (h.ts_usec * 1000)

unfoldable pub next_packet : PcapReader → Result ReadError ((Bytes × Time) × PcapReader)
next_packet pr = do
  let bo = if pr.is_big_endian then big_endian else little_endian
  (s, r) ← wrap read_field (read_full 16 pr.r)
  let hdr = packet_header_of bo s
  let ts = packet_time pr.is_nanosecond hdr
  (pkt, r) ← wrap read_packet_data (read_full hdr.incl_len r)
  ok ((pkt, ts), record pr { r = r })
