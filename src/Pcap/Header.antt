-- ===== src/Pcap/Header.antt =====
-- pkg/export/pcap.go, NewPcapReader: which files it accepts, and what it makes of their header.
use go_core_lab.Common.{
  ℕ, ◌^◌, ◌<◌, ◌≡◌, refl, ◌∙◌, Bool, true, false, Bytes, ◌++◌, append_assoc, ByteOrder,
  little_endian, big_endian, encode, decode, ok, Reader, remaining, advance, read_uint_at,
  read_full_at, length-encode, remaining_uint, if◌then◌else◌, arith, read_uint, to_be, from_be,
}
use go_core_lab.Pcap.{
  PcapGlobalHeader, PcapReader, global_header_bytes, magic_microseconds, magic_nanoseconds,
  magic_format, new_pcap_reader, read_field_of,
}

pub record InRange (h : PcapGlobalHeader) : Type 0 where
  pub version_major : h.version_major < 256 ^ 2
  pub version_minor : h.version_minor < 256 ^ 2
  pub this_zone : h.this_zone < 256 ^ 4
  pub sig_figs : h.sig_figs < 256 ^ 4
  pub snap_len : h.snap_len < 256 ^ 4
  pub network : h.network < 256 ^ 4

-- The magic number of a file with microsecond or nanosecond time stamps.
abbrev pub magic_of : Bool → ℕ
magic_of nano = if nano then magic_nanoseconds else magic_microseconds

abbrev pub is_big : ByteOrder → Bool
is_big little_endian = false
is_big big_endian = true

-- The magic number as the reader sees it, which reads it in little endian.
abbrev seen_magic : ByteOrder → Bool → ℕ
seen_magic o nano = decode little_endian (encode o 4 (magic_of nano))

magic_format_lem :
    (o : ByteOrder) (nano : Bool) → magic_format (seen_magic o nano) ≡ ok (o, is_big o, nano)
unfolding magic_format decode encode from_be to_be
magic_format_lem little_endian true = refl
magic_format_lem little_endian false = refl
magic_format_lem big_endian true = refl
magic_format_lem big_endian false = refl

pub record Accepted (o : ByteOrder) (nano : Bool) (h : PcapGlobalHeader) (rest : Bytes)
    (pr : PcapReader) : Type 0 where
  pub version_major : pr.header.version_major ≡ h.version_major
  pub version_minor : pr.header.version_minor ≡ h.version_minor
  pub this_zone : pr.header.this_zone ≡ h.this_zone
  pub sig_figs : pr.header.sig_figs ≡ h.sig_figs
  pub snap_len : pr.header.snap_len ≡ h.snap_len
  pub network : pr.header.network ≡ h.network
  pub is_big_endian : pr.is_big_endian ≡ is_big o
  pub is_nanosecond : pr.is_nanosecond ≡ nano
  pub behind : remaining pr.r ≡ rest

-- The reader in front of a field reads it.
field_at :
    (o : ByteOrder) (n v : ℕ) (rest : Bytes) (r : Reader)
    → remaining r ≡ encode o n v ++ rest
    → v < 256 ^ n
    → read_field_of o n r ≡ ok (v, advance n r)
unfolding read_field_of
field_at o n v rest r at small = rw (read_uint_at o n v rest r at small)

magic_fits : (nano : Bool) → magic_of nano < 256 ^ 4
magic_fits true = omega arith
magic_fits false = omega arith

magic_at :
    (o : ByteOrder) (nano : Bool) (rest : Bytes) (r : Reader)
    → remaining r ≡ encode o 4 (magic_of nano) ++ rest
    → read_uint little_endian 4 r ≡ ok (seen_magic o nano, advance 4 r)
unfolding read_uint
magic_at o nano rest r at =
    rw (read_full_at (encode o 4 (magic_of nano)) rest 4 r (length-encode o 4 (magic_of nano)) at)

module _ (o : ByteOrder) (nano : Bool) (h : PcapGlobalHeader) (rest : Bytes) (r : Reader) where
  abbrev after : PcapReader
  after = record {
    r = advance 4 (advance 4 (advance 4 (advance 4 (advance 2 (advance 2 (advance 4 r))))));
    header = record h { magic_number = seen_magic o nano };
    is_big_endian = is_big o;
    is_nanosecond = nano;
  }

module _ (o : ByteOrder) (nano : Bool) (h : PcapGlobalHeader) (rest : Bytes) (r : Reader)
    (fits : InRange h) (magic : h.magic_number ≡ magic_of nano)
    (at : remaining r ≡ global_header_bytes o h ++ rest) where
  at0 :
      remaining r
      ≡ encode o 4 (magic_of nano)
        ++ (encode o 2 h.version_major
            ++ (encode o 2 h.version_minor
                ++ (encode o 4 h.this_zone
                    ++ (encode o 4 h.sig_figs
                        ++ (encode o 4 h.snap_len ++ (encode o 4 h.network ++ rest))))))
  unfolding global_header_bytes
  at0 = at ∙ rw (← magic) (simp append_assoc)

  abbrev r1 : Reader
  r1 = advance 4 r

  abbrev r2 : Reader
  r2 = advance 2 r1

  abbrev r3 : Reader
  r3 = advance 2 r2

  abbrev r4 : Reader
  r4 = advance 4 r3

  abbrev r5 : Reader
  r5 = advance 4 r4

  abbrev r6 : Reader
  r6 = advance 4 r5

  at1 :
      remaining r1
      ≡ encode o 2 h.version_major
        ++ (encode o 2 h.version_minor
            ++ (encode o 4 h.this_zone
                ++ (encode o 4 h.sig_figs
                    ++ (encode o 4 h.snap_len ++ (encode o 4 h.network ++ rest)))))
  at1 = remaining_uint o 4 (magic_of nano) _ r at0

  at2 :
      remaining r2
      ≡ encode o 2 h.version_minor
        ++ (encode o 4 h.this_zone
            ++ (encode o 4 h.sig_figs ++ (encode o 4 h.snap_len ++ (encode o 4 h.network ++ rest))))
  at2 = remaining_uint o 2 h.version_major _ r1 at1

  at3 :
      remaining r3
      ≡ encode o 4 h.this_zone
        ++ (encode o 4 h.sig_figs ++ (encode o 4 h.snap_len ++ (encode o 4 h.network ++ rest)))
  at3 = remaining_uint o 2 h.version_minor _ r2 at2

  at4 :
      remaining r4
      ≡ encode o 4 h.sig_figs ++ (encode o 4 h.snap_len ++ (encode o 4 h.network ++ rest))
  at4 = remaining_uint o 4 h.this_zone _ r3 at3

  at5 : remaining r5 ≡ encode o 4 h.snap_len ++ (encode o 4 h.network ++ rest)
  at5 = remaining_uint o 4 h.sig_figs _ r4 at4

  at6 : remaining r6 ≡ encode o 4 h.network ++ rest
  at6 = remaining_uint o 4 h.snap_len _ r5 at5

  read_header : new_pcap_reader r ≡ ok (after o nano h rest r)
  unfolding new_pcap_reader
  read_header = rw (
    magic_at o nano _ r at0,
    magic_format_lem o nano,
    field_at o 2 h.version_major _ r1 at1 fits.version_major,
    field_at o 2 h.version_minor _ r2 at2 fits.version_minor,
    field_at o 4 h.this_zone _ r3 at3 fits.this_zone,
    field_at o 4 h.sig_figs _ r4 at4 fits.sig_figs,
    field_at o 4 h.snap_len _ r5 at5 fits.snap_len,
    field_at o 4 h.network _ r6 at6 fits.network,
  )

  -- A reader in front of a global header in either byte order, with the magic number of microseconds
  -- or of nanoseconds and with fields in the range of their integers, is accepted: NewPcapReader finds
  -- the order, the resolution and every other field, and stands behind the header.
  pub new_pcap_reader-accepts :
      (pr : PcapReader) × (new_pcap_reader r ≡ ok pr) × Accepted o nano h rest pr
  new_pcap_reader-accepts = (
    after o nano h rest r,
    read_header,
    record {
      version_major = refl;
      version_minor = refl;
      this_zone = refl;
      sig_figs = refl;
      snap_len = refl;
      network = refl;
      is_big_endian = refl;
      is_nanosecond = refl;
      behind = remaining_uint o 4 h.network rest r6 at6;
    },
  )
