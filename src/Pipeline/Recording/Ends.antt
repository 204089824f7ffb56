-- ===== src/Pipeline/Recording/Ends.antt =====
-- internal/pipeline/sources.go, PcapReplaySource: the loop of the replay ends on every file.
use Prim.Native.String.{String}
use go_core_lab.Common.{
  ℕ, zero, suc, ◌+◌, ◌≤◌, ◌<◌, ◌≡◌, ◌≢◌, inl, inr, refl, ap, ◌∙◌, Bytes, length, length-drop,
  Result, ok, err, panic, ok_inj, if-eq-ok, >>=-eq-ok, wrap-eq-ok, wrap, Reader, remaining,
  read_full, remaining-advance, big_endian, little_endian, if◌then◌else◌, leb, ◌==◌, arith,
}
use go_core_lab.Pcap.{
  Time, PcapReader, ReadError, read_field, read_packet_data, packet_header_of, next_packet,
}
use go_core_lab.Pipeline.Recording.{out_of_fuel, replay, replay_file}

-- A ReadFull that succeeds takes its bytes from those that are left.
read_full-takes :
    (n : ℕ) (r : Reader) (s : Bytes) (r' : Reader)
    → read_full n r ≡ ok (s, r')
    → length (remaining r') + n ≤ length (remaining r)
unfolding read_full
read_full-takes n r s r' h = elim (if-eq-ok (n == 0) _ _ h) [
  | inl (none, e) ↦
      let same = ap (λ p. length (remaining p.1)) (ok_inj e) in
      let z : n ≡ 0 = ground arith in omega (arith, same, z)
  | inr (some_bytes, e) ↦ elim (if-eq-ok (length (remaining r) == 0) _ _ e) [
    | inl (empty, e') ↦ absurd cc
    | inr (more, e') ↦ elim (if-eq-ok (leb n (length (remaining r))) _ _ e') [
      | inr (short, e'') ↦ absurd cc
      | inl (enough, e'') ↦
          let same = ap (λ p. length (remaining p.1)) (ok_inj e'') in
          let left = ap length (remaining-advance n r) ∙ length-drop n (remaining r) in
          let fits : n ≤ length (remaining r) = ground arith in omega (arith, same, left, fits)
    ]
  ]
]

-- So a packet that is read leaves fewer bytes.
next_packet-takes :
    (pr pr' : PcapReader) (p : Bytes × Time)
    → next_packet pr ≡ ok (p, pr')
    → length (remaining pr'.r) < length (remaining pr.r)
unfolding next_packet
next_packet-takes pr pr' p h =
    let ((s, r₁), e₁, h₁) = >>=-eq-ok (wrap read_field (read_full 16 pr.r)) _ h in
    let hdr = packet_header_of (if pr.is_big_endian then big_endian else little_endian) s in
    let ((pkt, r₂), e₂, h₂) = >>=-eq-ok (wrap read_packet_data (read_full hdr.incl_len r₁)) _ h₁ in
    omega (
      arith,
      read_full-takes 16 pr.r s r₁ (wrap-eq-ok read_field (read_full 16 pr.r) e₁),
      read_full-takes hdr.incl_len r₁ pkt r₂
          (wrap-eq-ok read_packet_data (read_full hdr.incl_len r₁) e₂),
      ap (λ q. length (remaining q.1.r)) (ok_inj h₂),
    )

replay-ends :
    (n : ℕ) (path : String) (counter : ℕ) (pr : PcapReader)
    → length (remaining pr.r) < n
    → (replay n path counter pr).1 ≢ out_of_fuel
unfolding replay
replay-ends zero path counter pr h = absurd (omega arith)
replay-ends (suc n) path counter pr h =
    after (λ c pr' h'. replay-ends n path c pr' h') (next_packet pr) refl
  where
    after :
        ((c : ℕ) (pr' : PcapReader)
          → length (remaining pr'.r) < n
          → (replay n path c pr').1 ≢ out_of_fuel)
        → (m : Result ReadError ((Bytes × Time) × PcapReader)) → next_packet pr ≡ m
        → (replay (suc n) path counter pr).1 ≢ out_of_fuel
    after rest (ok ((pkt, ts), pr')) e =
        rw (e, replay) (rest _ pr' (omega (arith, h, next_packet-takes pr pr' (pkt, ts) e)))
    after rest (err x) e = rw (e, replay) (λ k. cc)
    after rest panic e = rw (e, replay) (λ k. cc)

-- On every file, whole or not, the replay ends because NextPacket fails: the fuel always lasts.
pub replay_file-ends : (path : String) (pr : PcapReader) → (replay_file path pr).1 ≢ out_of_fuel
unfolding replay_file
replay_file-ends path pr = replay-ends (length (remaining pr.r) + 1) path 0 pr (omega arith)
