-- ===== src/Pipeline/Recording/Replay.antt =====
-- internal/pipeline/sources.go, PcapReplaySource: what the replay of a file sends.
use Prim.Native.String.{String}
use go_core_lab.Common.{
  ℕ, zero, suc, ◌+◌, ◌%◌, ◌^◌, ◌<◌, ◌≡◌, ap, false, eof, Bytes, List, [], ◌∷◌, ◌++◌, All, length,
  remaining, arith,
}
use go_core_lab.Pcap.{Time, PcapReader, read_field}
use go_core_lab.Pcap.RoundTrip.{
  record_bytes, microseconds, Fits, next_packet-record, remaining-record, next_packet-end,
}
use go_core_lab.Pipeline.Types.{IngestionEvent}
use go_core_lab.Pipeline.Recording.{ReplayEnd, read_failed, replay_event, replay}

unfoldable pub records_bytes : List (Bytes × Time) → Bytes
records_bytes [] = []
records_bytes ((pkt, ts) ∷ rest) = record_bytes pkt ts ++ records_bytes rest

-- The events that are sent for some packets, with consecutive numbers from behind `counter` on, and
-- the stamps cut to microseconds.
pub replayed : String → ℕ → List (Bytes × Time) → List IngestionEvent
replayed path counter [] = []
replayed path counter ((pkt, ts) ∷ rest) =
    let id = (counter + 1) % 2 ^ 64 in
    replay_event path id pkt (microseconds ts) ∷ replayed path id rest

unfoldable pub FitsRecord : Bytes × Time → Type 0
FitsRecord r = Fits r.0 r.1

-- A reader of a little-endian file with microseconds.
pub record IsPlain (pr : PcapReader) : Type 0 where
  pub little : pr.is_big_endian ≡ false
  pub micro : pr.is_nanosecond ≡ false

-- The loop ends at the end of the file.
abbrev pub at_eof : ReplayEnd
at_eof = read_failed (read_field eof)

pub replay-records :
    (path : String) (packets : List (Bytes × Time)) (n counter : ℕ) (pr : PcapReader)
    → All FitsRecord packets
    → IsPlain pr
    → remaining pr.r ≡ records_bytes packets
    → length packets < n
    → replay n path counter pr ≡ (replayed path counter packets, at_eof)
unfolding replay replayed records_bytes FitsRecord
replay-records path packets zero counter pr fits plain at h = absurd (omega arith)
replay-records path [] (suc n) counter pr fits plain at h = rw (next_packet-end pr at, replay)
replay-records path ((pkt, ts) ∷ rest) (suc n) counter pr fits plain at h =
    let read =
      next_packet-record pkt ts (records_bytes rest) pr fits.0 plain.little plain.micro at in
    rw (read, replay)
      (ap
        (λ sent.
          (replay_event path ((counter + 1) % 2 ^ 64) pkt (microseconds ts) ∷ sent.0, sent.1))
        (replay-records path rest n ((counter + 1) % 2 ^ 64) _ fits.1
          (record { little = plain.little; micro = plain.micro })
          (remaining-record pkt ts (records_bytes rest) pr fits.0 plain.little plain.micro at)
          (omega arith)))
