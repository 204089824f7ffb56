-- ===== src/Pipeline/Stats/Counts.antt =====
-- internal/pipeline/sinks.go, StatsSink: sums of the counters, and the order of the events.
use go_core_lab.Common.{
  ℕ, ◌+◌, ◌%◌, ◌^◌, ◌≡◌, refl, Bool, true, false, not, ◌&&◌, Option, none, some, is_some, ltb,
  arith, List, [], ◌∷◌,
}
use go_core_lab.Net.Types.{Packet}
use go_core_lab.Pipeline.Types.{PipelineEvent}
use go_core_lab.Pipeline.Stats.{
  StatsSink, new_stats_sink, add_uint64, lower_min, raise_max, is_serial, on_stats_event,
  record_drop,
}
use go_core_lab.Pipeline.Stats.Tally.{
  Tally, bump, lower, raise, apply, tally_packet, tally_of, tally, on_stats_event-apply,
}

add_comm : (c d e : ℕ) → add_uint64 (add_uint64 c d) e ≡ add_uint64 (add_uint64 c e) d
add_comm c d e = omega arith

bump_comm : (b b' : Bool) (c d e : ℕ) → bump b (bump b' c e) d ≡ bump b' (bump b c d) e
bump_comm true true c d e = omega arith
bump_comm true false c d e = refl
bump_comm false true c d e = refl
bump_comm false false c d e = refl

lower_comm : (c x y : ℕ) → lower (lower c y) x ≡ lower (lower c x) y
unfolding lower lower_min
lower_comm c x y = ground arith

raise_comm : (c x y : ℕ) → raise (raise c y) x ≡ raise (raise c x) y
unfolding raise raise_max
raise_comm c x y = ground arith

apply_comm : (t u : Tally) (s : StatsSink) → apply t (apply u s) ≡ apply u (apply t s)
unfolding apply
apply_comm t u s = rw (
  add_comm s.total_processed 1 1,
  add_comm s.total_bytes u.size t.size,
  bump_comm t.failed u.failed s.error_events 1 1,
  bump_comm t.ipv4 u.ipv4 s.ipv4_count 1 1,
  bump_comm t.ipv6 u.ipv6 s.ipv6_count 1 1,
  bump_comm t.arp u.arp s.arp_count 1 1,
  bump_comm t.tcp u.tcp s.tcp_count 1 1,
  bump_comm t.udp u.udp s.udp_count 1 1,
  bump_comm t.icmp u.icmp s.icmp_count 1 1,
  bump_comm t.serial u.serial s.serial_count 1 1,
  bump_comm t.other u.other s.other_count 1 1,
  bump_comm (ltb 0 t.lat) (ltb 0 u.lat) s.total_latency_ns t.lat u.lat,
  lower_comm s.min_latency_ns t.lat u.lat,
  raise_comm s.max_latency_ns t.lat u.lat,
  bump_comm (ltb 0 t.lat) (ltb 0 u.lat) s.count_latency 1 1,
)

-- Two events leave the same counters, minimum and maximum in whichever order the workers deliver
-- them, whatever the counters were.
pub on_stats_event_comm :
    (a b : PipelineEvent) (s : StatsSink)
    → on_stats_event a (on_stats_event b s) ≡ on_stats_event b (on_stats_event a s)
on_stats_event_comm a b s = simp on_stats_event-apply (apply_comm (tally a) (tally b) s)

-- The events by what carried them.
pub by_protocol : StatsSink → ℕ
by_protocol s = s.serial_count + s.tcp_count + s.udp_count + s.icmp_count + s.other_count

one_transport :
    (x y z : Bool) (t u i o r : ℕ)
    → (r
          + bump x t 1
          + bump (not x && y) u 1
          + bump (not x && not y && z) i 1
          + bump (not x && not y && not z) o 1)
        % 2 ^ 64
      ≡ (r + t + u + i + o + 1) % 2 ^ 64
one_transport true y z t u i o r = omega arith
one_transport false true z t u i o r = omega arith
one_transport false false true t u i o r = omega arith
one_transport false false false t u i o r = omega arith

one_protocol :
    (t u i o r : ℕ) (size lat : ℕ) (failed serial : Bool) (p : Option Packet)
    → (let y = tally_of size lat failed serial p in
          bump y.serial r 1 + bump y.tcp t 1 + bump y.udp u 1 + bump y.icmp i 1 + bump y.other o 1)
        % 2 ^ 64
      ≡ (r + t + u + i + o + 1) % 2 ^ 64
unfolding tally_of tally_packet
one_protocol t u i o r size lat failed true p = omega arith
one_protocol t u i o r size lat failed false none = omega arith
one_protocol t u i o r size lat failed false (some pkt) =
    one_transport (is_some pkt.tcp) (is_some pkt.udp) (is_some pkt.icmp) t u i o r

by_protocol-apply :
    (event : PipelineEvent) (s : StatsSink)
    → by_protocol (apply (tally event) s) % 2 ^ 64 ≡ (by_protocol s + 1) % 2 ^ 64
unfolding apply by_protocol tally
by_protocol-apply event s =
    one_protocol s.tcp_count s.udp_count s.icmp_count s.other_count s.serial_count _ _ _
      (is_serial event.kind) event.packet

total-apply :
    (t : Tally) (s : StatsSink) → (apply t s).total_processed ≡ (s.total_processed + 1) % 2 ^ 64
unfolding apply
total-apply t s = refl

-- The total is the sum of the counters for serial, TCP, UDP, ICMP and other events, up to
-- wrap-around.
pub Balances : StatsSink → Type 0
Balances s = s.total_processed ≡ by_protocol s % 2 ^ 64

on_stats_event-Balances :
    (event : PipelineEvent) (s : StatsSink) → Balances s → Balances (on_stats_event event s)
unfolding Balances
on_stats_event-Balances event s h =
    rw (on_stats_event-apply event s)
      (omega (arith, by_protocol-apply event s, total-apply (tally event) s, h))

new-Balances : Balances new_stats_sink
unfolding Balances by_protocol
new-Balances = refl

record_drop-Balances : (s : StatsSink) → Balances s → Balances (record_drop s)
unfolding Balances by_protocol record_drop
record_drop-Balances s h = h

-- The counters after some events and drops: `none` is a call of RecordDrop.
pub after_calls : List (Option PipelineEvent) → StatsSink
after_calls [] = new_stats_sink
after_calls (none ∷ calls) = record_drop (after_calls calls)
after_calls (some event ∷ calls) = on_stats_event event (after_calls calls)

-- After any calls of OnEvent and RecordDrop on a new sink, the total number of events is the sum of the
-- serial, TCP, UDP, ICMP and other events, up to wrap-around at 2 ^ 64.
pub after_calls-Balances : (calls : List (Option PipelineEvent)) → Balances (after_calls calls)
unfolding after_calls
after_calls-Balances [] = new-Balances
after_calls-Balances (none ∷ calls) = record_drop-Balances _ (after_calls-Balances calls)
after_calls-Balances (some event ∷ calls) =
    on_stats_event-Balances event _ (after_calls-Balances calls)
