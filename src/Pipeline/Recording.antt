-- ===== src/Pipeline/Recording.antt =====
-- internal/pipeline: PcapSink of sinks.go, which records network events, and PcapReplaySource of
-- sources.go, which sends them again.
pub mod Replay
pub mod Record
pub mod Ends
mod Tests
use Prim.Native.String.{String}
use go_core_lab.Common.{
  ℕ, zero, suc, ◌+◌, ◌%◌, ◌^◌, Bool, true, false, not, ◌||◌, ◌&&◌, Bytes, List, [], ◌∷◌, length,
  Result, ok, err, panic, ◌>>=◌, if◌then◌else◌, ◌==◌, remaining,
}
use go_core_lab.Pcap.{
  Time, WriteError, new_pcap_writer, write_packet, PcapReader, ReadError, next_packet,
}
use go_core_lab.Pipeline.Types.{
  EventType, event_network, event_serial, event_raw, IngestionEvent, PipelineEvent,
}

pub is_network : EventType → Bool
is_network event_network = true
is_network event_serial = false
is_network event_raw = false

-- The events that the sink writes.
pub is_recorded : PipelineEvent → Bool
unfolding is_network
is_recorded event = is_network event.kind && not (length event.raw == 0)

module _ {W E : Type 0} (write : W → Bytes → Result E W) where
  -- `now` is what `time.Now()` answers.
  pub sink_event : Time → PipelineEvent → W → Result (WriteError E) W
  sink_event now event w =
      if not (is_network event.kind) || length event.raw == 0
      then ok w
      else write_packet write now event.raw event.timestamp w

  pub sink_events : Time → List PipelineEvent → W → Result (WriteError E) W
  sink_events now [] w = ok w
  sink_events now (event ∷ rest) w = sink_event now event w >>= sink_events now rest

  -- NewPcapSink on a file that was created, and the events that it is given.
  pub record_events : Time → List PipelineEvent → W → Result (WriteError E) W
  record_events now events w = new_pcap_writer write w >>= sink_events now events

pub replay_event : String → ℕ → Bytes → Time → IngestionEvent
replay_event path id pkt ts = record {
  id = id;
  kind = event_network;
  timestamp = ts;
  data_bytes = pkt;
  source = path;
  metadata = [];
}

-- How the loop ends: at an error of NextPacket or its panic, or because the fuel does not last, which
-- the code has nothing for.
pub data ReplayEnd : Type 0 where
  read_failed : ReadError → ReplayEnd
  read_panicked out_of_fuel : ReplayEnd

-- The loop of Start on fuel, for a context that is not cancelled and a counter that is not shared: a
-- read that fails ends it. The pauses of a throttled source change nothing of what is sent.
pub replay : ℕ → String → ℕ → PcapReader → List IngestionEvent × ReplayEnd
unfolding replay_event
replay zero path counter pr = ([], out_of_fuel)
replay (suc n) path counter pr = elim (next_packet pr) [
  | ok ((pkt, ts), pr') ↦
      let id = (counter + 1) % 2 ^ 64 in
      let rest = replay n path id pr' in (replay_event path id pkt ts ∷ rest.0, rest.1)
  | err e ↦ ([], read_failed e)
  | panic ↦ ([], read_panicked)
]

-- A packet takes at least one byte of the file, so that the bytes left are fuel enough.
pub replay_file : String → PcapReader → List IngestionEvent × ReplayEnd
unfolding replay
replay_file path pr = replay (length (remaining pr.r) + 1) path 0 pr
