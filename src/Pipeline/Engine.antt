-- ===== src/Pipeline/Engine.antt =====
-- internal/pipeline/engine.go: the engine as a step relation. The goroutines are the dispatcher
-- (ingestionLoop) and the workers (workerLoop); a step is one channel operation, one dissection or one
-- call of a sink, so that every interleaving of the goroutines is a sequence of steps.
pub mod Workers
pub mod Accounts
pub mod Conserve
pub mod Work
pub mod Live
pub mod Progress
mod Tests
use go_core_lab.Common.{
  ℕ, ◌+◌, ◌<◌, ◌≤◌, ◌≡◌, Bool, true, false, not, ◌&&◌, List, [], ◌∷◌, ◌++◌, Option, none, some,
  length, replicate, Result, ok, err, panic, if◌then◌else◌, ltb, leb, ◌==◌,
}
use go_core_lab.Pcap.{Time}
use go_core_lab.Net.Types.{Packet}
use go_core_lab.Net.Dissect.{dissect_with_timestamp, Failure, DissectError}
use go_core_lab.Net.Filter.{PacketFilter, is_empty, matches}
use go_core_lab.Hw.Serial.{Frame}
use go_core_lab.Pipeline.Types.{
  EventType, event_network, event_serial, event_raw, IngestionEvent, PipelineEvent, zero_event,
}
use go_core_lab.Pipeline.RingBuffer.{RingBufferSink, new_ring_buffer_sink, on_event}
use go_core_lab.Pipeline.Stats.{StatsSink, new_stats_sink, on_stats_event, record_drop}

pub record EngineConfig : Type 0 where
  pub num_workers : ℕ
  pub queue_size : ℕ
  pub ring_buffer_size : ℕ
  pub drop_on_backpressure : Bool
  pub filter : Option PacketFilter

-- `num_cpu` is what `runtime.NumCPU()` answers.
pub default_engine_config : ℕ → EngineConfig
default_engine_config num_cpu = record {
  num_workers = if ltb num_cpu 2 then 2 else num_cpu;
  queue_size = 2048;
  ring_buffer_size = 512;
  drop_on_backpressure = false;
  filter = none;
}

-- A number of 0 or less, here 0, is replaced.
pub with_defaults : ℕ → EngineConfig → EngineConfig
with_defaults num_cpu cfg = record cfg {
  num_workers = if cfg.num_workers == 0 then num_cpu else cfg.num_workers;
  queue_size = if cfg.queue_size == 0 then 1024 else cfg.queue_size;
  ring_buffer_size = if cfg.ring_buffer_size == 0 then 256 else cfg.ring_buffer_size;
}

-- Whether a packet that was dissected without error is discarded.
pub is_filtered : Option PacketFilter → Packet → Bool
is_filtered none pkt = false
is_filtered (some f) pkt = not (is_empty f) && not (matches (some f) (some pkt))

pub bare_event : ℕ → ℕ → IngestionEvent → PipelineEvent
bare_event worker_id latency event = record zero_event {
  id = event.id;
  kind = event.kind;
  timestamp = event.timestamp;
  latency = latency;
  raw = event.data_bytes;
  worker_id = worker_id;
}

-- The network case, on what the dissector returned.
pub network_event :
    Option PacketFilter
    → PipelineEvent
    → Result Failure Packet
    → Result (Unit {0}) (Option PipelineEvent)
network_event filter event panic = panic
network_event filter event (err (pkt, e)) =
    ok (some (record event { packet = pkt; error = some e }))
network_event filter event (ok pkt) =
    if is_filtered filter pkt then ok none else ok (some (record event { packet = some pkt }))

pub serial_frame : IngestionEvent → Frame
serial_frame event = record {
  timestamp = event.timestamp;
  seq_num = 0;
  payload = event.data_bytes;
  raw = [];
  valid = true;
}

-- One round of workerLoop up to the broadcast: a filtered packet is `none`, and `latency` is what the
-- clock says about the round.
pub process : EngineConfig → ℕ → ℕ → IngestionEvent → Result (Unit {0}) (Option PipelineEvent)
unfolding is_filtered bare_event network_event serial_frame
process cfg worker_id latency event =
    let bare = bare_event worker_id latency event in
    elim event.kind [
      | event_network ↦
          network_event cfg.filter bare (dissect_with_timestamp event.data_bytes event.timestamp)
      | event_serial ↦ ok (some (record bare { frame = some (serial_frame event) }))
      | event_raw ↦ ok (some bare)
    ]

-- What a worker is at: waiting for an event, holding one, about to call the two sinks of a new
-- engine in turn, or returned.
pub data Worker : Type 0 where
  idle : Worker
  holds : IngestionEvent → Worker
  to_stats : PipelineEvent → Worker
  to_ring : PipelineEvent → Worker
  returned : Worker

-- `source` is what the source has still to send, `queue` the buffered channel `inChan`. The counts
-- `filtered` and `lost` are not kept by the code: of the packets that the filter discarded, and of the
-- events that the dispatcher held when it was cancelled.
pub record Engine : Type 0 where
  pub source : List IngestionEvent
  pub queue : List IngestionEvent
  pub closed : Bool
  pub cancelled : Bool
  pub workers : List Worker
  pub stats : StatsSink
  pub ring : RingBufferSink
  pub filtered : ℕ
  pub lost : ℕ

-- NewPipelineEngine behind `with_defaults`, and Start, for a source that starts.
pub start : EngineConfig → List IngestionEvent → Engine
start cfg source = record {
  source = source;
  queue = [];
  closed = false;
  cancelled = false;
  workers = replicate cfg.num_workers idle;
  stats = new_stats_sink;
  ring = new_ring_buffer_sink cfg.ring_buffer_size;
  filtered = 0;
  lost = 0;
}

-- A worker goes from one state to another, and the others stay where they are.
pub record Turns (e : Engine) (from to : Worker) (workers : List Worker) : Type 0 where
  pub before : List Worker
  pub behind : List Worker
  pub now : e.workers ≡ before ++ (from ∷ behind)
  pub next : workers ≡ before ++ (to ∷ behind)

pub data Step (cfg : EngineConfig) : Engine → Engine → Type 0 where
  -- the dispatcher
  enqueue :
      (e : Engine) (event : IngestionEvent) (rest : List IngestionEvent)
      → e.closed ≡ false
      → e.source ≡ event ∷ rest
      → length e.queue < cfg.queue_size
      → Step cfg e (record e { source = rest; queue = e.queue ++ (event ∷ []) })
  drop_event :
      (e : Engine) (event : IngestionEvent) (rest : List IngestionEvent)
      → e.closed ≡ false
      → e.source ≡ event ∷ rest
      → cfg.drop_on_backpressure ≡ true
      → cfg.queue_size ≤ length e.queue
      → Step cfg e (record e { source = rest; stats = record_drop e.stats })
  abandon :
      (e : Engine) (event : IngestionEvent) (rest : List IngestionEvent)
      → e.closed ≡ false
      → e.source ≡ event ∷ rest
      → cfg.drop_on_backpressure ≡ false
      → e.cancelled ≡ true
      → Step cfg e (record e { source = rest; closed = true; lost = e.lost + 1 })
  close_cancelled :
      (e : Engine) → e.closed ≡ false → e.cancelled ≡ true → Step cfg e (record e { closed = true })
  close_exhausted :
      (e : Engine) → e.closed ≡ false → e.source ≡ [] → Step cfg e (record e { closed = true })
  -- Stop
  cancel : (e : Engine) → Step cfg e (record e { cancelled = true })
  -- the workers
  receive :
      (e : Engine) (event : IngestionEvent) (rest : List IngestionEvent) (workers : List Worker)
      → e.queue ≡ event ∷ rest
      → Turns e idle (holds event) workers
      → Step cfg e (record e { queue = rest; workers = workers })
  discard :
      (e : Engine) (event : IngestionEvent) (worker_id latency : ℕ) (workers : List Worker)
      → process cfg worker_id latency event ≡ ok none
      → Turns e (holds event) idle workers
      → Step cfg e (record e { workers = workers; filtered = e.filtered + 1 })
  dissect :
      (e : Engine) (event : IngestionEvent) (p : PipelineEvent) (worker_id latency : ℕ)
      (workers : List Worker)
      → process cfg worker_id latency event ≡ ok (some p)
      → Turns e (holds event) (to_stats p) workers
      → Step cfg e (record e { workers = workers })
  count :
      (e : Engine) (p : PipelineEvent) (workers : List Worker)
      → Turns e (to_stats p) (to_ring p) workers
      → Step cfg e (record e { workers = workers; stats = on_stats_event p e.stats })
  keep :
      (e : Engine) (p : PipelineEvent) (ring : RingBufferSink) (workers : List Worker)
      → on_event {E = Unit {0}} p e.ring ≡ ok ring
      → Turns e (to_ring p) idle workers
      → Step cfg e (record e { workers = workers; ring = ring })
  return_worker :
      (e : Engine) (workers : List Worker)
      → e.queue ≡ []
      → e.closed ≡ true
      → Turns e idle returned workers
      → Step cfg e (record e { workers = workers })

-- The states that the engine can come to.
pub data Reaches (cfg : EngineConfig) (source : List IngestionEvent) : Engine → Type 0 where
  started : Reaches cfg source (start cfg source)
  stepped : {e e' : Engine} → Reaches cfg source e → Step cfg e e' → Reaches cfg source e'
