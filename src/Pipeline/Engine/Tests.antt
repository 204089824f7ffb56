-- ===== src/Pipeline/Engine/Tests.antt =====
-- internal/pipeline/engine.go: an engine with one worker on one serial event.
use go_core_lab.Common.{
  ◌+◌, ◌<◌, ◌⊎◌, All, ◌≡◌, refl, true, false, List, [], ◌∷◌, none, some, arith, ok, set, replicate,
}
use go_core_lab.Pipeline.Types.{IngestionEvent, PipelineEvent, event_serial}
use go_core_lab.Pipeline.RingBuffer.{
  RingBufferSink, new_ring_buffer_sink, capacity_of, on_event, store,
}
use go_core_lab.Pipeline.Stats.{new_stats_sink, on_stats_event}
use go_core_lab.Pipeline.Engine.{
  Step, EngineConfig, Engine, Worker, idle, holds, to_stats, to_ring, returned, start, process,
  bare_event, serial_frame, Turns, enqueue, close_exhausted, receive, dissect, count, keep,
  return_worker, Reaches, started, stepped,
}
use go_core_lab.Pipeline.Engine.Workers.{leaves}
use go_core_lab.Pipeline.Engine.Work.{work_left, is_cancel, Step-decreases}
use go_core_lab.Pipeline.Engine.Live.{Handled}
use go_core_lab.Pipeline.Engine.Progress.{Advance, Steps, Reaches-Advance, Reaches-finishes}
use go_core_lab.Pipeline.Engine.Accounts.{Accounts}
use go_core_lab.Pipeline.Engine.Conserve.{Reaches-Accounts, Reaches-complete}

abbrev cfg : EngineConfig
cfg = record {
  num_workers = 1;
  queue_size = 4;
  ring_buffer_size = 2;
  drop_on_backpressure = false;
  filter = none;
}

abbrev reading : IngestionEvent
reading = record {
  id = 1;
  kind = event_serial;
  timestamp = record { unix = 1700000000; nsec = 0 };
  data_bytes = 50 ∷ 49 ∷ [];
  source = "uart";
  metadata = [];
}

abbrev source : List IngestionEvent
source = reading ∷ []

processed : PipelineEvent
processed = record (bare_event 0 30 reading) { frame = some (serial_frame reading) }

process-reading : process cfg 0 30 reading ≡ ok (some processed)
unfolding process processed
process-reading = refl

ring_after : RingBufferSink
ring_after = record {
  capacity = 2;
  buffer = set (replicate 2 go_core_lab.Pipeline.Types.zero_event) 0 processed;
  head = 1;
  count = 1;
}

ring_lem : on_event {E = Unit {0}} processed (new_ring_buffer_sink 2) ≡ ok ring_after
unfolding on_event store new_ring_buffer_sink capacity_of ring_after
ring_lem = refl

turn : (e : Engine) (from to : Worker) → e.workers ≡ from ∷ [] → Turns e from to (to ∷ [])
turn e from to h = record { before = []; behind = []; now = h; next = refl }

abbrev queued : Engine
queued = record (start cfg source) { source = []; queue = reading ∷ [] }

abbrev final : Engine
final = record queued {
  queue = [];
  closed = true;
  workers = returned ∷ [];
  stats = on_stats_event processed new_stats_sink;
  ring = ring_after;
}

run_to_end : Reaches cfg source final
unfolding start
run_to_end =
    stepped
      (stepped
        (stepped
          (stepped
            (stepped
              (stepped
                (stepped started (enqueue (start cfg source) reading [] refl refl (omega arith)))
                (close_exhausted queued refl refl))
              (receive (record queued { closed = true }) reading [] (holds reading ∷ []) refl
                (turn _ idle (holds reading) refl)))
            (dissect (record queued { closed = true; queue = []; workers = holds reading ∷ [] })
              reading processed 0 30 (to_stats processed ∷ []) process-reading
              (turn _ (holds reading) (to_stats processed) refl)))
          (count (record queued { closed = true; queue = []; workers = to_stats processed ∷ [] })
            processed (to_ring processed ∷ [])
            (turn _ (to_stats processed) (to_ring processed) refl)))
        (keep
          (record queued {
            closed = true;
            queue = [];
            workers = to_ring processed ∷ [];
            stats = on_stats_event processed new_stats_sink;
          })
          processed ring_after (idle ∷ []) ring_lem (turn _ (to_ring processed) idle refl)))
      (return_worker (record final { workers = idle ∷ [] }) (returned ∷ []) refl refl
        (turn _ idle returned refl))

Reaches-Accounts_example : Accounts cfg source final
Reaches-Accounts_example = Reaches-Accounts (omega arith) run_to_end

not_cancelled : final.cancelled ≡ false
unfolding start
not_cancelled = refl

Reaches-complete_example : final.stats.total_processed + final.filtered ≡ 1
Reaches-complete_example =
    Reaches-complete (omega arith) (omega arith) refl run_to_end not_cancelled refl

source_handled : All (Handled cfg) source
unfolding process
source_handled = (
  λ worker_id latency. (
    some (record (bare_event worker_id latency reading) { frame = some (serial_frame reading) }),
    refl,
  ),
  tt,
)

first_step : Step cfg (start cfg source) queued
unfolding start
first_step = enqueue (start cfg source) reading [] refl refl (omega arith)

Step-decreases_example :
    (work_left queued < work_left (start cfg source))
    ⊎ ((is_cancel first_step ≡ true)
        × ((start cfg source).cancelled ≡ true)
        × (queued ≡ start cfg source))
Step-decreases_example = Step-decreases first_step

Reaches-Advance_example : (leaves (start cfg source).workers ≡ 1) ⊎ Advance cfg (start cfg source)
Reaches-Advance_example =
    Reaches-Advance cfg source (omega arith) (omega arith) source_handled (start cfg source) started

Reaches-finishes_example :
    (end : Engine) × Steps cfg (start cfg source) end
    × (leaves end.workers ≡ 1)
    × (end.cancelled ≡ (start cfg source).cancelled)
Reaches-finishes_example =
    Reaches-finishes cfg source (omega arith) (omega arith) source_handled (start cfg source)
      started
