-- ===== src/Pipeline/Stats/Tests.antt =====
-- internal/pipeline/sinks.go, StatsSink: counters after a few events.
use go_core_lab.Common.{◌≡◌, refl, [], ◌∷◌, none, some}
use go_core_lab.Pipeline.Types.{PipelineEvent, zero_event, event_serial}
use go_core_lab.Pipeline.Stats.{
  new_stats_sink, on_stats_event, categorize, count_packet, record_latency, count_error,
  count_event, is_serial, lower_min, raise_max,
}
use go_core_lab.Pipeline.Stats.Counts.{
  after_calls, Balances, on_stats_event_comm, after_calls-Balances,
}

abbrev telemetry : PipelineEvent
telemetry = record zero_event { kind = event_serial; latency = 40; raw = 1 ∷ 2 ∷ 3 ∷ [] }

abbrev slow : PipelineEvent
slow = record zero_event { latency = 900; raw = 4 ∷ [] }

one_of_each :
    on_stats_event slow (on_stats_event telemetry new_stats_sink) ≡ record new_stats_sink {
      total_processed = 2;
      total_bytes = 4;
      serial_count = 1;
      other_count = 1;
      total_latency_ns = 940;
      min_latency_ns = 40;
      max_latency_ns = 900;
      count_latency = 2;
    }
unfolding on_stats_event categorize count_packet record_latency count_error count_event is_serial
    lower_min raise_max
one_of_each = refl

on_stats_event_comm_example :
    on_stats_event slow (on_stats_event telemetry new_stats_sink)
    ≡ on_stats_event telemetry (on_stats_event slow new_stats_sink)
on_stats_event_comm_example = on_stats_event_comm slow telemetry new_stats_sink

after_calls-Balances_example : Balances (after_calls (some slow ∷ none ∷ some telemetry ∷ []))
after_calls-Balances_example = after_calls-Balances (some slow ∷ none ∷ some telemetry ∷ [])
