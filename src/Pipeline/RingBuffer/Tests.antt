-- ===== src/Pipeline/RingBuffer/Tests.antt =====
-- internal/pipeline/sinks.go, RingBufferSink: a ring of two on three events.
use go_core_lab.Common.{ℕ, ◌≡◌, refl, List, [], ◌∷◌, Result, ok, panic, ◌>>=◌, min}
use go_core_lab.Pipeline.Types.{PipelineEvent, zero_event}
use go_core_lab.Pipeline.RingBuffer.{
  capacity_of, new_ring_buffer_sink, store, fetch, on_event, on_events, collect, last,
}
use go_core_lab.Pipeline.RingBuffer.History.{last-on_events}
use go_core_lab.Pipeline.RingBuffer.Slots.{newest}

abbrev numbered : ℕ → PipelineEvent
numbered i = record zero_event { id = i }

abbrev three_events : List PipelineEvent
three_events = numbered 1 ∷ numbered 2 ∷ numbered 3 ∷ []

ids : Result ℕ (List PipelineEvent) → List ℕ
ids panic = []
ids (Result.err e) = []
ids (ok events) = of_all events
  where
    of_all : List PipelineEvent → List ℕ
    of_all [] = []
    of_all (event ∷ rest) = event.id ∷ of_all rest

two_newest : ids (on_events three_events (new_ring_buffer_sink 2) >>= last 9) ≡ 2 ∷ 3 ∷ []
unfolding ids on_events on_event new_ring_buffer_sink capacity_of store fetch collect last
two_newest = refl

last-on_events_example :
    (on_events {E = ℕ} three_events (new_ring_buffer_sink 2) >>= last 9)
    ≡ ok (newest (min 9 (capacity_of 2)) three_events)
last-on_events_example = last-on_events {E = ℕ} 2 9 three_events
