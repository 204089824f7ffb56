-- ===== src/Pipeline/RingBuffer.antt =====
-- internal/pipeline/sinks.go, RingBufferSink: the last events in a circular buffer. Each call holds
-- the lock from its first access to its last, so that calls are steps one after the other.
pub mod Slots
pub mod History
mod Tests
use go_core_lab.Common.{
  ℕ, zero, suc, ◌+◌, ◌-◌, ◌%◌, Bool, true, false, ◌||◌, List, [], ◌∷◌, length, get_or, set,
  replicate, Result, ok, panic, ◌>>=◌, if◌then◌else◌, ltb, leb, ◌==◌,
}
use go_core_lab.Pipeline.Types.{PipelineEvent, zero_event}

pub record RingBufferSink : Type 0 where
  pub capacity : ℕ
  pub buffer : List PipelineEvent
  pub head : ℕ
  pub count : ℕ

-- `capacity <= 0` stands for 0 here.
unfoldable pub capacity_of : ℕ → ℕ
capacity_of capacity = if capacity == 0 then 256 else capacity

unfoldable pub new_ring_buffer_sink : ℕ → RingBufferSink
unfolding capacity_of
new_ring_buffer_sink capacity = record {
  capacity = capacity_of capacity;
  buffer = replicate (capacity_of capacity) zero_event;
  head = 0;
  count = 0;
}

-- `buffer[i] = event` and `buffer[i]`, which panic out of range.
unfoldable pub store {ℓ} :
    {E : Type ℓ} → List PipelineEvent → ℕ → PipelineEvent → Result E (List PipelineEvent)
store buffer i event = if ltb i (length buffer) then ok (set buffer i event) else panic

pub fetch {ℓ} : {E : Type ℓ} → List PipelineEvent → ℕ → Result E PipelineEvent
fetch buffer i = if ltb i (length buffer) then ok (get_or buffer i zero_event) else panic

unfoldable pub on_event {ℓ} :
    {E : Type ℓ} → PipelineEvent → RingBufferSink → Result E RingBufferSink
on_event event rb = do
  buffer ← store rb.buffer rb.head event
  ok (record rb {
    buffer = buffer;
    head = (rb.head + 1) % rb.capacity;
    count = if ltb rb.count rb.capacity then rb.count + 1 else rb.count;
  })

-- The loop of Last from `i` on, with `m` rounds to go.
pub collect {ℓ} : {E : Type ℓ} → RingBufferSink → ℕ → ℕ → ℕ → Result E (List PipelineEvent)
collect rb start i zero = ok []
collect rb start i (suc m) = do
  event ← fetch rb.buffer ((start + i) % rb.capacity)
  rest ← collect rb start (i + 1) m
  ok (event ∷ rest)

-- `n <= 0` stands for 0 here. `head - n + capacity` is taken in the order that has no negative
-- intermediate: `n` is at most `count` there, and `count` at most `capacity`.
pub last {ℓ} : {E : Type ℓ} → ℕ → RingBufferSink → Result E (List PipelineEvent)
last n rb =
    if n == 0 || rb.count == 0
    then ok []
    else let n = if ltb rb.count n then rb.count else n in
      collect rb ((rb.head + rb.capacity - n) % rb.capacity) 0 n

pub len : RingBufferSink → ℕ
len rb = rb.count

-- A run of the sink over the events that arrive, in order.
pub on_events {ℓ} : {E : Type ℓ} → List PipelineEvent → RingBufferSink → Result E RingBufferSink
on_events [] rb = ok rb
on_events (event ∷ rest) rb = on_event event rb >>= on_events rest
