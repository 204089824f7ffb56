-- ===== src/Pipeline.antt =====
-- internal/pipeline: the events, the sinks that collect them, and the engine between source and sinks.
pub mod Types
pub mod RingBuffer
pub mod Stats
pub mod Engine
pub mod Recording
