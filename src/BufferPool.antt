-- ===== src/BufferPool.antt =====
-- pkg/pool/buffer_pool.go: the two buffer pools. A `sync.Pool` may hand out any of its buffers or a
-- new one, and may lose buffers at any time; a call is a step of one pool. What the callers write
-- into a buffer is not looked at.
pub mod Sizes
mod Tests
use go_core_lab.Common.{ℕ, ◌++◌, List, [], ◌∷◌, if◌then◌else◌, leb}

abbrev pub packet_buffer_size : ℕ
packet_buffer_size = 65535

abbrev pub small_buffer_size : ℕ
small_buffer_size = 4096

-- A byte slice: its length and its capacity.
pub record Buffer : Type 0 where
  pub len : ℕ
  pub cap : ℕ

-- `New` of a pool, `make([]byte, size)`.
abbrev pub new_buffer : ℕ → Buffer
new_buffer size = record { len = size; cap = size }

-- PutPacketBuffer and PutSmallBuffer: `b[:size]` goes back, if there is room for it in `b`.
unfoldable pub put_buffer : ℕ → Buffer → List Buffer → List Buffer
put_buffer size b pool = if leb size b.cap then record b { len = size } ∷ pool else pool

-- What a step of a pool was.
pub data Call : Type 0 where
  got : Buffer → Call
  put : Buffer → Call
  lost : Call

pub data PoolStep (size : ℕ) : List Buffer → Call → List Buffer → Type 0 where
  get_kept :
      (before behind : List Buffer) (b : Buffer)
      → PoolStep size (before ++ (b ∷ behind)) (got b) (before ++ behind)
  get_new : (pool : List Buffer) → PoolStep size pool (got (new_buffer size)) pool
  give_back :
      (pool : List Buffer) (b : Buffer) → PoolStep size pool (put b) (put_buffer size b pool)
  lose :
      (before behind : List Buffer) (b : Buffer)
      → PoolStep size (before ++ (b ∷ behind)) lost (before ++ behind)

-- The states of a pool that begins empty.
pub data PoolReaches (size : ℕ) : List Buffer → Type 0 where
  began : PoolReaches size []
  went_on :
      {pool pool' : List Buffer} {c : Call}
      → PoolReaches size pool
      → PoolStep size pool c pool'
      → PoolReaches size pool'
