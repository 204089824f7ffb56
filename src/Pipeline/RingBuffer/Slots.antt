-- ===== src/Pipeline/RingBuffer/Slots.antt =====
-- internal/pipeline/sinks.go, RingBufferSink: in which slot of the ring an event is.
use go_core_lab.Common.{
  ℕ, zero, suc, ◌+◌, ◌-◌, ◌%◌, ◌≤◌, ◌<◌, ◌≡◌, ◌≢◌, refl, ap, List, [], ◌∷◌, drop_past, ◌++◌, length,
  get_or, drop, length-replicate, if◌then◌else◌, ltb, arith, lt→ltb,
}
use native.Mathlib.Nat.{mod-eq_of_lt, mod-eq-sub-mod}
use native.Mathlib.Decide.{dec_lt}
use go_core_lab.Pipeline.Types.{PipelineEvent, zero_event}
use go_core_lab.Pipeline.RingBuffer.{RingBufferSink, capacity_of, new_ring_buffer_sink}

-- The last `k` of the events.
unfoldable pub newest : ℕ → List PipelineEvent → List PipelineEvent
newest k events = drop (length events - k) events

-- Where the ring with the next write at `head` keeps the event that arrived `k` events before the
-- last one.
pub slot : ℕ → ℕ → ℕ → ℕ
slot cap head k = if ltb k head then head - 1 - k else head + cap - 1 - k

pub record Keeps (rb : RingBufferSink) (events : List PipelineEvent) : Type 0 where
  pub size : length rb.buffer ≡ rb.capacity
  pub inside : rb.head < rb.capacity
  pub counted : rb.count ≡ (if ltb (length events) rb.capacity then length events else rb.capacity)
  pub kept :
      (k : ℕ)
      → k < rb.count
      → get_or rb.buffer (slot rb.capacity rb.head k) zero_event
        ≡ get_or events (length events - 1 - k) zero_event

-- A remainder below twice the divisor.
mod-below : (x cap : ℕ) → x < cap + cap → x % cap ≡ (if ltb x cap then x else x - cap)
mod-below x cap h = elim (dec_lt x cap) [
  | yes p ↦ rw (lt→ltb x cap p) (mod-eq_of_lt p)
  | no p ↦ ground (
    arith,
    mod-eq-sub-mod {n = x} {m = cap} (omega arith),
    mod-eq_of_lt {n = x - cap} {m = cap} (omega arith),
  )
]

pub get_or-append_old :
    (xs ys : List PipelineEvent) (i : ℕ)
    → i < length xs
    → get_or (xs ++ ys) i zero_event ≡ get_or xs i zero_event
get_or-append_old [] ys i h = absurd (omega arith)
get_or-append_old (x ∷ xs) ys zero h = refl
get_or-append_old (x ∷ xs) ys (suc i) h = get_or-append_old xs ys i (omega arith)

pub get_or-append_new :
    (xs : List PipelineEvent) (y : PipelineEvent)
    → get_or (xs ++ (y ∷ [])) (length xs) zero_event ≡ y
get_or-append_new [] y = refl
get_or-append_new (x ∷ xs) y = get_or-append_new xs y

pub newest_eq :
    (j k : ℕ) (events : List PipelineEvent)
    → length events - j ≡ length events - k
    → newest j events ≡ newest k events
unfolding newest
newest_eq j k events e = ap (λ i. drop i events) e

pub newest_zero : (events : List PipelineEvent) → newest 0 events ≡ []
unfolding newest
newest_zero events = drop_past (length events - 0) events (omega arith)

pub new-Keeps : (c : ℕ) → Keeps (new_ring_buffer_sink c) []
unfolding new_ring_buffer_sink capacity_of
new-Keeps c = record {
  size = length-replicate (capacity_of c) zero_event;
  inside = ground arith;
  counted = ground arith;
  kept = λ k h. absurd (omega arith);
}

module _ (cap head : ℕ) (inside : head < cap) where
  pub next_head : (head + 1) % cap ≡ (if ltb (head + 1) cap then head + 1 else 0)
  next_head = ground (arith, mod-below (head + 1) cap (omega arith))

  -- The newest event stands where it was written, and the others stay where they are.
  pub slot_newest : slot cap ((head + 1) % cap) 0 ≡ head
  unfolding slot
  slot_newest = ground (arith, next_head)

  pub slot_older : (k : ℕ) → suc k < cap → slot cap ((head + 1) % cap) (suc k) ≡ slot cap head k
  unfolding slot
  slot_older k h = ground (arith, next_head)

  pub slot_ne : (k : ℕ) → suc k < cap → head ≢ slot cap head k
  unfolding slot
  slot_ne k h = ground arith

  pub slot_inside : (k : ℕ) → k < cap → slot cap head k < cap
  unfolding slot
  slot_inside k h = ground arith

  step_read :
      (s i m : ℕ)
      → i + suc m ≤ cap
      → s ≡ (
          if ltb (head + cap - (i + suc m)) cap
          then head + cap - (i + suc m)
          else head + cap - (i + suc m) - cap)
      → (s + i) % cap ≡ slot cap head m
  unfolding slot
  step_read s i m h e = ground (arith, mod-below (s + i) cap (ground arith))

  -- The index that Last computes in round `i` of `i + suc m`.
  pub slot_read :
      (i m : ℕ) → i + suc m ≤ cap → ((head + cap - (i + suc m)) % cap + i) % cap ≡ slot cap head m
  slot_read i m h = step_read _ i m h (mod-below (head + cap - (i + suc m)) cap (omega arith))
