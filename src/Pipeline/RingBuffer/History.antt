-- ===== src/Pipeline/RingBuffer/History.antt =====
-- internal/pipeline/sinks.go, RingBufferSink: the ring as a view of the events that have arrived.
use go_core_lab.Common.{
  ℕ, zero, suc, ◌+◌, ◌-◌, ◌%◌, ◌≤◌, ◌<◌, ◌≡◌, inl, inr, refl, sym, ap, ◌∙◌, ◌||◌, List, [], ◌∷◌,
  drop-get_or, ◌++◌, length, get_or, set, length-append, length-set, get_or-set_self, get_or-set_ne,
  append_assoc, append-nil, ok, ◌>>=◌, if◌then◌else◌, ltb, ◌==◌, arith, lt→ltb, Bool-cases,
}
use Prim.Native.Nat.{min}
use go_core_lab.Pipeline.Types.{PipelineEvent, zero_event}
use go_core_lab.Pipeline.RingBuffer.{
  RingBufferSink, capacity_of, new_ring_buffer_sink, store, fetch, on_event, on_events, collect,
  last,
}
use go_core_lab.Pipeline.RingBuffer.Slots.{
  newest, slot, get_or-append_old, get_or-append_new, newest_eq, newest_zero, new-Keeps, next_head,
  slot_newest, slot_older, slot_ne, slot_inside, slot_read, Keeps,
}

module _ (rb : RingBufferSink) (events : List PipelineEvent) (event : PipelineEvent)
    (k : Keeps rb events) where
  abbrev after : RingBufferSink
  after = record rb {
    buffer = set rb.buffer rb.head event;
    head = (rb.head + 1) % rb.capacity;
    count = if ltb rb.count rb.capacity then rb.count + 1 else rb.count;
  }

  on_event-after : {E : Type 0} → on_event {E = E} event rb ≡ ok after
  unfolding on_event store
  on_event-after = rw (lt→ltb rb.head (length rb.buffer) (omega (arith, k.size, k.inside)))

  kept_after :
      (j : ℕ)
      → j < after.count
      → get_or after.buffer (slot rb.capacity after.head j) zero_event
        ≡ get_or (events ++ (event ∷ [])) (length (events ++ (event ∷ [])) - 1 - j) zero_event
  kept_after zero h =
      rw (slot_newest rb.capacity rb.head k.inside, length-append events (event ∷ []), newest_index)
        (get_or-set_self rb.buffer rb.head event zero_event (omega (arith, k.size, k.inside))
          ∙ sym (get_or-append_new events event))
    where
      newest_index : length events + 1 - 1 - 0 ≡ length events
      newest_index = omega arith
  kept_after (suc j) h =
      rw
        (
          slot_older rb.capacity rb.head k.inside j short,
          length-append events (event ∷ []),
          older_index,
        )
        (get_or-set_ne rb.buffer rb.head _ event zero_event
            (slot_ne rb.capacity rb.head k.inside j short)
          ∙ (k.kept j old
              ∙ sym (
                  get_or-append_old events (event ∷ []) (length events - 1 - j)
                    (ground (arith, k.counted)))))
    where
      short : suc j < rb.capacity
      short = ground (arith, k.counted)

      old : j < rb.count
      old = ground arith

      older_index : length events + 1 - 1 - suc j ≡ length events - 1 - j
      older_index = omega arith

  after-Keeps : Keeps after (events ++ (event ∷ []))
  after-Keeps = record {
    size = length-set rb.buffer rb.head event ∙ k.size;
    inside = ground (arith, next_head rb.capacity rb.head k.inside, k.inside);
    counted = ground (arith, k.counted, length-append events (event ∷ []));
    kept = kept_after;
  }

on_events-Keeps :
    {E : Type 0} (rest : List PipelineEvent) (rb : RingBufferSink) (events : List PipelineEvent)
    → Keeps rb events
    → (rb' : RingBufferSink) × (on_events {E = E} rest rb ≡ ok rb')
      × Keeps rb' (events ++ rest)
      × (rb'.capacity ≡ rb.capacity)
unfolding on_events
on_events-Keeps [] rb events k = (rb, refl, rw (append-nil events) k, refl)
on_events-Keeps {E} (event ∷ rest) rb events k =
    let (rb', run, keeps, cap) =
      on_events-Keeps {E = E} rest (after rb events event k) (events ++ (event ∷ []))
        (after-Keeps rb events event k) in
    (
      rb',
      rw (on_event-after rb events event k) run,
      rw (← append_assoc events (event ∷ []) rest) keeps,
      cap,
    )

module _ (rb : RingBufferSink) (events : List PipelineEvent) (k : Keeps rb events) where
  read_slot :
      {E : Type 0} (j : ℕ)
      → j < rb.count
      → fetch {E = E} rb.buffer (slot rb.capacity rb.head j)
        ≡ ok (get_or events (length events - 1 - j) zero_event)
  unfolding fetch
  read_slot j h = rw (lt→ltb (slot rb.capacity rb.head j) (length rb.buffer) inside, k.kept j h)
    where
      inside : slot rb.capacity rb.head j < length rb.buffer
      inside = rw k.size (slot_inside rb.capacity rb.head k.inside j (ground (arith, k.counted)))

  newest_next :
      (m : ℕ)
      → suc m ≤ length events
      → newest (suc m) events ≡ get_or events (length events - 1 - m) zero_event ∷ newest m events
  unfolding newest
  newest_next m h =
      rw (this, next) (drop-get_or events (length events - 1 - m) zero_event (omega arith))
    where
      this : length events - suc m ≡ length events - 1 - m
      this = omega arith

      next : length events - m ≡ suc (length events - 1 - m)
      next = omega arith

  collect_lem :
      {E : Type 0} (n i m : ℕ)
      → i + m ≡ n
      → n ≤ rb.count
      → collect {E = E} rb ((rb.head + rb.capacity - n) % rb.capacity) i m ≡ ok (newest m events)
  unfolding collect
  collect_lem n i zero e h = ap ok (sym (newest_zero events))
  collect_lem {E} n i (suc m) e h = rw (
    collect_lem {E = E} n (i + 1) m (omega arith) h,
    at_slot,
    read_slot {E = E} m (omega arith),
    newest_next m (ground (arith, k.counted)),
  )
    where
      at_slot :
          ((rb.head + rb.capacity - n) % rb.capacity + i) % rb.capacity ≡ slot rb.capacity rb.head m
      at_slot = rw (← e) (slot_read rb.capacity rb.head k.inside i m (ground (arith, k.counted)))

  last_lem :
      {E : Type 0} (n : ℕ)
      → last {E = E} n rb ≡ ok (newest (if ltb rb.count n then rb.count else n) events)
  unfolding last
  last_lem {E} n = elim (Bool-cases (n == 0 || rb.count == 0)) [
    | inl nothing ↦
        rw nothing
          (ap ok (sym (newest_eq _ 0 events (ground (arith, k.counted)) ∙ newest_zero events)))
    | inr some_left ↦ rw (
      some_left,
      collect_lem {E = E} (if ltb rb.count n then rb.count else n) 0
          (if ltb rb.count n then rb.count else n) (omega arith) (ground arith),
    )
  ]

set_up : (capacity : ℕ) → (new_ring_buffer_sink capacity).capacity ≡ capacity_of capacity
unfolding new_ring_buffer_sink
set_up capacity = refl

-- A ring created with any capacity, 256 if none is given, never indexes out of range, and after any
-- events Last gives the most recent ones in the order in which they arrived: as many as were asked
-- for, as have arrived and as the ring holds.
pub last-on_events :
    {E : Type 0} (capacity n : ℕ) (events : List PipelineEvent)
    → (on_events {E = E} events (new_ring_buffer_sink capacity) >>= last n)
      ≡ ok (newest (min n (capacity_of capacity)) events)
last-on_events {E} capacity n events =
    let (rb, run, k, cap) =
      on_events-Keeps {E = E} events (new_ring_buffer_sink capacity) [] (new-Keeps capacity) in
    rw run (
      last_lem rb events k n
      ∙ ap ok (newest_eq _ _ events (ground (arith, k.counted, cap, set_up capacity))))
