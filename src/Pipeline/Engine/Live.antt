-- ===== src/Pipeline/Engine/Live.antt =====
-- internal/pipeline/engine.go: what keeps the goroutines able to go on, in every state.
use go_core_lab.Common.{
  ℕ, zero, suc, ◌+◌, ◌%◌, ◌<◌, ◌≡◌, refl, sym, subst, ◌∙◌, Bool, true, false, List, [], ◌∷◌, ◌++◌,
  Option, length, replicate, set, length-set, length-replicate, All, ok, ok_inj, ltb, lt→ltb,
  if◌then◌else◌, arith,
}
use native.Mathlib.Nat.{mod-lt}
use go_core_lab.Pipeline.Types.{IngestionEvent, PipelineEvent, zero_event}
use go_core_lab.Pipeline.RingBuffer.{
  RingBufferSink, new_ring_buffer_sink, capacity_of, store, on_event,
}
use go_core_lab.Pipeline.Stats.{StatsSink, on_stats_event, record_drop}
use go_core_lab.Pipeline.Engine.{
  EngineConfig, Worker, idle, holds, to_stats, to_ring, returned, Engine, start, Turns, Step,
  enqueue, drop_event, abandon, close_cancelled, close_exhausted, cancel, receive, discard, dissect,
  count, keep, return_worker, process, Reaches, started, stepped,
}
use go_core_lab.Pipeline.Engine.Workers.{left, leaves, leaves-idle, turn_leaves, turn_length}

-- The engine has an answer for the event, in whichever worker: its dissection does not panic.
abbrev pub Handled : EngineConfig → IngestionEvent → Type 0
Handled cfg event =
    (worker_id latency : ℕ)
    → (o : Option PipelineEvent) × (process cfg worker_id latency event ≡ ok o)

abbrev pub CanGoOn : EngineConfig → Worker → Type 0
CanGoOn cfg idle = Unit
CanGoOn cfg (holds event) = Handled cfg event
CanGoOn cfg (to_stats p) = Unit
CanGoOn cfg (to_ring p) = Unit
CanGoOn cfg returned = Unit

-- The ring takes any event.
pub record Takes (ring : RingBufferSink) : Type 0 where
  pub size : length ring.buffer ≡ ring.capacity
  pub inside : ring.head < ring.capacity

pub record Live (cfg : EngineConfig) (e : Engine) : Type 0 where
  pub source : All (Handled cfg) e.source
  pub queue : All (Handled cfg) e.queue
  pub workers : All (CanGoOn cfg) e.workers
  pub ring : Takes e.ring
  pub crew : length e.workers ≡ cfg.num_workers
  pub none_left : e.closed ≡ false → leaves e.workers ≡ 0

new-Takes : (capacity : ℕ) → Takes (new_ring_buffer_sink capacity)
unfolding new_ring_buffer_sink capacity_of
new-Takes capacity = record {
  size = length-replicate (capacity_of capacity) zero_event;
  inside = ground arith;
}

abbrev pushed : PipelineEvent → RingBufferSink → RingBufferSink
pushed p ring = record ring {
  buffer = set ring.buffer ring.head p;
  head = (ring.head + 1) % ring.capacity;
  count = if ltb ring.count ring.capacity then ring.count + 1 else ring.count;
}

on_event-pushed :
    (p : PipelineEvent) (ring : RingBufferSink)
    → Takes ring
    → on_event {E = Unit {0}} p ring ≡ ok (pushed p ring)
unfolding on_event store
on_event-pushed p ring t =
    rw (lt→ltb ring.head (length ring.buffer) (omega (arith, t.size, t.inside)))

pub on_event-Takes :
    (p : PipelineEvent) (ring : RingBufferSink)
    → Takes ring
    → (ring' : RingBufferSink) × (on_event {E = Unit {0}} p ring ≡ ok ring')
on_event-Takes p ring t = (pushed p ring, on_event-pushed p ring t)

kept-Takes :
    (p : PipelineEvent) (ring ring' : RingBufferSink)
    → Takes ring
    → on_event {E = Unit {0}} p ring ≡ ok ring'
    → Takes ring'
kept-Takes p ring ring' t e = subst Takes (ok_inj (sym (on_event-pushed p ring t) ∙ e)) record {
  size = length-set ring.buffer ring.head p ∙ t.size;
  inside = mod-lt (ring.head + 1) (omega (arith, t.inside));
}

all-append : {A : Type 0} (P : A → Type 0) (xs ys : List A) → All P xs → All P ys → All P (xs ++ ys)
all-append P [] ys p q = q
all-append P (x ∷ xs) ys (p, ps) q = (p, all-append P xs ys ps q)

all-behind : {A : Type 0} (P : A → Type 0) (xs ys : List A) → All P (xs ++ ys) → All P xs × All P ys
all-behind P [] ys p = (tt, p)
all-behind P (x ∷ xs) ys (p, ps) = let (q, r) = all-behind P xs ys ps in ((p, q), r)

idle-CanGoOn : (cfg : EngineConfig) (n : ℕ) → All (CanGoOn cfg) (replicate n idle)
idle-CanGoOn cfg zero = tt
idle-CanGoOn cfg (suc n) = (tt, idle-CanGoOn cfg n)

pub start-Live :
    (cfg : EngineConfig) (events : List IngestionEvent)
    → All (Handled cfg) events
    → Live cfg (start cfg events)
unfolding start
start-Live cfg events handled = record {
  source = handled;
  queue = tt;
  workers = idle-CanGoOn cfg cfg.num_workers;
  ring = new-Takes cfg.ring_buffer_size;
  crew = length-replicate cfg.num_workers idle;
  none_left = λ h. leaves-idle cfg.num_workers;
}

module _ (cfg : EngineConfig) {e : Engine} {from to : Worker} {workers : List Worker}
    (t : Turns e from to workers) (live : Live cfg e) where
  turn-CanGoOn : (CanGoOn cfg from → CanGoOn cfg to) → All (CanGoOn cfg) workers
  turn-CanGoOn f =
      let halves = all-behind (CanGoOn cfg) t.before (from ∷ t.behind) (rw t.now at live.workers) in
      rw t.next
        (all-append (CanGoOn cfg) t.before (to ∷ t.behind) (halves.0) (f (halves.1.0), halves.1.1))

  -- A worker has turned to something else, and did not return early.
  turned :
      (queue : List IngestionEvent) (ring : RingBufferSink) (stats : StatsSink) (filtered : ℕ)
      → All (Handled cfg) queue
      → Takes ring
      → (CanGoOn cfg from → CanGoOn cfg to)
      → (e.closed ≡ false → leaves workers ≡ 0)
      → Live cfg (record e {
        queue = queue;
        workers = workers;
        ring = ring;
        stats = stats;
        filtered = filtered;
      })
  turned queue ring stats filtered handled takes f stays = record {
    source = live.source;
    queue = handled;
    workers = turn-CanGoOn f;
    ring = takes;
    crew = turn_length t ∙ live.crew;
    none_left = stays;
  }

module _ (cfg : EngineConfig) {e : Engine} (live : Live cfg e) where
  -- The dispatcher is past an event, or has closed the queue.
  taken :
      (source queue : List IngestionEvent) (closed cancelled : Bool) (stats : StatsSink) (lost : ℕ)
      → All (Handled cfg) source
      → All (Handled cfg) queue
      → (closed ≡ false → leaves e.workers ≡ 0)
      → Live cfg (record e {
        source = source;
        queue = queue;
        closed = closed;
        cancelled = cancelled;
        stats = stats;
        lost = lost;
      })
  taken source queue closed cancelled stats lost s q stays = record {
    source = s;
    queue = q;
    workers = live.workers;
    ring = live.ring;
    crew = live.crew;
    none_left = stays;
  }

  rest_handled :
      {event : IngestionEvent} {rest events : List IngestionEvent}
      → All (Handled cfg) events
      → events ≡ event ∷ rest
      → Handled cfg event × All (Handled cfg) rest
  rest_handled all next = rw next at all

-- A worker that has not returned stays one of those that have not.
still_none :
    (e : Engine) {from to : Worker} {workers : List Worker}
    → Turns e from to workers
    → left to ≡ left from
    → (e.closed ≡ false → leaves e.workers ≡ 0)
    → e.closed ≡ false
    → leaves workers ≡ 0
still_none e t same none h = omega (arith, turn_leaves t, none h)

pub Step-Live : {cfg : EngineConfig} {e e' : Engine} → Step cfg e e' → Live cfg e → Live cfg e'
Step-Live {cfg} (enqueue e event rest unclosed next room) live =
    let (here, later) = rest_handled cfg live live.source next in
    taken cfg live rest (e.queue ++ (event ∷ [])) e.closed e.cancelled e.stats e.lost later
      (all-append (Handled cfg) e.queue (event ∷ []) live.queue (here, tt)) live.none_left
Step-Live {cfg} (drop_event e event rest unclosed next dropping full) live =
    let (here, later) = rest_handled cfg live live.source next in
    taken cfg live rest e.queue e.closed e.cancelled (record_drop e.stats) e.lost later live.queue
      live.none_left
Step-Live {cfg} (abandon e event rest unclosed next blocking cancelled) live =
    let (here, later) = rest_handled cfg live live.source next in
    taken cfg live rest e.queue true e.cancelled e.stats (e.lost + 1) later live.queue
      (λ h. absurd cc)
Step-Live {cfg} (close_cancelled e unclosed cancelled) live =
    taken cfg live e.source e.queue true e.cancelled e.stats e.lost live.source live.queue
      (λ h. absurd cc)
Step-Live {cfg} (close_exhausted e unclosed nothing) live =
    taken cfg live e.source e.queue true e.cancelled e.stats e.lost live.source live.queue
      (λ h. absurd cc)
Step-Live {cfg} (cancel e) live =
    taken cfg live e.source e.queue e.closed true e.stats e.lost live.source live.queue
      live.none_left
Step-Live {cfg} (receive e event rest workers next t) live =
    let (here, later) = rest_handled cfg live live.queue next in
    turned cfg t live rest e.ring e.stats e.filtered later live.ring (λ u. here)
      (still_none e t refl live.none_left)
Step-Live {cfg} (discard e event worker_id latency workers done t) live =
    turned cfg t live e.queue e.ring e.stats (e.filtered + 1) live.queue live.ring (λ u. tt)
      (still_none e t refl live.none_left)
Step-Live {cfg} (dissect e event p worker_id latency workers done t) live =
    turned cfg t live e.queue e.ring e.stats e.filtered live.queue live.ring (λ u. tt)
      (still_none e t refl live.none_left)
Step-Live {cfg} (count e p workers t) live =
    turned cfg t live e.queue e.ring (on_stats_event p e.stats) e.filtered live.queue live.ring
      (λ u. tt) (still_none e t refl live.none_left)
Step-Live {cfg} (keep e p ring workers kept t) live =
    turned cfg t live e.queue ring e.stats e.filtered live.queue
      (kept-Takes p e.ring ring live.ring kept) (λ u. tt) (still_none e t refl live.none_left)
Step-Live {cfg} (return_worker e workers empty closed t) live =
    turned cfg t live e.queue e.ring e.stats e.filtered live.queue live.ring (λ u. tt)
      (λ h. absurd cc)

-- It holds in every state that the engine comes to.
pub Reaches-Live :
    {cfg : EngineConfig} {events : List IngestionEvent} {e : Engine}
    → All (Handled cfg) events
    → Reaches cfg events e
    → Live cfg e
Reaches-Live {cfg} {events} handled started = start-Live cfg events handled
Reaches-Live handled (stepped r s) = Step-Live s (Reaches-Live handled r)
